-- ===== src/Session/Open.antt =====
-- libel/libel.c: `sky_open`, with `validate_device_id` and `strnlen_`. A pointer is an `Option`, with
-- `none` for NULL; the session that the caller hands over may hold anything. The logging is left out,
-- but for the test of the logger that decides what happens to a missing session.
pub mod Auth
pub mod Checks
pub mod Finish
pub mod Opens
pub mod Again
pub mod First
use embedded_client.Float.{fin}
use embedded_client.Mac.{memcmp}
use embedded_client.Validate.Beacons.{validate_session_ctx, header_valid}
use embedded_client.Config.Overrides.{config_defaults}
use embedded_client.Session.Start.{request_header}
use embedded_client.Common.{
  pos, some, none, [], true, zero, false, suc, ◌∷◌, ◌==◌, ◌&&◌, ◌||◌, ◌%◌, ◌-◌, ◌++◌, if◌then◌else◌,
  Option, List, ℕ, Bool, not, replicate, ltb, leb, eqb_ℤ, take, ◌+◌, drop,
}
use embedded_client.Types.{
  error, success, error_already_open, error_bad_parameters, error_none, error_no_plugin, Errno,
  Session, Config, CacheLine, max_sku_len, Status, max_device_id, aes_size, total_beacons_max,
  log_level_error, empty_slot, cache_size, Gnss, no_fix,
}
use embedded_client.Plugins.Register.{Tables, sky_register_plugins}
use embedded_client.Plugins.Register.Basic.{plugins_from}

-- What the caller gives, beside the session. `device_id` and `aes_key` are the bytes from the pointer
-- on, `sku` the characters in front of the terminating zero, `logf` whether there is a logger, and
-- `gettime` what the clock reads, if there is one.
pub record OpenArgs : Type 0 where
  pub device_id : Option (List ℕ)
  pub id_len : ℕ
  pub partner_id : ℕ
  pub aes_key : Option (List ℕ)
  pub sku : Option (List ℕ)
  pub cc : ℕ
  pub min_level : ℕ
  pub logf : Bool
  pub gettime : Option ℕ

-- How the call ends: by a read through NULL, with an error and no session, or with the session.
pub data Opening : Type 0 where
  crashed : Opening
  refused : Errno → Opening
  returned : Session → Errno → Opening

-- The number of characters in front of a zero, `maxlen` at most; the end of the list is a zero too.
unfoldable pub strnlen_ : List ℕ → ℕ → ℕ
strnlen_ [] maxlen = 0
strnlen_ (c ∷ cs) zero = 0
strnlen_ (c ∷ cs) (suc maxlen) = if c == 0 then 0 else suc (strnlen_ cs maxlen)

unfoldable pub validate_device_id : Option (List ℕ) → ℕ → Bool
validate_device_id none id_len = false
validate_device_id (some device_id) id_len = if ltb max_device_id id_len then false else true

abbrev pub text_of : Option (List ℕ) → List ℕ
text_of none = []
text_of (some cs) = cs

abbrev pub is_some : Option (List ℕ) → Bool
is_some none = false
is_some (some x) = true

-- `memcmp(a, b, n) != 0`
abbrev pub bytes_differ : List ℕ → List ℕ → ℕ → Bool
bytes_differ a b n = not (eqb_ℤ (memcmp (take n a) (take n b)) (pos 0))

-- `none` if the comparison reads through NULL.
unfoldable pub key_differs : Option (List ℕ) → List ℕ → Option Bool
key_differs none saved = none
key_differs (some key) saved = some (bytes_differ key saved aes_size)

unfoldable pub auth_changed : OpenArgs → Session → Option Bool
auth_changed a s =
    let sku = text_of a.sku in
    if bytes_differ sku s.sku (strnlen_ sku max_sku_len)
    then some true
    else if not (a.partner_id == s.partner_id)
    then some true
    else key_differs a.aes_key s.aes_key

abbrev clear_magic : Session → Session
clear_magic s = record s { header = record (s.header) { magic = 0 } }

-- What is made of the session that the caller hands over.
pub data Saved : Type 0 where
  unreadable already_open : Saved
  usable : Session → Saved

abbrev pub after_auth : Session → Option Bool → Saved
after_auth s none = unreadable
after_auth s (some true) = usable (clear_magic s)
after_auth s (some false) = usable s

-- `size` is the size of a session context.
unfoldable pub check_saved : ℕ → OpenArgs → Session → Saved
check_saved size a s =
    if s.header.magic == 0
    then usable s
    else if not (validate_session_ctx size s)
    then usable (clear_magic s)
    else if s.open_flag
    then already_open
    else if a.partner_id == 0
    then usable s
    else after_auth s (auth_changed a s)

abbrev pub zero_config : Config
zero_config = record {
  last_config_time = 0;
  total_beacons = 0;
  max_ap_beacons = 0;
  cache_match_threshold = 0;
  cache_age_threshold = 0;
  cache_beacon_threshold = 0;
  cache_neg_rssi_threshold = 0;
  cache_match_all_threshold = 0;
  cache_match_used_threshold = 0;
  max_vap_per_ap = 0;
  max_vap_per_rq = 0;
}

-- A zeroed fix has a latitude of 0, which is a number.
abbrev pub zero_fix : Gnss
zero_fix = record no_fix { lat = fin (pos 0) }

abbrev pub empty_line : CacheLine
empty_line = record {
  num_ap = 0;
  time = 0;
  beacon = [];
  spare = replicate total_beacons_max empty_slot;
  gnss = zero_fix;
}

-- The cleared session, with its header and its empty cache.
abbrev pub new_session : ℕ → ℕ → Session
new_session size now = record {
  header = request_header size now;
  open_flag = false;
  min_level = 0;
  plugins = [];
  id_len = 0;
  device_id = replicate max_device_id 0;
  token_id = 0;
  ul_app_data = [];
  sku = replicate (max_sku_len + 1) 0;
  cc = 0;
  backoff = error_none;
  partner_id = 0;
  aes_key = replicate aes_size 0;
  cacheline = replicate cache_size empty_line;
  config = zero_config;
  cache_hits = 0;
}

-- The session is initialised if it has no magic number, and its configuration is completed.
abbrev pub prepared : ℕ → ℕ → Session → Session
prepared size now s =
    let s' = if s.header.magic == 0 then new_session size now else s in
    record s' { config = config_defaults s'.config }

-- `strncpy(sku, from, 32); sku[32] = 0`
abbrev pub sku_array : List ℕ → List ℕ
sku_array sku = let n = strnlen_ sku max_sku_len in take n sku ++ replicate (max_sku_len + 1 - n) 0

-- What the session keeps of the arguments.
abbrev pub identified : OpenArgs → ℕ → List ℕ → List ℕ → Session → Session
identified a id_len device_id key s =
    let sku = text_of a.sku in
    let given = not (strnlen_ sku max_sku_len == 0) in
    record s {
      id_len = id_len;
      device_id = take id_len device_id ++ drop id_len s.device_id;
      partner_id = a.partner_id;
      aes_key = take aes_size key;
      sku = if given then sku_array sku else s.sku;
      cc = if given then a.cc % 65536 else s.cc;
      min_level = a.min_level;
    }

-- `fuel` bounds the walk along the plugins, whose tables are at the two addresses.
module _ (size fuel ap_table cell_table : ℕ) where
  abbrev concluded : Session → Tables × ℕ × Status → Tables × Opening
  concluded s (h, root, success) = (
    h,
    returned (record s { plugins = plugins_from fuel h root ap_table cell_table; open_flag = true })
        error_none,
  )
  concluded s (h, root, error) = (
    h,
    returned (record s { plugins = plugins_from fuel h root ap_table cell_table }) error_no_plugin,
  )

  -- The second half, once there is a clock.
  abbrev finished : OpenArgs → Tables → Session → Tables × Opening
  finished a h s =
      let id_len = if ltb max_device_id a.id_len then max_device_id else a.id_len in
      if not (validate_device_id a.device_id id_len) || not (is_some a.aes_key)
      then (h, returned s error_bad_parameters)
      else concluded (identified a id_len (text_of a.device_id) (text_of a.aes_key) s)
          (sky_register_plugins fuel h 0 ap_table cell_table)

  abbrev resumed : OpenArgs → Tables → Session → Option ℕ → Tables × Opening
  resumed a h s none = (h, returned s error_bad_parameters)
  resumed a h s (some now) = finished a h (prepared size now s)

  abbrev opening : OpenArgs → Tables → Session → Saved → Tables × Opening
  opening a h s unreadable = (h, crashed)
  opening a h s already_open = (h, returned s error_already_open)
  opening a h s (usable s') = resumed a h s' a.gettime

  -- The tables that the plugins are registered in, and how the call ends.
  unfoldable pub sky_open : OpenArgs → Tables → Option Session → Tables × Opening
  sky_open a h none =
      if a.logf && leb log_level_error a.min_level
      then (h, refused error_bad_parameters)
      else (h, crashed)
  sky_open a h (some s) = opening a h s (check_saved size a s)

-- 0 if the buffer holds no session of this size; `none` asks for the size.
unfoldable pub sky_sizeof_session_ctx : ℕ → Option Session → ℕ
sky_sizeof_session_ctx size none = size
sky_sizeof_session_ctx size (some s) =
    if not (header_valid s.header) then 0 else if s.header.size == size then s.header.size else 0
