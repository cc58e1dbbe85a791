-- ===== src/Session/Reply.antt =====
-- libel/protocol/proto.c: what `deserialize_response` does with a decoded reply; libel/libel.c:
-- `sky_decode_response`; plugins/ap_plugin_basic.c: `to_cache`; libel/plugin.c:
-- `sky_plugin_add_to_cache`. The decoding (nanopb and AES) and
-- `apply_used_info_to_ap`, which marks beacons as used, are parameters. Of a location, its status and
-- its time are modelled.
use embedded_client.Crc.{sky_crc32, header_bytes}
use embedded_client.Validate.Beacons.{validate_request_ctx, validate_session_ctx}
use embedded_client.Errors.{set_error_status}
use embedded_client.Beacons.Cache.{find_oldest}
use embedded_client.Config.Overrides.{apply_config_overrides, ClientConfig}
use embedded_client.Types.{
  error_location_unknown, status_success, error_decode_error, auth_retry, error_server_error,
  tbr_disabled, error_bad_request_ctx, error_bad_parameters, auth_retry_1d, error_none, error_auth,
  status_auth_error, status_bad_partner_id_error, auth_retry_16h, status_decode_error,
  error_bad_session_ctx, tbr_unregistered, error, status_unable_to_locate, tbr_registered,
  auth_retry_8h, success, LocStatus, Rctx, Session, CacheLine, Errno, TbrState, Status, num_beacons,
  u32, timestamp_2019_03_01, no_fix, error_no_plugin, cell_plugin_basic, ap_plugin_basic, Plugin,
}
use embedded_client.Common.{
  ℕ, false, true, negsuc, [], pos, some, none, Option, Bool, if◌then◌else◌, drop, ◌%◌, List, ◌==◌,
  leb, ◌++◌, not, get_or, length, set, ◌∷◌,
}

-- A reply that decodes: the status of its header, and what its body holds, if it has one.
pub record ServerReply : Type 0 where
  pub status : LocStatus
  pub body : Option (ClientConfig × ℕ)

abbrev pub token_of : ServerReply → ℕ
token_of reply = elim (reply.body) [ none ↦ 0 | some (config, token) ↦ token ]

abbrev pub set_session : Rctx → Session → Rctx
set_session r s = record r { session = s }

-- A reply with a body may change the configuration.
unfoldable pub receive_config : Session → ServerReply → Session
receive_config s reply = elim (reply.body) [
  | none ↦ s
  | some (rs, token) ↦
      let c = (apply_config_overrides s.config rs).0 in
      record s {
        config =
            if c.last_config_time == 0 then record c { last_config_time = s.header.time } else c;
      }
]

abbrev is_auth_error : LocStatus → Bool
is_auth_error status_auth_error = true
is_auth_error _ = false

module _ (apply_used_info : Rctx → Rctx) where
  -- The last case of the `switch`: a request without registration, or a registered one.
  abbrev location_reply : Rctx → LocStatus → Rctx × LocStatus
  location_reply r status =
      if is_auth_error status then (r, status_bad_partner_id_error) else (apply_used_info r, status)

  -- The `switch` on the state of the registration: the new state and token, and the status that the
  -- application sees.
  abbrev register : TbrState → Rctx → LocStatus → ℕ → Rctx × LocStatus
  register tbr_unregistered r status token = if token == 0 then (r, status_auth_error) else (
    record r { auth_state = tbr_registered; session = record (r.session) { token_id = token } },
    status_auth_error,
  )
  register tbr_registered r status token =
      if is_auth_error status
      then (
        record r { auth_state = tbr_unregistered; session = record (r.session) { token_id = 0 } },
        status_auth_error,
      )
      else location_reply r status
  register tbr_disabled r status token = location_reply r status

  unfoldable pub deserialize_response : Rctx → ServerReply → Rctx × LocStatus
  deserialize_response r reply =
      let r' = set_session r (receive_config r.session reply) in
      register r'.auth_state r' reply.status (token_of reply)

-- The cacheline with the request's beacons in its first slots, and its fix.
unfoldable pub fill_cacheline : CacheLine → Rctx → ℕ → CacheLine
fill_cacheline cl r time = record {
  num_ap = r.num_ap;
  time = time;
  beacon = r.beacon;
  spare = drop (num_beacons r) (cl.beacon ++ cl.spare);
  gnss = r.gnss;
}

abbrev pub empty_cacheline : CacheLine
empty_cacheline = record { num_ap = 0; time = 0; beacon = []; spare = []; gnss = no_fix }

-- `save_to` or, if it is negative, the oldest.
abbrev pub save_index : Rctx → ℕ
save_index r = elim (r.save_to) [ pos i ↦ i | negsuc _ ↦ find_oldest r ]

-- For a location of status `success`, as `sky_decode_response` passes it.
unfoldable pub to_cache : Rctx → ℕ → Rctx × Status
to_cache r time =
    if leb time timestamp_2019_03_01
    then (r, error)
    else (let i = save_index r in
        let s = r.session in
        let cl = fill_cacheline (get_or s.cacheline i empty_cacheline) r time in
        (set_session r (record s { cacheline = set s.cacheline i cl }), success))

-- The entry `add_to_cache` of the two tables, `none` where it is NULL.
abbrev pub add_to_cache : Plugin → Option (Rctx → ℕ → Rctx × Status)
add_to_cache ap_plugin_basic = some to_cache
add_to_cache cell_plugin_basic = none

abbrev pub saved_by : Option (Rctx → ℕ → Rctx × Status) → Rctx → ℕ → Rctx × Status
saved_by none r time = (r, error)
saved_by (some f) r time = f r time

-- The answer of the last plugin that was asked stays in `ret`, and the next one has its turn only
-- while that is an error.
unfoldable pub sky_plugin_add_to_cache : List Plugin → Rctx → ℕ → Rctx × Errno × Status
sky_plugin_add_to_cache [] r time = (r, error_no_plugin, error)
sky_plugin_add_to_cache (p ∷ plugins) r time =
    let (r', ret) = saved_by (add_to_cache p) r time in
    let rest = sky_plugin_add_to_cache plugins r' time in
    elim ret [ success ↦ (r', error_none, success) | error ↦ rest ]

-- The next backoff after a registration has failed.
unfoldable pub next_backoff : Errno → Errno
next_backoff error_none = auth_retry
next_backoff auth_retry = auth_retry_8h
next_backoff auth_retry_8h = auth_retry_16h
next_backoff _ = auth_retry_1d

abbrev set_backoff : Rctx → Errno → Rctx
set_backoff r code = set_session r (record (r.session) { backoff = code })

abbrev auth_failed : TbrState → Rctx → Rctx × Errno × Status
auth_failed tbr_disabled r = set_error_status r error_auth
auth_failed tbr_registered r = set_error_status (set_backoff r error_none) auth_retry
auth_failed tbr_unregistered r =
    let code = next_backoff r.session.backoff in set_error_status (set_backoff r code) code

-- The `switch` on the status. Whether the plugins have saved the location is only logged; `time` is
-- that of the location.
unfoldable pub conclude : LocStatus → Rctx → ℕ → Rctx × Errno × Status
conclude status_success r time =
    let r' = set_backoff r error_none in
    set_error_status (sky_plugin_add_to_cache r'.session.plugins r' time).0 error_none
conclude status_auth_error r time = auth_failed r.auth_state r
conclude status_bad_partner_id_error r time = set_error_status r error_auth
conclude status_decode_error r time = set_error_status r error_auth
conclude status_unable_to_locate r time = set_error_status r error_location_unknown
conclude _ r time = set_error_status r error_server_error

-- The time of the reply goes into the header of the session.
unfoldable pub stamp : Session → ℕ → Session
stamp s now =
    let h = record (s.header) { time = now % u32 } in
    record s { header = record h { crc32 = sky_crc32 (header_bytes h) } }

-- The counter is cleared by the reply to a cache miss.
abbrev pub clear_hits : Rctx → Rctx
clear_hits r = if r.hit then r else set_session r (record (r.session) { cache_hits = 0 })

-- What follows the decoding.
unfoldable pub handle_reply : (Rctx → Rctx) → Rctx → Option ServerReply → ℕ → Rctx × Errno × Status
handle_reply apply_used_info r none later = set_error_status r error_decode_error
handle_reply apply_used_info r (some reply) later =
    let (r', status) = deserialize_response apply_used_info r reply in
    conclude status (clear_hits r') later

module _ (apply_used_info : Rctx → Rctx) (decode : List ℕ → Option ServerReply) where
  -- `size` is the size of a session context.
  unfoldable pub sky_decode_response : ℕ → Rctx → List ℕ → ℕ → ℕ → Rctx × Errno × Status
  sky_decode_response size r response now later =
      let (good, r1) = validate_request_ctx r in
      if not good
      then set_error_status r1 error_bad_request_ctx
      else if length response == 0
      then set_error_status r1 error_bad_parameters
      else if not (validate_session_ctx size r1.session)
      then set_error_status r1 error_bad_session_ctx
      else handle_reply apply_used_info (set_session r1 (stamp r1.session now)) (decode response)
          later
