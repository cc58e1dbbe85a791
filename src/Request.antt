-- ===== src/Request.antt =====
-- libel/protocol/proto.c: the sizes of `serialize_request`; libel/libel.c: `sky_sizeof_request_buf`
-- and `sky_encode_request`. nanopb is a parameter; all sizes are far below 2^31.
pub mod Sizes
pub mod Kinds
use embedded_client.Session.Open.{strnlen_}
use embedded_client.Session.Start.{is_tbr_enabled}
use embedded_client.Session.Backoff.{backoff_violation}
use embedded_client.Validate.Beacons.{validate_request_ctx}
use embedded_client.Vaps.{select_vap}
use embedded_client.Beacons.Search.{is_cache_hit}
use embedded_client.Types.{
  error_bad_parameters, error_no_beacons, error_none, error_bad_request_ctx, error_service_denied,
  error_encode_error, success, error, Rctx, seconds_in_hour, CacheLine, time_unavailable, Errno,
  Status, num_beacons, has_gnss, max_sku_len, sky_max_dl_app_data,
}
use embedded_client.Common.{
  ℕ, true, none, false, some, negsuc, pos, ◌==◌, ◌&&◌, ◌||◌, ◌*◌, ◌%◌, ◌-◌, ◌++◌, ◌-ℤ◌,
  if◌then◌else◌, Option, Bool, ℤ, ◌+◌, drop, ltb, get_elem?, length, ltb_ℤ, not, pos_part, [], ◌^◌,
  List, take, to_i32,
}

-- The fields of the body that are set, but for the beacons, which the callbacks write: those that are
-- left alone are 0 or empty, and are not sent.
pub record Rq : Type 0 where
  pub device_id : List ℕ
  pub timestamp : ℕ
  pub cache_hits : ℕ
  pub token_id : ℤ  -- int32_t
  pub tbr_sku : List ℕ
  pub tbr_cc : ℕ
  pub max_dl_app_data : ℕ
  pub ul_app_data : List ℕ

-- The three messages of a request on the wire. A header has the partner, the lengths of the others,
-- the version and the wish for a configuration; crypto_info has the padding beside its random bytes.
pub data Message : Type 0 where
  rq_header : ℤ → ℕ → ℕ → ℕ → Bool → Message
  crypto_info : ℕ → Message
  rq : Rq → Rctx → Message

unfoldable pub get_ctx_partner_id : Rctx → ℕ
get_ctx_partner_id r = r.session.partner_id

unfoldable pub get_ctx_id_length : Rctx → ℕ
get_ctx_id_length r = r.session.id_len

unfoldable pub get_ctx_device_id : Rctx → List ℕ
get_ctx_device_id r = r.session.device_id

unfoldable pub get_ctx_sku : Rctx → List ℕ
get_ctx_sku r = r.session.sku

unfoldable pub get_ctx_cc : Rctx → ℕ
get_ctx_cc r = r.session.cc

unfoldable pub get_ctx_ul_app_data : Rctx → List ℕ
get_ctx_ul_app_data r = r.session.ul_app_data

-- What every request has.
abbrev common_rq : Rctx → Rq
common_rq r = record {
  device_id = [];
  timestamp = r.header.time;
  cache_hits = r.session.cache_hits;
  token_id = pos 0;
  tbr_sku = [];
  tbr_cc = 0;
  max_dl_app_data = 0;
  ul_app_data = [];
}

-- The array copied by its length.
abbrev sent_device_id : Rctx → List ℕ
sent_device_id r = take (get_ctx_id_length r) (get_ctx_device_id r)

-- A registration, a location request of a registered device, or a request of a device that does not
-- register.
unfoldable pub fill_rq : Rctx → Rq
fill_rq r =
    if is_tbr_enabled r.session
    then (if r.session.token_id == 0
        then record (common_rq r) {
          device_id = sent_device_id r;
          tbr_sku = take (strnlen_ (get_ctx_sku r) max_sku_len) (get_ctx_sku r);
          tbr_cc = get_ctx_cc r;
        }
        else record (common_rq r) {
          token_id = to_i32 r.session.token_id;
          max_dl_app_data = sky_max_dl_app_data;
          ul_app_data = get_ctx_ul_app_data r;
          device_id = sent_device_id r;
        })
    else record (common_rq r) { ul_app_data = get_ctx_ul_app_data r; device_id = sent_device_id r }

-- `pb_get_encoded_size`, and the bytes that `pb_encode` writes; `none` is a failure.
pub record Sizer : Type 0 where
  pub encoded_size : Message → ℕ
  pub encode : Message → Option ℕ

abbrev pub aes_blocklen : ℕ
aes_blocklen = 16

unfoldable pub aes_padding_length : ℕ → ℕ
aes_padding_length rq_size = (aes_blocklen - rq_size % aes_blocklen) % aes_blocklen

abbrev pub config_update_due : ℕ
config_update_due = 0

abbrev pub config_request_interval : ℕ
config_request_interval = 24 * seconds_in_hour

abbrev written : Option ℕ → Option ℕ → Option ℕ → ℕ → ℤ
written (some hdr) (some crypto) (some body) padding = pos (1 + hdr + crypto + body + padding)
written _ _ _ padding = negsuc 0

abbrev is_null : Option ℕ → Bool
is_null none = true
is_null (some n) = false

abbrev pub body : Rctx → Message
body r = rq (fill_rq r) r

module _ (pb : Sizer) where
  -- The padded length of the body.
  unfoldable pub rq_size : Rctx → ℕ
  rq_size r = pb.encoded_size (body r) + aes_padding_length (pb.encoded_size (body r))

  abbrev pub info : Rctx → Message
  info r = crypto_info (aes_padding_length (pb.encoded_size (body r)))

  abbrev pub header_of : Rctx → ℕ → Bool → Message
  header_of r sw_version request_config =
      rq_header (to_i32 (get_ctx_partner_id r)) (pb.encoded_size (info r)) (rq_size r) sw_version
        request_config

  unfoldable pub total_length : Rctx → ℕ → Bool → ℕ
  total_length r sw_version request_config =
      1
      + pb.encoded_size (header_of r sw_version request_config)
      + pb.encoded_size (info r)
      + rq_size r

  -- The buffer is given by its length; `none` is NULL.
  unfoldable pub serialize_request : Rctx → Option ℕ → ℕ → Bool → ℤ
  serialize_request r buf sw_version request_config = elim buf [
    | none ↦ pos (total_length r sw_version request_config)
    | some buf_len ↦
        if ltb buf_len (total_length r sw_version request_config)
        then negsuc 0
        else written (pb.encode (header_of r sw_version request_config)) (pb.encode (info r))
            (pb.encode (body r)) (aes_padding_length (pb.encoded_size (body r)))
  ]

  unfoldable pub config_due : Rctx → Bool
  unfolding ◌-ℤ◌
  config_due r =
      (r.session.config.last_config_time == config_update_due)
      || (r.header.time == time_unavailable)
      || ltb_ℤ (pos config_request_interval)
          (pos r.header.time -ℤ pos r.session.config.last_config_time)

  unfoldable pub note_config_due : Rctx → Rctx
  note_config_due r =
      if config_due r
      then record r {
        session = record (r.session) {
          config = record (r.session.config) { last_config_time = config_update_due };
        };
      }
      else r

  -- The cacheline that `get_from` names.
  abbrev pub line_of : Rctx → Option CacheLine
  line_of r = elim r.get_from [ pos i ↦ get_elem? r.session.cacheline i | negsuc i ↦ none ]

  -- The beacons and the fix of the cacheline take the place of those of the request.
  unfoldable pub populate : Rctx → Rctx
  populate r = elim (line_of r) [
    | none ↦ r
    | some cl ↦ record r {
      num_ap = cl.num_ap;
      beacon = cl.beacon;
      spare = drop (length cl.beacon) (r.beacon ++ r.spare);
      gnss = cl.gnss;
    }
  ]

  abbrev with_hits : ℕ → Rctx → Rctx
  with_hits n r = record r { session = record (r.session) { cache_hits = n } }

  unfoldable pub prepare : Rctx → Rctx
  prepare r =
      if is_cache_hit r
      then (if ltb r.session.cache_hits 127
          then populate (with_hits (r.session.cache_hits + 1) r)
          else record (with_hits 0 r) { get_from = negsuc 0 })
      else select_vap r

  -- The outcome: the request, what the size is set to, the code and the status.
  unfoldable pub sky_sizeof_request_buf : Rctx → ℕ → Bool → Rctx × Option ℕ × Errno × Status
  sky_sizeof_request_buf r sw_version size_given =
      let (ok, r1) = validate_request_ctx r in
      let r2 = prepare (note_config_due r1) in
      let rc = serialize_request r2 none sw_version (config_due r1) in
      if not ok
      then (r1, none, error_bad_request_ctx, error)
      else if not size_given
      then (r1, none, error_bad_parameters, error)
      else if ltb_ℤ (pos 0) rc
      then (r2, some (pos_part rc), error_none, success)
      else (r2, none, error_encode_error, error)

  -- The outcome: the request, what the response size is set to, the code and the status.
  unfoldable pub sky_encode_request : ℕ → Rctx → ℕ → Option ℕ → Rctx × Option ℕ × Errno × Status
  sky_encode_request maximum_response_size r sw_version buf =
      let (ok, r1) = validate_request_ctx r in
      let due = r1.session.config.last_config_time == config_update_due in
      let rc = serialize_request r1 buf sw_version due in
      if not ok
      then (r1, none, error_bad_request_ctx, error)
      else if backoff_violation r1.session r1.header.time
      then (r1, none, error_service_denied, error)
      else if (num_beacons r1 == 0) && not (has_gnss r1.gnss)
      then (r1, none, error_no_beacons, error)
      else if is_null buf
      then (r1, none, error_bad_parameters, error)
      else if ltb_ℤ (pos 0) rc
      then (r1, some maximum_response_size, error_none, success)
      else (r1, none, error_encode_error, error)
