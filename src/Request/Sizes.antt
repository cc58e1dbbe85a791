-- ===== src/Request/Sizes.antt =====
-- libel/libel.c: the size that is announced to the application, and the buffer that is asked of it.
use embedded_client.Session.Backoff.{backoff_violation}
use embedded_client.Validate.Beacons.{validate_request_ctx}
use embedded_client.Types.{
  Rctx, error_none, success, Config, error_encode_error, error, num_beacons, has_gnss,
}
use embedded_client.Vaps.{select_vap}
use embedded_client.Request.{
  rq_size, populate, prepare, note_config_due, aes_padding_length, Sizer, config_due, aes_blocklen,
  config_update_due, with_hits, line_of, sky_sizeof_request_buf, serialize_request, total_length,
  Message, header_of, sky_encode_request, info, body,
}
use embedded_client.Common.{
  inr, inl, ◌==◌, ◌≤◌, ◌<◌, ◌%◌, ◌≡◌, Option-cases, ◌+◌, arith, true, some, ◌∙◌, ap, ℕ, pos, none,
  refl, negsuc, if◌then◌else◌, ℤ, ltb_ℤ, subst, Bool, pos_part, ltb, false, ◌⊎◌, dec_lt,
}

-- The body is padded to whole blocks, by less than a block.
pub rq_size-bounds :
    (pb : Sizer) (r : Rctx)
    → (rq_size pb r % aes_blocklen ≡ 0)
      × (pb.encoded_size (body r) ≤ rq_size pb r)
      × (rq_size pb r < pb.encoded_size (body r) + aes_blocklen)
unfolding rq_size aes_padding_length
rq_size-bounds pb r = (omega arith, omega arith, omega arith)

populate-config : (pb : Sizer) (r : Rctx) → (populate pb r).session ≡ r.session
unfolding populate
populate-config pb r = elim (Option-cases (line_of pb r)) [
  | inl e ↦ ground (arith, e)
  | inr (cl, e) ↦ ground (arith, e)
]

prepare-config : (pb : Sizer) (r : Rctx) → (prepare pb r).session.config ≡ r.session.config
unfolding prepare select_vap
prepare-config pb r =
    let hits = with_hits pb (r.session.cache_hits + 1) r in ground (arith, populate-config pb hits)

note_config_due-last :
    (pb : Sizer) (r : Rctx)
    → ((note_config_due pb r).session.config.last_config_time == config_update_due)
      ≡ config_due pb r
unfolding note_config_due config_due
note_config_due-last pb r = ground arith

due-same :
    (pb : Sizer) (r : Rctx)
    → ((prepare pb (note_config_due pb r)).session.config.last_config_time == config_update_due)
      ≡ config_due pb r
due-same pb r =
    ap (λ (c : Config). c.last_config_time == config_update_due)
      (prepare-config pb (note_config_due pb r))
    ∙ note_config_due-last pb r

positive_part : (rc : ℤ) → ltb_ℤ (pos 0) rc ≡ true → (rc ≡ pos (pos_part rc)) × (0 < pos_part rc)
positive_part (pos n) e = (refl, ground (arith, e))
positive_part (negsuc n) e = absurd (ground (arith, e))

-- What a success of `sky_sizeof_request_buf` says of the request and the size.
sizeof-success :
    (pb : Sizer) (r q : Rctx) (n sw_version : ℕ)
    → sky_sizeof_request_buf pb r sw_version true ≡ (q, some n, error_none, success)
    → let r1 = (validate_request_ctx r).1 in
      let rc = serialize_request pb q none sw_version (config_due pb r1) in
      (prepare pb (note_config_due pb r1) ≡ q) × (ltb_ℤ (pos 0) rc ≡ true) × (pos_part rc ≡ n)
unfolding sky_sizeof_request_buf
sizeof-success pb r q n sw_version e = ground (arith, e)

sizeof-total :
    (pb : Sizer) (r q : Rctx) (n sw_version : ℕ)
    → sky_sizeof_request_buf pb r sw_version true ≡ (q, some n, error_none, success)
    → let due = q.session.config.last_config_time == config_update_due in
      (total_length pb q sw_version due ≡ n) × (0 < n)
unfolding serialize_request
sizeof-total pb r q n sw_version e =
    let r1 = (validate_request_ctx r).1 in
    let (same, positive, size) = sizeof-success pb r q n sw_version e in
    let due : (q.session.config.last_config_time == config_update_due) ≡ config_due pb r1 =
      subst
        (λ (x : Rctx). (x.session.config.last_config_time == config_update_due) ≡ config_due pb r1)
        same (due-same pb r1) in
    (ap (total_length pb q sw_version) due ∙ size, ground (arith, positive, size))

serialize_request-some :
    (pb : Sizer) (r : Rctx) (buf_len sw_version : ℕ) (due : Bool)
    → ((m : Message) → pb.encode m ≡ some (pb.encoded_size m))
    → serialize_request pb r (some buf_len) sw_version due ≡ (
        if ltb buf_len (total_length pb r sw_version due)
        then negsuc 0
        else pos (total_length pb r sw_version due))
unfolding serialize_request total_length rq_size
serialize_request-some pb r buf_len sw_version due exact =
    ground (arith, exact (header_of pb r sw_version due), exact (info pb r), exact (body r))

encode-result :
    (pb : Sizer) (maximum_response_size : ℕ) (q : Rctx) (sw_version buf_len : ℕ)
    → validate_request_ctx q ≡ (true, q)
    → backoff_violation q.session q.header.time ≡ false
    → (0 < num_beacons q) ⊎ (has_gnss q.gnss ≡ true)
    → let due = q.session.config.last_config_time == config_update_due in
      let rc = serialize_request pb q (some buf_len) sw_version due in
      sky_encode_request pb maximum_response_size q sw_version (some buf_len) ≡ (
        if ltb_ℤ (pos 0) rc
        then (q, some maximum_response_size, error_none, success)
        else (q, none, error_encode_error, error))
unfolding sky_encode_request
encode-result pb maximum_response_size q sw_version buf_len valid in_time some_beacon =
    ground (arith, valid, in_time, some_beacon)

-- If nanopb writes what it announces: once `sky_sizeof_request_buf` has succeeded with a size, and if
-- the request it leaves is valid, in time and holds a beacon or a fix, then `sky_encode_request` of that request
-- succeeds in a buffer of at least that size, and fails with an encoding error in a smaller one.
pub sky_encode_request-fits :
    (pb : Sizer) (maximum_response_size : ℕ) (r q : Rctx) (n sw_version buf_len : ℕ)
    → ((m : Message) → pb.encode m ≡ some (pb.encoded_size m))
    → sky_sizeof_request_buf pb r sw_version true ≡ (q, some n, error_none, success)
    → validate_request_ctx q ≡ (true, q)
    → backoff_violation q.session q.header.time ≡ false
    → (0 < num_beacons q) ⊎ (has_gnss q.gnss ≡ true)
    → let encoded = sky_encode_request pb maximum_response_size q sw_version (some buf_len) in
      ((n ≤ buf_len) × (encoded ≡ (q, some maximum_response_size, error_none, success)))
      ⊎ ((buf_len < n) × (encoded ≡ (q, none, error_encode_error, error)))
sky_encode_request-fits pb maximum_response_size r q n sw_version buf_len exact sized valid in_time
      some_beacon =
    let due = q.session.config.last_config_time == config_update_due in
    let (total, positive) = sizeof-total pb r q n sw_version sized in
    let result =
      encode-result pb maximum_response_size q sw_version buf_len valid in_time some_beacon in
    let serialized = serialize_request-some pb q buf_len sw_version due exact in
    elim (dec_lt buf_len n) [
      | yes short ↦ inr (short, ground (arith, result, serialized, total, short))
      | no room ↦ inl (omega arith, ground (arith, result, serialized, total, room, positive))
    ]
