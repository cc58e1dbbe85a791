-- ===== src/Tests/Encoding.antt =====
-- The encoding of a request.
use embedded_client.Session.Start.{auth_state_of}
use embedded_client.Request.Kinds.{kind_of, Carries, fill_rq-Carries}
use embedded_client.Session.Requests.{request_header-valid}
use embedded_client.Validate.{validate_beacon, lte_bad}
use embedded_client.Vaps.{select_vap, kept, rounds, pass, complete}
use embedded_client.Session.Backoff.{backoff_violation}
use embedded_client.Validate.Beacons.{validate_request_ctx, validate_slots}
use embedded_client.Request.Sizes.{sky_encode_request-fits}
use embedded_client.Encode.ApTrip.{ReceivedAps, encode_ap_fields-ReceivedAps}
use embedded_client.Encode.CellTrip.{Received, encode_cell_field-Received}
use embedded_client.Types.{
  Rctx, error_none, success, error, error_encode_error, num_beacons, has_gnss,
}
use embedded_client.Request.{
  Sizer, rq_size, prepare, note_config_due, sky_sizeof_request_buf, config_due, sky_encode_request,
  serialize_request, total_length, aes_padding_length, fill_rq,
}
use embedded_client.Tests.Samples.{
  sample_mac, small_request, sample_lte, sample_time, sample_session,
}
use embedded_client.Fields.{
  get_ap_mac, get_ap_freq, get_ap_rssi, get_ap_age, get_ap_is_connected, get_num_aps,
}
use embedded_client.Encode.Lengths.{CountsBytes, Announced, encode_submessage-Announced}
use embedded_client.Encode.Writes.{tag, varint, Write, write, run, text}
use embedded_client.Encode.{
  wt_varint, wt_string, Nanopb, encode_ap_fields, encode_submessage, encode_cell_field,
  encode_connected_ap_field, encode_first_connected, encode_repeated_int_field, encode_ints,
  encode_optimized_repeated_field, all_same, delimited, mac_to_int, int_of_bytes, flip_sign,
}
use embedded_client.Common.{
  some, [], true, pos, refl, ◌∷◌, ◌≤◌, ◌<◌, ◌++◌, List, length, ℕ, ◌≡◌, ◌+◌, arith, ◌+ℤ◌, ◌-ℤ◌,
  none, false, ◌⊎◌, inl, take, replicate,
}

-- Streams that keep the writes, each of one byte.
abbrev pub logging : Nanopb
logging = record {
  Stream = List Write;
  sizing = [];
  bytes_written = length;
  encode_tag = λ s wire t. (s ++ (tag wire t ∷ []), true);
  encode_varint = λ s z. (s ++ (varint z ∷ []), true);
  encode_string = λ s bytes. (s ++ (text bytes ∷ []), true);
}

length-add : (s : List Write) (w : Write) → length (s ++ (w ∷ [])) ≡ length s + 1
length-add [] w = refl
length-add (x ∷ s) w = omega (arith, length-add s w)

logging_adds :
    (w : Write) (s : List Write)
    → (write logging w s).1 ≡ true
    → length (write logging w s).0 ≡ length s + 1
logging_adds (tag wire t) s ok = length-add s (tag wire t)
logging_adds (varint z) s ok = length-add s (varint z)
logging_adds (text bytes) s ok = length-add s (text bytes)

logging_takes : (w : Write) (s : List Write) → Unit {0} → (write logging w s).1 ≡ true
logging_takes (tag wire t) s is = refl
logging_takes (varint z) s is = refl
logging_takes (text bytes) s is = refl

pub logging_counts : CountsBytes logging
logging_counts = record {
  width = λ w. 1;
  adds = logging_adds;
  IsSizing = λ s. Unit {0};
  sizing_starts = refl;
  sizing_is = tt;
  sizing_takes = logging_takes;
  sizing_stays = λ w s is. tt;
}

encode_cell_field-Received_example :
    (ws : List Write) × (encode_cell_field logging sample_lte [] ≡ run logging ws [])
    × Received sample_lte ws
encode_cell_field-Received_example = encode_cell_field-Received logging sample_lte []

encode_ap_fields-ReceivedAps_example :
    (ws : List Write) × (encode_ap_fields logging small_request [] ≡ run logging ws [])
    × ReceivedAps logging logging_counts small_request ws
encode_ap_fields-ReceivedAps_example =
    encode_ap_fields-ReceivedAps logging logging_counts small_request []

-- Both APs have the same frequency and age, which are sent once.
small_log :
    (encode_ap_fields logging small_request []).0
    ≡ tag wt_string 4
      ∷ varint (pos 2)
      ∷ varint (pos 0x041122334410)
      ∷ varint (pos 0x041122334480)
      ∷ tag wt_varint 2
      ∷ varint (pos 3661)
      ∷ tag wt_string 6
      ∷ varint (pos 2)
      ∷ varint (pos 60)
      ∷ varint (pos 70)
      ∷ tag wt_varint 3
      ∷ varint (pos 1)
      ∷ []
unfolding encode_ap_fields encode_connected_ap_field encode_first_connected
    encode_repeated_int_field encode_ints encode_optimized_repeated_field all_same delimited
    mac_to_int int_of_bytes flip_sign get_ap_mac get_ap_freq get_ap_rssi get_ap_age
    get_ap_is_connected get_num_aps ◌+ℤ◌ ◌-ℤ◌
small_log = refl

small_message : (encode_submessage logging [] 3 (encode_ap_fields logging small_request)).1 ≡ true
unfolding encode_submessage encode_ap_fields encode_connected_ap_field encode_first_connected
    encode_repeated_int_field encode_ints encode_optimized_repeated_field all_same delimited
    mac_to_int int_of_bytes flip_sign get_ap_mac get_ap_freq get_ap_rssi get_ap_age
    get_ap_is_connected get_num_aps ◌+ℤ◌ ◌-ℤ◌
small_message = refl

encode_submessage-Announced_example :
    Announced logging logging_counts 3
      (encode_ap_fields logging small_request)
      []
      (encode_submessage logging [] 3 (encode_ap_fields logging small_request))
encode_submessage-Announced_example =
    encode_submessage-Announced logging logging_counts small_request [] small_message

small_mac : (i : ℕ) → i ≡ 1 → get_ap_mac small_request i ≡ some (some (sample_mac 0x80))
unfolding get_ap_mac
small_mac i e = rw e refl

-- Every message takes ten bytes.
abbrev ten_bytes : Sizer
ten_bytes = record { encoded_size = λ m. 10; encode = λ m. some 10 }

-- The request whose size has been asked for.
abbrev sized_request : Rctx
sized_request = prepare ten_bytes (note_config_due ten_bytes small_request)

small_valid : validate_request_ctx small_request ≡ (true, small_request)
unfolding validate_request_ctx validate_slots validate_beacon lte_bad
small_valid = rw (request_header-valid 5000 sample_time) refl

small_size :
    sky_sizeof_request_buf ten_bytes small_request 1 true
    ≡ (sized_request, some 37, error_none, success)
unfolding sky_sizeof_request_buf serialize_request total_length rq_size aes_padding_length
small_size = ground (arith, small_valid)

sized_valid : validate_request_ctx sized_request ≡ (true, sized_request)
unfolding validate_request_ctx validate_slots validate_beacon lte_bad prepare note_config_due
    config_due select_vap kept rounds pass complete
sized_valid = rw (request_header-valid 5000 sample_time) refl

sized_in_time : backoff_violation sized_request.session sized_request.header.time ≡ false
unfolding backoff_violation prepare note_config_due config_due select_vap
sized_in_time = refl

sized_some : (0 < num_beacons sized_request) ⊎ (has_gnss sized_request.gnss ≡ true)
unfolding prepare note_config_due config_due select_vap kept rounds pass complete
sized_some = inl (omega arith)

sky_encode_request-fits_example :
    let encoded = sky_encode_request ten_bytes 150 sized_request 1 (some 64) in
    ((37 ≤ 64) × (encoded ≡ (sized_request, some 150, error_none, success)))
    ⊎ ((64 < 37) × (encoded ≡ (sized_request, none, error_encode_error, error)))
sky_encode_request-fits_example =
    sky_encode_request-fits ten_bytes 150 small_request sized_request 37 1 64 (λ m. refl) small_size
      sized_valid sized_in_time sized_some

fill_rq-Carries_example :
    (kind_of (fill_rq small_request) ≡ auth_state_of sample_session)
    × Carries (auth_state_of sample_session) sample_session (fill_rq small_request)
    × ((fill_rq small_request).device_id ≡ take 4 (1 ∷ 2 ∷ 3 ∷ 4 ∷ replicate 12 0))
fill_rq-Carries_example = fill_rq-Carries small_request (omega arith)
