-- ===== src/Tests/Sessions.antt =====
-- The theorems on sessions, replies and options, at samples.
use embedded_client.Session.Used.Reads.{mark_by, mark_by-MarksBeacons}
use embedded_client.Session.Saves.{SavedIn, answered, handle_reply-SavedIn}
use embedded_client.Config.Unlimited.{filter_beacons-Inverted}
use embedded_client.Config.Ranges.{Allowed, apply_config_overrides-Allowed}
use embedded_client.Session.Start.{sky_new_request}
use embedded_client.Tests.Samples.{
  sample_session, small_request, sample_time, sample_config, sample_request, sample_lte,
}
use embedded_client.Beacons.Add.{filter_beacons}
use embedded_client.Config.Overrides.{ClientConfig, apply_config_overrides}
use embedded_client.Config.RoundTrip.{Sets, sky_set_option-Sets}
use embedded_client.Session.Reply.{ServerReply, handle_reply, sky_decode_response, to_cache}
use embedded_client.Session.Requests.{Starts, sky_new_request-Starts}
use embedded_client.Session.Pauses.{handle_all, handle_all-rungs}
use embedded_client.Config.Options.{conf_total_beacons, conf_max_ap_beacons, sky_set_option}
use embedded_client.Types.{
  success, auth_retry, error_none, tbr_unregistered, status_auth_error, auth_retry_8h, Rctx,
  Session, status_success, tbr_registered, auth_retry_1d, auth_retry_16h,
}
use embedded_client.Beacons.Insert.{done}
use embedded_client.Session.Escalation.{
  MarksBeacons, Answered, accepted, sky_decode_response-AuthMove,
}
use embedded_client.Common.{
  ℕ, none, some, inr, refl, [], pos, ◌∷◌, List, Option, ◌≡◌, ◌+◌, replicate, arith,
}

sky_new_request-Starts_example :
    Starts sample_session
      (1 ∷ [])
      (sample_time + 60)
      (sky_new_request 5000 5000 sample_session (1 ∷ []) (sample_time + 60))
sky_new_request-Starts_example =
    sky_new_request-Starts 5000 5000 sample_session (1 ∷ []) (sample_time + 60) refl
      (omega arith, omega arith)

-- A reply that hands out a token.
abbrev token_reply : ServerReply
token_reply = record {
  status = status_auth_error;
  body = some (
    record {
      total_beacons = 0;
      max_ap_beacons = 15;
      cache_match_all_threshold = 0;
      cache_match_used_threshold = 0;
      cache_age_threshold = 0;
      cache_beacon_threshold = 0;
      cache_neg_rssi_threshold = 0;
    },
    77,
  );
}

abbrev refusal : ServerReply
refusal = record { status = status_auth_error; body = none }

abbrev mark_none : Rctx → Rctx
mark_none r = r

-- The second AP has been used.
abbrev mark_two : Rctx → Rctx
mark_two = mark_by (2 ∷ [])

mark_two-MarksBeacons : MarksBeacons mark_two
mark_two-MarksBeacons = mark_by-MarksBeacons (2 ∷ [])

abbrev read_token : List ℕ → Option ServerReply
read_token [] = none
read_token (b ∷ bs) = some token_reply

sky_decode_response-AuthMove_example :
    Answered
      (accepted 9000 small_request (7 ∷ []))
      (read_token (7 ∷ []))
      (tbr_unregistered, error_none)
      (sky_decode_response mark_two read_token 9000 small_request
        (7 ∷ [])
        (sample_time + 1)
        (sample_time + 2))
sky_decode_response-AuthMove_example =
    sky_decode_response-AuthMove mark_two mark_two-MarksBeacons read_token 9000 small_request
      (7 ∷ []) (sample_time + 1) (sample_time + 2)

abbrev refusals : List (ServerReply × ℕ)
refusals =
    (refusal, sample_time)
    ∷ (refusal, sample_time + 1)
    ∷ (refusal, sample_time + 2)
    ∷ (refusal, sample_time + 3)
    ∷ (refusal, sample_time + 4)
    ∷ []

handle_all-rungs_example :
    let (q, codes) = handle_all mark_none small_request refusals in
    (codes ≡ auth_retry ∷ auth_retry_8h ∷ auth_retry_16h ∷ auth_retry_1d ∷ auth_retry_1d ∷ [])
    × (q.auth_state ≡ tbr_unregistered)
    × (q.session.backoff ≡ auth_retry_1d)
handle_all-rungs_example =
    handle_all-rungs mark_none 0 small_request refusals refl refl
      (refl, (refl, (refl, (refl, (refl, tt)))))

-- A session that has to wait for 8 hours.
abbrev waiting_session : Session
waiting_session = record sample_session { backoff = auth_retry_8h }

sky_set_option-Sets_example :
    Sets sample_session conf_total_beacons conf_max_ap_beacons
      (pos 10)
      (sky_set_option sample_session conf_total_beacons (pos 10))
sky_set_option-Sets_example =
    sky_set_option-Sets sample_session conf_total_beacons conf_max_ap_beacons (pos 10)

abbrev overrides : ClientConfig
overrides = record {
  total_beacons = 12;
  max_ap_beacons = 5;
  cache_match_all_threshold = 60;
  cache_match_used_threshold = 0;
  cache_age_threshold = 9001;
  cache_beacon_threshold = 4;
  cache_neg_rssi_threshold = 80;
}

apply_config_overrides-Allowed_example :
    let q = (apply_config_overrides sample_config overrides).0 in
    Allowed q × ((apply_config_overrides q overrides).0 ≡ q)
apply_config_overrides-Allowed_example =
    apply_config_overrides-Allowed sample_config overrides (inr (ground arith))

-- What is left of the limit when `total_beacons` is lowered and `max_ap_beacons` is not.
abbrev inverted_request : Rctx
inverted_request =
    sample_request
      (record sample_session { config = record (sample_config) { total_beacons = 10 } }) 0
      (replicate 25 sample_lte)

filter_beacons-Inverted_example :
    filter_beacons 24 (done (inverted_request, error_none, success))
    ≡ done (inverted_request, error_none, success)
filter_beacons-Inverted_example =
    filter_beacons-Inverted 24 inverted_request error_none (omega arith, omega arith) (omega arith)

abbrev found_reply : ServerReply
found_reply = record { status = status_success; body = none }

abbrev registered_request : Rctx
registered_request = record (small_request) { auth_state = tbr_registered }

handle_reply-SavedIn_example :
    let x = handle_reply mark_two registered_request (some found_reply) sample_time in
    (x.1 ≡ error_none)
    × (x.2 ≡ success)
    × SavedIn (answered mark_two registered_request found_reply) sample_time x.0
unfolding embedded_client.Session.Used.apply_used_info_to_ap embedded_client.Session.Used.mark_aps
    embedded_client.Session.Used.get_used_ap embedded_client.Session.Used.mark_rounds
    embedded_client.Session.Used.mark_children embedded_client.Session.Reply.receive_config
handle_reply-SavedIn_example =
    handle_reply-SavedIn mark_two registered_request found_reply sample_time (ground arith) refl
      refl (omega arith) (omega arith)
