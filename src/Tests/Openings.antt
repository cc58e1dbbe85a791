-- ===== src/Tests/Openings.antt =====
-- Runs of `sky_open`, and the theorems about it at them.
use embedded_client.Beacons.Insert.{done}
use embedded_client.Session.Requests.{Starts}
use embedded_client.Session.Start.{sky_new_request}
use embedded_client.Session.Backoff.{sky_close}
use embedded_client.Config.Overrides.{config_defaults}
use embedded_client.Beacons.Insert.Order.{basic_plugins}
use embedded_client.Tests.Samples.{sample_time, sample_session}
use embedded_client.Plugins.Register.Basic.{Intact, plugins_from}
use embedded_client.Plugins.Register.{Tables, sky_register_plugins, sky_plugin_add, walk}
use embedded_client.Common.{some, [], refl, true, false, inl, none, ◌∷◌, replicate, ◌≡◌, arith, ◌+◌}
use embedded_client.Types.{error_bad_parameters, error_none, Session, sky_magic, Rctx}
use embedded_client.Session.Open.{
  OpenArgs, sky_open, new_session, refused, returned, crashed, check_saved, strnlen_,
  validate_device_id, zero_config,
}
use embedded_client.Session.Open.Again.{sky_open-sky_close, Resumed, Complete}
use embedded_client.Session.Open.First.{sky_open-sky_new_request}

abbrev tables : Tables
tables = λ a. record { magic = sky_magic; next = 5 }

abbrev customer : OpenArgs
customer = record {
  device_id = some (1 ∷ 2 ∷ 3 ∷ 4 ∷ []);
  id_len = 4;
  partner_id = 7;
  aes_key = some (replicate 16 9);
  sku = some (0x61 ∷ 0x62 ∷ []);
  cc = 1;
  min_level = 4;
  logf = false;
  gettime = some sample_time;
}

-- A buffer that holds a number in the place of the magic number 0, and no session.
abbrev cleared : Session
cleared = record sample_session { header = record { magic = 0; size = 0; time = 0; crc32 = 0 } }

abbrev opened : Session
opened = record (new_session 9000 sample_time) {
  open_flag = true;
  min_level = 4;
  plugins = basic_plugins;
  id_len = 4;
  device_id = 1 ∷ 2 ∷ 3 ∷ 4 ∷ replicate 12 0;
  sku = 0x61 ∷ 0x62 ∷ replicate 31 0;
  cc = 1;
  partner_id = 7;
  aes_key = replicate 16 9;
  config = config_defaults zero_config;
}

tables-Intact : Intact tables 1 2
tables-Intact = record {
  ap_given = omega arith;
  cell_given = omega arith;
  apart = omega arith;
  ap_magic = refl;
  cell_magic = refl;
}

customer-Complete : Complete customer
customer-Complete = (
  (λ (e : customer.gettime ≡ none). cc),
  (λ (e : customer.device_id ≡ none). cc),
  (λ (e : customer.aes_key ≡ none). cc),
  refl,
)

opened_anew : (sky_open 9000 2 1 2 customer tables (some cleared)).1 ≡ returned opened error_none
unfolding sky_open check_saved strnlen_ validate_device_id sky_register_plugins sky_plugin_add walk
    plugins_from
opened_anew = refl

-- A missing session is refused only with a logger.
missing_session : (sky_open 9000 2 1 2 customer tables none).1 ≡ crashed
unfolding sky_open
missing_session = refl

missing_session_logged :
    (sky_open 9000 2 1 2 (record customer { logf = true }) tables none).1
    ≡ refused error_bad_parameters
unfolding sky_open
missing_session_logged = refl

sky_open-sky_close_example :
    Resumed opened
      (sky_open 9000 2 1 2
        (record customer { gettime = some (sample_time + 60) })
        tables
        (some (sky_close opened).0)).1
sky_open-sky_close_example =
    sky_open-sky_close 9000 0 1 2 customer tables tables-Intact cleared opened (refl, refl, refl)
      opened_anew tables (sample_time + 60) tables-Intact customer-Complete

sky_open-sky_new_request_example :
    (s' : Session) × ((sky_open 9000 2 1 2 customer tables (some cleared)).1
      ≡ returned s' error_none)
    × (r : Rctx) × (sky_new_request 5000 5000 s' [] sample_time ≡ done (inl r))
    × Starts s' [] sample_time (done (inl r))
sky_open-sky_new_request_example =
    sky_open-sky_new_request 9000 0 1 2 customer tables cleared [] 5000 sample_time tables-Intact
      customer-Complete (refl, refl, refl) refl (omega arith)
