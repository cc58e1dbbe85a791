-- ===== src/Tests/Samples.antt =====
-- Sample sessions, requests and beacons.
use embedded_client.Beacons.Insert.Order.{basic_plugins}
use embedded_client.Session.Start.{request_header}
use embedded_client.Types.{
  error_none, beacon_ap, beacon_lte, tbr_unregistered, Config, Session, Beacon, Rctx, zero_beacon,
  beacon_magic, empty_slot, total_beacons_max, no_fix,
}
use embedded_client.Common.{
  ℕ, false, [], pos, negsuc, true, ◌∷◌, List, ℤ, neg, replicate, ◌+◌, ◌-◌, length,
}

abbrev pub sample_time : ℕ
sample_time = 1700000000

abbrev pub sample_config : Config
sample_config = record {
  last_config_time = 0;
  total_beacons = 28;
  max_ap_beacons = 20;
  cache_match_threshold = 0;
  cache_age_threshold = 24;
  cache_beacon_threshold = 5;
  cache_neg_rssi_threshold = 90;
  cache_match_all_threshold = 50;
  cache_match_used_threshold = 50;
  max_vap_per_ap = 4;
  max_vap_per_rq = 12;
}

-- A session that registers, with no token yet.
abbrev pub sample_session : Session
sample_session = record {
  header = request_header 9000 sample_time;
  open_flag = true;
  min_level = 4;
  plugins = basic_plugins;
  id_len = 4;
  device_id = 1 ∷ 2 ∷ 3 ∷ 4 ∷ replicate 12 0;
  token_id = 0;
  ul_app_data = [];
  sku = 0x61 ∷ 0x62 ∷ replicate 31 0;
  cc = 0;
  backoff = error_none;
  partner_id = 7;
  aes_key = replicate 16 9;
  cacheline =
      record { num_ap = 0; time = 0; beacon = []; spare = replicate 28 empty_slot; gnss = no_fix }
      ∷ [];
  config = sample_config;
  cache_hits = 0;
}

-- A request of a session with `aps` APs in front of the beacons given.
abbrev pub sample_request : Session → ℕ → List Beacon → Rctx
sample_request s aps bs = record {
  header = request_header 5000 sample_time;
  num_ap = aps;
  beacon = bs;
  spare = replicate (total_beacons_max + 1 - length bs) empty_slot;
  gnss = no_fix;
  hit = false;
  get_from = negsuc 0;
  save_to = negsuc 0;
  session = s;
  auth_state = tbr_unregistered;
}

abbrev pub sample_mac : ℕ → List ℕ
sample_mac n = 0x04 ∷ 0x11 ∷ 0x22 ∷ 0x33 ∷ 0x44 ∷ n ∷ []

abbrev pub sample_ap : ℕ → ℤ → Beacon
sample_ap n rssi = record (zero_beacon beacon_ap) {
  magic = beacon_magic;
  rssi = rssi;
  ap = record ((zero_beacon beacon_ap).ap) { mac = sample_mac n; ap_freq = 3660 };
}

abbrev pub sample_lte : Beacon
sample_lte = record (zero_beacon beacon_lte) {
  magic = beacon_magic;
  rssi = neg 80;
  connected = true;
  cell = record {
    id1 = 310;
    id2 = 470;
    id3 = pos 25187;
    id4 = pos 25664526;
    id5 = pos 387;
    freq = pos 1000;
    ta = pos 0;
  };
}

abbrev pub empty_request : Rctx
empty_request = sample_request sample_session 0 []

-- Two APs and a cell.
abbrev pub small_request : Rctx
small_request =
    sample_request sample_session 2
      (sample_ap 0x10 (neg 60) ∷ sample_ap 0x80 (neg 70) ∷ sample_lte ∷ [])

-- A session that allows one AP.
abbrev pub narrow_session : Session
narrow_session = record sample_session {
  config = record (sample_config) { total_beacons = 6; max_ap_beacons = 1 };
}

-- One AP too many.
abbrev pub full_request : Rctx
full_request =
    sample_request narrow_session 2
      (sample_ap 0x10 (neg 60) ∷ sample_ap 0x80 (neg 70) ∷ sample_lte ∷ [])
