-- ===== src/Types/Context.antt =====
-- libel/beacons.h: the session and the request context. Of the request's array of
-- TOTAL_BEACONS + 1 beacons, `beacon` holds the first `num_beacons` slots and `spare` the others.
use embedded_client.Float.{nan, fin, Float}
use embedded_client.Common.{ℕ, ℤ, Bool, List, length, true, pos, false}
use embedded_client.Types.Codes.{Errno, TbrState}
use embedded_client.Types.Beacons.{Beacon}

-- The plugin tables that plugins/register.c registers, by the pointer to each.
pub data Plugin : Type 0 where
  ap_plugin_basic cell_plugin_basic : Plugin

pub record Header : Type 0 where
  pub magic : ℕ  -- uint32_t
  pub size : ℕ  -- uint32_t
  pub time : ℕ  -- uint32_t
  pub crc32 : ℕ  -- uint32_t

-- `Sky_config_t`; every field but the time is a `uint32_t`.
pub record Config : Type 0 where
  pub last_config_time : ℕ
  pub total_beacons : ℕ
  pub max_ap_beacons : ℕ
  pub cache_match_threshold : ℕ
  pub cache_age_threshold : ℕ
  pub cache_beacon_threshold : ℕ
  pub cache_neg_rssi_threshold : ℕ
  pub cache_match_all_threshold : ℕ
  pub cache_match_used_threshold : ℕ
  pub max_vap_per_ap : ℕ
  pub max_vap_per_rq : ℕ

-- A GNSS fix; there is none where the latitude is a NaN.
pub record Gnss : Type 0 where
  pub lat : Float
  pub lon : Float
  pub hpe : ℕ  -- uint32_t
  pub alt : Float
  pub vpe : ℕ  -- uint32_t
  pub speed : Float
  pub bearing : Float
  pub nsat : ℕ  -- uint32_t
  pub age : ℕ  -- uint32_t

-- `has_gnss`
abbrev pub has_gnss : Gnss → Bool
has_gnss g = elim g.lat [ nan ↦ false | fin _ ↦ true ]

-- Zeroed, with the latitude that marks it as empty.
abbrev pub no_fix : Gnss
no_fix = record {
  lat = nan;
  lon = fin (pos 0);
  hpe = 0;
  alt = fin (pos 0);
  vpe = 0;
  speed = fin (pos 0);
  bearing = fin (pos 0);
  nsat = 0;
  age = 0;
}

-- A cacheline without its location. Of its array of TOTAL_BEACONS beacons, `beacon`
-- holds the first `num_beacons` slots and `spare` the others.
pub record CacheLine : Type 0 where
  pub num_ap : ℕ
  pub time : ℕ
  pub beacon : List Beacon
  pub spare : List Beacon
  pub gnss : Gnss

pub record Session : Type 0 where
  pub header : Header
  pub open_flag : Bool
  pub min_level : ℕ
  pub plugins : List Plugin
  pub id_len : ℕ  -- uint32_t
  pub device_id : List ℕ  -- uint8_t[MAX_DEVICE_ID]
  pub token_id : ℕ  -- uint32_t
  pub ul_app_data : List ℕ  -- its first ul_app_data_len bytes
  pub sku : List ℕ  -- char[MAX_SKU_LEN + 1]
  pub cc : ℕ  -- uint16_t
  pub backoff : Errno
  pub partner_id : ℕ  -- uint32_t
  pub aes_key : List ℕ  -- uint8_t[AES_KEYLEN]
  pub cacheline : List CacheLine
  pub config : Config
  pub cache_hits : ℕ

-- The session that the request points to is a field: the library reaches it by no other way.
pub record Rctx : Type 0 where
  pub header : Header
  pub num_ap : ℕ  -- uint16_t
  pub beacon : List Beacon
  pub spare : List Beacon
  pub gnss : Gnss
  pub hit : Bool
  pub get_from : ℤ
  pub save_to : ℤ
  pub session : Session
  pub auth_state : TbrState

-- `NUM_BEACONS`, `NUM_APS`, and `NUM_CELLS` with its cast to `uint16_t`
abbrev pub num_beacons : Rctx → ℕ
num_beacons r = length r.beacon

abbrev pub num_aps : Rctx → ℕ
num_aps r = r.num_ap
