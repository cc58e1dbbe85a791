-- ===== src/Types/Beacons.antt =====
-- libel/beacons.h: beacons. A C union is read here as a record of its members: each read of
-- `ap` or `cell` in the source is guarded by the type tag, and a beacon never changes its tag.
use embedded_client.Common.{
  ℕ, ℤ, pos, negsuc, Bool, true, false, List, [], ◌∷◌, ◌&&◌, ◌==◌, eqb_ℤ, if◌then◌else◌,
}
use embedded_client.Float.{Float, fin}
use embedded_client.Types.Codes.{unknown_id2, beacon_magic}

-- `beacon_max` marks an empty slot of an array of beacons.
pub data BeaconType : Type 0 where
  beacon_ap beacon_ble beacon_nr beacon_lte beacon_umts : BeaconType
  beacon_nbiot beacon_cdma beacon_gsm beacon_max : BeaconType

-- The enumeration's values, in compare order.
abbrev pub type_code : BeaconType → ℕ
type_code beacon_ap = 1
type_code beacon_ble = 2
type_code beacon_nr = 3
type_code beacon_lte = 4
type_code beacon_umts = 5
type_code beacon_nbiot = 6
type_code beacon_cdma = 7
type_code beacon_gsm = 8
type_code beacon_max = 9

-- `vg_len` is the number of children of a virtual group, `vap_length` and `vap_parent` are the bytes
-- `vg[VAP_LENGTH].len` and `vg[VAP_PARENT].ap`, and `vg_patches` those that follow; `vg_used` is the array of MAX_VAP_PER_AP marks `vg_prop`.
pub record Ap : Type 0 where
  pub mac : List ℕ  -- uint8_t[6]
  pub ap_freq : ℕ  -- uint32_t
  pub used : Bool
  pub vg_len : ℕ  -- uint8_t
  pub vap_length : ℕ  -- uint8_t
  pub vap_parent : ℕ  -- uint8_t
  pub vg_patches : List ℕ  -- uint8_t[MAX_VAP_PER_AP]
  pub vg_used : List Bool

pub record Cell : Type 0 where
  pub id1 : ℕ  -- uint16_t
  pub id2 : ℕ  -- uint16_t
  pub id3 : ℤ  -- int32_t
  pub id4 : ℤ  -- int64_t
  pub id5 : ℤ  -- int16_t
  pub freq : ℤ  -- int32_t
  pub ta : ℤ  -- int32_t

pub record Beacon : Type 0 where
  pub magic : ℕ  -- uint16_t
  pub type : BeaconType
  pub age : ℕ  -- uint32_t
  pub rssi : ℤ  -- int16_t
  pub priority : Float
  pub connected : Bool
  pub ap : Ap
  pub cell : Cell

abbrev pub is_ap : BeaconType → Bool
is_ap beacon_ap = true
is_ap _ = false

abbrev pub is_cell : BeaconType → Bool
is_cell beacon_ap = false
is_cell beacon_ble = false
is_cell beacon_max = false
is_cell _ = true

abbrev pub is_ap_type : Beacon → Bool
is_ap_type b = is_ap b.type

abbrev pub is_cell_type : Beacon → Bool
is_cell_type b = is_cell b.type

abbrev pub is_cell_nmr : Beacon → Bool
is_cell_nmr b = is_cell_type b && (b.cell.id2 == unknown_id2)

-- `EFFECTIVE_RSSI`
abbrev pub effective_rssi : ℤ → ℤ
effective_rssi rssi = if eqb_ℤ rssi (negsuc 0) then negsuc 126 else rssi

-- `memset(&b, 0, sizeof(b))`, with the tag that the caller sets at once.
abbrev pub zero_beacon : BeaconType → Beacon
zero_beacon t = record {
  magic = 0;
  type = t;
  age = 0;
  rssi = pos 0;
  priority = fin (pos 0);
  connected = false;
  ap = record {
    mac = 0 ∷ 0 ∷ 0 ∷ 0 ∷ 0 ∷ 0 ∷ [];
    ap_freq = 0;
    used = false;
    vg_len = 0;
    vap_length = 0;
    vap_parent = 0;
    vg_patches = 0 ∷ 0 ∷ 0 ∷ 0 ∷ [];
    vg_used = false ∷ false ∷ false ∷ false ∷ [];
  };
  cell = record {
    id1 = 0;
    id2 = 0;
    id3 = pos 0;
    id4 = pos 0;
    id5 = pos 0;
    freq = pos 0;
    ta = pos 0;
  };
}

-- A slot as `sky_new_request` leaves it.
abbrev pub empty_slot : Beacon
empty_slot = record (zero_beacon beacon_max) { magic = beacon_magic }
