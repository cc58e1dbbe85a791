-- ===== src/Validate.antt =====
-- libel/utilities.c: the checks of a beacon and of the request context. A check that rewrites
-- out-of-range values returns the beacon as it leaves it, whatever the verdict.
pub mod Beacons
pub mod Ranges
pub mod Class
mod Tests
use embedded_client.Common.{
  ℕ, zero, suc, ◌+◌, ◌-◌, ℤ, pos, negsuc, neg, Bool, true, false, not, ◌&&◌, ◌||◌, List, [], ◌∷◌,
  ltb, ltb_ℤ, leb, eqb_ℤ, ◌==◌, if◌then◌else◌,
}
use embedded_client.Types.{
  Beacon, Cell, Ap, BeaconType, beacon_ap, beacon_ble, beacon_nr, beacon_lte, beacon_umts,
  beacon_nbiot, beacon_cdma, beacon_gsm, beacon_max, beacon_magic, is_cell_nmr, Rctx, num_beacons,
  num_aps, unknown_id1, unknown_id2, unknown_id3, unknown_id4, unknown_id5, unknown_id6, unknown_ta,
  total_beacons_max, max_ap_beacons_max, sky_magic, type_code,
}
use embedded_client.Crc.{sky_crc32, header_bytes}

all_equal : ℕ → List ℕ → Bool
all_equal m [] = true
all_equal m (n ∷ mac) = (m == n) && all_equal m mac

-- A mac is refused if it is all zeros or all ones.
validate_mac : List ℕ → Bool
unfolding all_equal
validate_mac [] = true
validate_mac (m ∷ mac) =
    if (m == 0) || (m == 0xff) then (if all_equal m mac then false else true) else true

-- `if (rssi > high || rssi < low) rssi = -1`
abbrev limit_rssi : ℕ → ℕ → Beacon → Beacon
limit_rssi high low b = record b {
  rssi = if ltb_ℤ (neg high) b.rssi || ltb_ℤ b.rssi (neg low) then negsuc 0 else b.rssi;
}

-- A value that is known and lies outside of low..high.
abbrev outside : ℤ → ℕ → ℕ → Bool
outside v low high = not (eqb_ℤ v (negsuc 0)) && (ltb_ℤ v (pos low) || ltb_ℤ (pos high) v)

-- A value that is known and lies above high.
abbrev above : ℤ → ℕ → Bool
above v high = not (eqb_ℤ v (negsuc 0)) && ltb_ℤ (pos high) v

mcc_bad : Cell → Bool
mcc_bad c = not (c.id1 == unknown_id1) && (ltb c.id1 200 || ltb 799 c.id1)

mnc_bad : Cell → Bool
mnc_bad c = not (c.id2 == unknown_id2) && ltb 999 c.id2

-- Some of the primary identifiers are unknown, and some are not.
partial_ids : Cell → Bool
partial_ids c =
    ((c.id1 == unknown_id1) || (c.id2 == unknown_id2) || eqb_ℤ c.id4 unknown_id4)
    && not ((c.id1 == unknown_id1) && (c.id2 == unknown_id2) && eqb_ℤ c.id4 unknown_id4)

partial_ids_gsm : Cell → Bool
partial_ids_gsm c =
    ((c.id1 == unknown_id1)
      || (c.id2 == unknown_id2)
      || eqb_ℤ c.id3 unknown_id3
      || eqb_ℤ c.id4 unknown_id4)
    && not (
        (c.id1 == unknown_id1)
        && (c.id2 == unknown_id2)
        && eqb_ℤ c.id3 unknown_id3
        && eqb_ℤ c.id4 unknown_id4)

-- The `return false` conditions of each type of cell.
unfoldable pub lte_bad : Cell → Bool
unfolding partial_ids mcc_bad mnc_bad
lte_bad c =
    partial_ids c
    || (mcc_bad c
        || mnc_bad c
        || outside c.id3 1 65535
        || outside c.id4 0 268435455
        || above c.id5 503
        || above c.freq 262143
        || outside c.ta 0 7690)

unfoldable pub nbiot_bad : Cell → Bool
unfolding partial_ids mcc_bad mnc_bad
nbiot_bad c =
    partial_ids c
    || (mcc_bad c
        || mnc_bad c
        || outside c.id3 1 65535
        || outside c.id4 0 268435455
        || outside c.id5 0 503
        || outside c.freq 0 262143)

unfoldable pub gsm_bad : Cell → Bool
unfolding partial_ids_gsm mcc_bad mnc_bad
gsm_bad c =
    partial_ids_gsm c
    || (mcc_bad c || mnc_bad c || outside c.id5 0 63 || outside c.freq 1 1023 || outside c.ta 0 63)

unfoldable pub umts_bad : Cell → Bool
unfolding partial_ids mcc_bad mnc_bad
umts_bad c =
    partial_ids c
    || (mcc_bad c
        || mnc_bad c
        || outside c.id4 0 268435455
        || above c.id5 511
        || outside c.freq 412 262143)

unfoldable pub cdma_bad : Cell → Bool
cdma_bad c =
    ((c.id2 == unknown_id2) || eqb_ℤ c.id3 unknown_id3 || eqb_ℤ c.id4 unknown_id4)
    || (ltb 32767 c.id2
        || ltb_ℤ c.id3 (pos 0)
        || ltb_ℤ (pos 65535) c.id3
        || ltb_ℤ c.id4 (pos 0)
        || ltb_ℤ (pos 65535) c.id4)

unfoldable pub nr_bad : Cell → Bool
unfolding partial_ids mcc_bad mnc_bad
nr_bad c =
    partial_ids c
    || (mcc_bad c
        || mnc_bad c
        || outside c.id4 0 68719476735
        || outside c.id5 0 107
        || outside c.freq 0 3279165
        || outside c.ta 0 3846)

-- What follows the `switch`: a neighbour cell is never connected and has no timing advance.
abbrev settle_nmr : Beacon → Beacon
settle_nmr b =
    if is_cell_nmr b
    then record b { connected = false; cell = record (b.cell) { ta = unknown_ta } }
    else b

check_cell : (Cell → Bool) → Beacon → Bool × Beacon
check_cell bad b = if bad b.cell then (false, b) else (true, settle_nmr b)

check_ap : Beacon → Bool × Beacon
unfolding validate_mac
check_ap b =
    let freq = b.ap.ap_freq in
    let known = record b {
      ap = record (b.ap) { ap_freq = if ltb freq 2400 || ltb 6000 freq then 0 else freq };
    } in
    (validate_mac b.ap.mac, known)

-- The `switch` on the type.
validate_type : BeaconType → Beacon → Bool × Beacon
unfolding check_cell check_ap
validate_type beacon_ap b = check_ap (limit_rssi 10 127 b)
validate_type beacon_lte b = check_cell lte_bad (limit_rssi 40 140 b)
validate_type beacon_nbiot b = check_cell nbiot_bad (limit_rssi 44 156 b)
validate_type beacon_gsm b = check_cell gsm_bad (limit_rssi 32 128 b)
validate_type beacon_umts b = check_cell umts_bad (limit_rssi 20 120 b)
validate_type beacon_cdma b = check_cell cdma_bad (limit_rssi 49 140 b)
validate_type beacon_nr b = check_cell nr_bad (limit_rssi 40 140 b)
validate_type beacon_ble b = (false, b)
validate_type beacon_max b = (false, b)

unfoldable pub validate_beacon : Beacon → Bool × Beacon
unfolding validate_type
validate_beacon b = if b.magic == beacon_magic then validate_type b.type b else (false, b)
