-- ===== src/Plugins/Compare.antt =====
-- The entries `equal` and `compare` of plugins/ap_plugin_basic.c and plugins/cell_plugin_basic.c.
-- `none` is SKY_ERROR: the plugin does not handle the pair. The null checks of the entries never
-- fire, since the library passes the address of a beacon and of a local variable.
use embedded_client.Common.{
  ℕ, ◌+◌, ◌-◌, ◌%◌, ℤ, pos, negsuc, sub_ℕ, ◌-ℤ◌, Bool, true, false, not, ◌&&◌, ◌||◌, Option, none,
  some, ltb, eqb_ℤ, ◌==◌, if◌then◌else◌,
}
use embedded_client.Types.{
  Beacon, Cell, BeaconType, beacon_cdma, beacon_gsm, beacon_lte, beacon_nbiot, beacon_umts,
  beacon_nr, beacon_ble, is_ap_type, is_cell_type, is_cell_nmr, type_code, effective_rssi, u32,
  unknown_id1, unknown_id2, unknown_id3, unknown_id4,
}
use embedded_client.Float.{Float, fin, of_int, add, sub, eq, to_int}
use embedded_client.Mac.{memcmp}

abbrev pub compare_type : Beacon → Beacon → ℤ
compare_type a b = sub_ℕ (type_code b.type) (type_code a.type)

-- The difference of two `uint32_t` as an `int`.
abbrev signed_32 : ℕ → ℤ
signed_32 w = if ltb w 0x80000000 then pos w else negsuc (u32 - w - 1)

abbrev pub compare_age : Beacon → Beacon → ℤ
compare_age a b = signed_32 ((b.age + u32 - a.age) % u32)

abbrev pub compare_rssi : Beacon → Beacon → ℤ
compare_rssi a b = effective_rssi a.rssi -ℤ effective_rssi b.rssi

abbrev pub compare_mac : Beacon → Beacon → ℤ
compare_mac a b = memcmp b.ap.mac a.ap.mac

abbrev flag : Bool → ℕ
flag true = 1
flag false = 0

abbrev pub compare_connected : Beacon → Beacon → ℤ
compare_connected a b = sub_ℕ (flag a.connected) (flag b.connected)

abbrev pub compare_priority : Beacon → Beacon → ℤ
compare_priority a b = to_int (sub a.priority b.priority)

-- plugins/ap_plugin_basic.c
unfoldable pub ap_equal : Beacon → Beacon → Option Bool
ap_equal a b =
    if not (is_ap_type a) || not (is_ap_type b)
    then none
    else some (eqb_ℤ (compare_mac a b) (pos 0))

unfoldable pub ap_compare : Beacon → Beacon → Option (ℤ × Beacon × Beacon)
ap_compare a b =
    if not (is_ap_type a) || not (is_ap_type b)
    then none
    else some (if eqb_ℤ a.rssi b.rssi then compare_mac a b else compare_rssi a b, a, b)

-- plugins/cell_plugin_basic.c: the cases of the `switch` in `equal`
abbrev cdma_equal : Cell → Cell → Bool
cdma_equal a b =
    (a.id2 == b.id2)
    && eqb_ℤ a.id3 b.id3
    && eqb_ℤ a.id4 b.id4
    && not ((a.id2 == unknown_id2) || eqb_ℤ a.id3 unknown_id3 || eqb_ℤ a.id4 unknown_id4)

abbrev gsm_equal : Cell → Cell → Bool
gsm_equal a b =
    (a.id1 == b.id1)
    && (a.id2 == b.id2)
    && eqb_ℤ a.id3 b.id3
    && eqb_ℤ a.id4 b.id4
    && not (
        (a.id1 == unknown_id1)
        || (a.id2 == unknown_id2)
        || eqb_ℤ a.id3 unknown_id3
        || eqb_ℤ a.id4 unknown_id4)

-- Two neighbour cells are told apart by `id5` and channel.
abbrev mobile_equal : Cell → Cell → Bool
mobile_equal a b =
    (a.id1 == b.id1)
    && (a.id2 == b.id2)
    && eqb_ℤ a.id4 b.id4
    && (if (a.id1 == unknown_id1) || (a.id2 == unknown_id2) || eqb_ℤ a.id4 unknown_id4
        then eqb_ℤ a.id5 b.id5 && eqb_ℤ a.freq b.freq
        else true)

abbrev pub equivalent : BeaconType → Cell → Cell → Bool
equivalent beacon_cdma a b = cdma_equal a b
equivalent beacon_gsm a b = gsm_equal a b
equivalent beacon_lte a b = mobile_equal a b
equivalent beacon_nbiot a b = mobile_equal a b
equivalent beacon_umts a b = mobile_equal a b
equivalent beacon_nr a b = mobile_equal a b
equivalent _ a b = false

abbrev is_ble : BeaconType → Bool
is_ble beacon_ble = true
is_ble _ = false

unfoldable pub cell_equal : Beacon → Beacon → Option Bool
cell_equal a b =
    if not (type_code a.type == type_code b.type)
      || is_ap_type a
      || is_ap_type b
      || is_ble a.type
      || is_ble b.type
    then none
    else some (equivalent a.type a.cell b.cell)

-- `get_priority`: 512 for a connected cell, and 256 for one with known identifiers.
unfoldable pub cell_priority : Beacon → Float
cell_priority b =
    let score : Float = fin (pos 0) in
    let score' = if b.connected then add score (of_int (pos 0x200)) else score in
    if not (is_cell_nmr b) then add score' (of_int (pos 0x100)) else score'

abbrev with_priority : Beacon → Beacon
with_priority b = if eq b.priority (fin (pos 0)) then record b { priority = cell_priority b } else b

unfoldable pub cell_diff : Beacon → Beacon → ℤ
cell_diff a b =
    if not (eq a.priority b.priority)
    then compare_priority a b
    else if not (a.age == b.age)
    then compare_age a b
    else if not (type_code a.type == type_code b.type)
    then compare_type a b
    else compare_rssi a b

-- The comparison fills in the priorities of the two beacons.
unfoldable pub cell_compare : Beacon → Beacon → Option (ℤ × Beacon × Beacon)
cell_compare a b =
    if not (is_cell_type a) || not (is_cell_type b)
    then none
    else (let a' = with_priority a in let b' = with_priority b in some (cell_diff a' b', a', b'))
