-- ===== src/Fields/Cells.antt =====
-- libel/utilities.c: the fields of a cell that the encoder reads, each as an `int64_t`.
use embedded_client.Common.{pos, if◌then◌else◌, ℤ, Bool}
use embedded_client.Types.{
  beacon_umts, beacon_lte, beacon_gsm, beacon_nr, beacon_max, beacon_cdma, beacon_nbiot, Beacon,
  BeaconType, is_cell_type, unknown_id1, unknown_id5, unknown_id6, unknown_ta,
}

unfoldable pub get_cell_type : Beacon → BeaconType
get_cell_type c = if is_cell_type c then c.type else beacon_max

abbrev pub by_type : BeaconType → ℤ → ℤ → ℤ
by_type beacon_cdma unknown field = unknown
by_type beacon_gsm unknown field = field
by_type beacon_lte unknown field = field
by_type beacon_nbiot unknown field = field
by_type beacon_umts unknown field = field
by_type beacon_nr unknown field = field
by_type _ unknown field = pos 0

unfoldable pub get_cell_id1 : Beacon → ℤ
get_cell_id1 c = by_type (get_cell_type c) (pos unknown_id1) (pos c.cell.id1)

unfoldable pub get_cell_id2 : Beacon → ℤ
get_cell_id2 c = pos c.cell.id2

unfoldable pub get_cell_id3 : Beacon → ℤ
get_cell_id3 c = c.cell.id3

unfoldable pub get_cell_id4 : Beacon → ℤ
get_cell_id4 c = c.cell.id4

unfoldable pub get_cell_id5 : Beacon → ℤ
get_cell_id5 c = by_type (get_cell_type c) unknown_id5 c.cell.id5

unfoldable pub get_cell_id6 : Beacon → ℤ
get_cell_id6 c = by_type (get_cell_type c) unknown_id6 c.cell.freq

unfoldable pub get_cell_connected_flag : Beacon → Bool
get_cell_connected_flag c = c.connected

unfoldable pub get_cell_rssi : Beacon → ℤ
get_cell_rssi c = c.rssi

unfoldable pub get_cell_age : Beacon → ℤ
get_cell_age c = pos c.age

abbrev ta_of : BeaconType → ℤ → ℤ
ta_of beacon_gsm field = field
ta_of beacon_lte field = field
ta_of beacon_nr field = field
ta_of _ field = unknown_ta

unfoldable pub get_cell_ta : Beacon → ℤ
get_cell_ta c = ta_of (get_cell_type c) c.cell.ta
