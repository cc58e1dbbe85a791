-- ===== src/Api.antt =====
-- libel/libel.c: the calls that an application adds beacons with. The null checks are left out, since
-- a context is a value here, and so is the logging. A number is converted as its C type is.
pub mod Sequences
use embedded_client.Config.Options.{to_u32}
use embedded_client.Beacons.Add.{add_beacon}
use embedded_client.Beacons.Insert.{Run}
use embedded_client.Types.{
  beacon_lte, beacon_cdma, beacon_nr, beacon_nbiot, beacon_umts, beacon_ap, beacon_gsm, BeaconType,
  Cell, Rctx, Errno, Beacon, Status, zero_beacon, unknown_id3, unknown_id1, beacon_magic,
  unknown_id4, unknown_id2, unknown_ta,
}
use embedded_client.Common.{ℕ, pos, false, List, ℤ, Bool, ◌%◌}

abbrev ap_beacon : List ℕ → ℤ → ℤ → Bool → Beacon
ap_beacon mac rssi frequency is_connected = record (zero_beacon beacon_ap) {
  magic = beacon_magic;
  connected = is_connected;
  rssi = rssi;
  ap = record ((zero_beacon beacon_ap).ap) { mac = mac; ap_freq = to_u32 frequency; used = false };
}

abbrev cell_beacon : BeaconType → Cell → ℤ → Bool → Beacon
cell_beacon t c rssi is_connected = record (zero_beacon t) {
  magic = beacon_magic;
  connected = is_connected;
  rssi = rssi;
  cell = c;
}

-- The fields of a cell that the caller does not set.
abbrev no_cell : Cell
no_cell = record {
  id1 = 0;
  id2 = 0;
  id3 = pos 0;
  id4 = pos 0;
  id5 = pos 0;
  freq = pos 0;
  ta = pos 0;
}

module _ (r : Rctx) (code : Errno) where
  unfoldable pub sky_add_ap_beacon : List ℕ → ℤ → ℤ → ℤ → Bool → Run (Rctx × Errno × Status)
  sky_add_ap_beacon mac timestamp rssi frequency is_connected =
      add_beacon r code (ap_beacon mac rssi frequency is_connected) timestamp

  unfoldable pub sky_add_cell_lte_beacon :
      ℤ → ℤ → ℕ → ℕ → ℤ → ℤ → ℤ → ℤ → ℤ → Bool → Run (Rctx × Errno × Status)
  sky_add_cell_lte_beacon tac e_cellid mcc mnc pci earfcn ta timestamp rsrp is_connected =
      let c : Cell = record {
        id1 = mcc;
        id2 = mnc;
        id3 = tac;
        id4 = e_cellid;
        id5 = pci;
        freq = earfcn;
        ta = ta;
      } in
      add_beacon r code (cell_beacon beacon_lte c rsrp is_connected) timestamp

  unfoldable pub sky_add_cell_lte_neighbor_beacon : ℤ → ℤ → ℤ → ℤ → Run (Rctx × Errno × Status)
  unfolding sky_add_cell_lte_beacon
  sky_add_cell_lte_neighbor_beacon pci earfcn timestamp rsrp =
      sky_add_cell_lte_beacon unknown_id3 unknown_id4 unknown_id1 unknown_id2 pci earfcn unknown_ta
        timestamp rsrp false

  unfoldable pub sky_add_cell_gsm_beacon :
      ℤ → ℤ → ℕ → ℕ → ℤ → ℤ → ℤ → ℤ → ℤ → Bool → Run (Rctx × Errno × Status)
  sky_add_cell_gsm_beacon lac ci mcc mnc bsic arfcn ta timestamp rssi is_connected =
      let c : Cell = record {
        id1 = mcc;
        id2 = mnc;
        id3 = lac;
        id4 = ci;
        id5 = bsic;
        freq = arfcn;
        ta = ta;
      } in
      add_beacon r code (cell_beacon beacon_gsm c rssi is_connected) timestamp

  unfoldable pub sky_add_cell_gsm_neighbor_beacon : ℤ → ℤ → ℤ → ℤ → Run (Rctx × Errno × Status)
  unfolding sky_add_cell_gsm_beacon
  sky_add_cell_gsm_neighbor_beacon bsic arfcn timestamp rscp =
      sky_add_cell_gsm_beacon unknown_id3 unknown_id4 unknown_id1 unknown_id2 bsic arfcn unknown_ta
        timestamp rscp false

  unfoldable pub sky_add_cell_umts_beacon :
      ℤ → ℤ → ℕ → ℕ → ℤ → ℤ → ℤ → ℤ → Bool → Run (Rctx × Errno × Status)
  sky_add_cell_umts_beacon lac ucid mcc mnc psc uarfcn timestamp rscp is_connected =
      let c : Cell = record no_cell {
        id1 = mcc;
        id2 = mnc;
        id3 = lac;
        id4 = ucid;
        id5 = psc;
        freq = uarfcn;
      } in
      add_beacon r code (cell_beacon beacon_umts c rscp is_connected) timestamp

  unfoldable pub sky_add_cell_umts_neighbor_beacon : ℤ → ℤ → ℤ → ℤ → Run (Rctx × Errno × Status)
  unfolding sky_add_cell_umts_beacon
  sky_add_cell_umts_neighbor_beacon psc uarfcn timestamp rscp =
      sky_add_cell_umts_beacon unknown_id3 unknown_id4 unknown_id1 unknown_id2 psc uarfcn timestamp
        rscp false

  -- The system identifier is stored in a `uint16_t`.
  unfoldable pub sky_add_cell_cdma_beacon : ℕ → ℤ → ℤ → ℤ → ℤ → Bool → Run (Rctx × Errno × Status)
  sky_add_cell_cdma_beacon sid nid bsid timestamp rssi is_connected =
      let c : Cell = record no_cell { id2 = sid % 65536; id3 = nid; id4 = bsid } in
      add_beacon r code (cell_beacon beacon_cdma c rssi is_connected) timestamp

  unfoldable pub sky_add_cell_nb_iot_beacon :
      ℕ → ℕ → ℤ → ℤ → ℤ → ℤ → ℤ → ℤ → Bool → Run (Rctx × Errno × Status)
  sky_add_cell_nb_iot_beacon mcc mnc e_cellid tac ncid earfcn timestamp nrsrp is_connected =
      let c : Cell = record no_cell {
        id1 = mcc;
        id2 = mnc;
        id3 = tac;
        id4 = e_cellid;
        id5 = ncid;
        freq = earfcn;
      } in
      add_beacon r code (cell_beacon beacon_nbiot c nrsrp is_connected) timestamp

  unfoldable pub sky_add_cell_nb_iot_neighbor_beacon : ℤ → ℤ → ℤ → ℤ → Run (Rctx × Errno × Status)
  unfolding sky_add_cell_nb_iot_beacon
  sky_add_cell_nb_iot_neighbor_beacon ncid earfcn timestamp nrsrp =
      sky_add_cell_nb_iot_beacon unknown_id1 unknown_id2 unknown_id4 unknown_id3 ncid earfcn
        timestamp nrsrp false

  unfoldable pub sky_add_cell_nr_beacon :
      ℕ → ℕ → ℤ → ℤ → ℤ → ℤ → ℤ → ℤ → ℤ → Bool → Run (Rctx × Errno × Status)
  sky_add_cell_nr_beacon mcc mnc nci tac pci nrarfcn ta timestamp csi_rsrp is_connected =
      let c : Cell = record {
        id1 = mcc;
        id2 = mnc;
        id3 = tac;
        id4 = nci;
        id5 = pci;
        freq = nrarfcn;
        ta = ta;
      } in
      add_beacon r code (cell_beacon beacon_nr c csi_rsrp is_connected) timestamp

  unfoldable pub sky_add_cell_nr_neighbor_beacon : ℤ → ℤ → ℤ → ℤ → Run (Rctx × Errno × Status)
  unfolding sky_add_cell_nr_beacon
  sky_add_cell_nr_neighbor_beacon pci nrarfcn timestamp csi_rsrp =
      sky_add_cell_nr_beacon unknown_id1 unknown_id2 unknown_id4 unknown_id3 pci nrarfcn unknown_ta
        timestamp csi_rsrp false
