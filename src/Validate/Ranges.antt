-- ===== src/Validate/Ranges.antt =====
-- libel/utilities.c: the values that `validate_beacon` accepts.
use embedded_client.Common.{ℕ, ◌≤◌, ◌≡◌, ◌⊎◌, ℤ, pos, negsuc, ◌≤ℤ◌, Bool, true, false, arith, ◌≢◌}
use embedded_client.Types.{
  Beacon, Cell, BeaconType, beacon_ap, beacon_ble, beacon_nr, beacon_lte, beacon_umts, beacon_nbiot,
  beacon_cdma, beacon_gsm, beacon_max, unknown_ta, unknown_id1, unknown_id2, unknown_id4,
  unknown_id3,
}
use embedded_client.Validate.{
  check_cell, check_ap, validate_type, validate_beacon, lte_bad, nbiot_bad, gsm_bad, umts_bad,
  cdma_bad, nr_bad, limit_rssi,
}

-- The verdict does not get worse when the timing advance is forgotten.
abbrev StableTa : (Cell → Bool) → Type 0
StableTa bad = (c : Cell) → bad c ≡ false → bad (record c { ta = unknown_ta }) ≡ false

lte-StableTa : StableTa lte_bad
unfolding lte_bad
lte-StableTa c h = ground arith

nbiot-StableTa : StableTa nbiot_bad
unfolding nbiot_bad
nbiot-StableTa c h = ground arith

gsm-StableTa : StableTa gsm_bad
unfolding gsm_bad
gsm-StableTa c h = ground arith

umts-StableTa : StableTa umts_bad
unfolding umts_bad
umts-StableTa c h = ground arith

cdma-StableTa : StableTa cdma_bad
unfolding cdma_bad
cdma-StableTa c h = ground arith

nr-StableTa : StableTa nr_bad
unfolding nr_bad
nr-StableTa c h = ground arith

module _ (bad : Cell → Bool) (stable : StableTa bad) where
  check_cell_again :
      (high low : ℕ) (b b' : Beacon)
      → check_cell bad (limit_rssi high low b) ≡ (true, b')
      → (check_cell bad (limit_rssi high low b') ≡ (true, b'))
        × (b'.magic ≡ b.magic)
        × (b'.type ≡ b.type)
        × (bad b'.cell ≡ false)
  unfolding check_cell
  check_cell_again high low b b' h = ground (arith, stable b.cell)

check_ap_again :
    (b b' : Beacon)
    → check_ap (limit_rssi 10 127 b) ≡ (true, b')
    → (check_ap (limit_rssi 10 127 b') ≡ (true, b')) × (b'.magic ≡ b.magic) × (b'.type ≡ b.type)
unfolding check_ap
check_ap_again b b' h = ground arith

abbrev Again : BeaconType → Beacon → Beacon → Type 0
Again t b b' = (validate_type t b' ≡ (true, b')) × (b'.magic ≡ b.magic) × (b'.type ≡ b.type)

validate_type-Again :
    (t : BeaconType) (b b' : Beacon) → validate_type t b ≡ (true, b') → Again t b b'
unfolding validate_type
validate_type-Again beacon_ap b b' h = check_ap_again b b' h
validate_type-Again beacon_lte b b' h =
    let (same, magic, type, _) = check_cell_again lte_bad lte-StableTa 40 140 b b' h in
    (same, magic, type)
validate_type-Again beacon_nbiot b b' h =
    let (same, magic, type, _) = check_cell_again nbiot_bad nbiot-StableTa 44 156 b b' h in
    (same, magic, type)
validate_type-Again beacon_gsm b b' h =
    let (same, magic, type, _) = check_cell_again gsm_bad gsm-StableTa 32 128 b b' h in
    (same, magic, type)
validate_type-Again beacon_umts b b' h =
    let (same, magic, type, _) = check_cell_again umts_bad umts-StableTa 20 120 b b' h in
    (same, magic, type)
validate_type-Again beacon_cdma b b' h =
    let (same, magic, type, _) = check_cell_again cdma_bad cdma-StableTa 49 140 b b' h in
    (same, magic, type)
validate_type-Again beacon_nr b b' h =
    let (same, magic, type, _) = check_cell_again nr_bad nr-StableTa 40 140 b b' h in
    (same, magic, type)
validate_type-Again beacon_ble b b' h = cc
validate_type-Again beacon_max b b' h = cc

-- A beacon that passes the check is left in a normal form: it passes again, and the second pass
-- changes nothing.
pub validate_beacon_again :
    (b b' : Beacon) → validate_beacon b ≡ (true, b') → validate_beacon b' ≡ (true, b')
unfolding validate_beacon
validate_beacon_again b b' h = ground (arith, validate_type-Again b.type b b')

-- A number that is -1, or lies in low..high.
abbrev KnownWithin : ℕ → ℕ → ℤ → Type 0
KnownWithin low high v = (v ≡ negsuc 0) ⊎ (pos low ≤ℤ v) × (v ≤ℤ pos high)

-- Country and network code, and the cell's identifier below `top`: all three known and in range,
-- or all three unknown.
abbrev MobileIds : ℕ → Cell → Type 0
MobileIds top c =
    ((200 ≤ c.id1) × (c.id1 ≤ 799) × (c.id2 ≤ 999) × (pos 0 ≤ℤ c.id4) × (c.id4 ≤ℤ pos top))
    ⊎ ((c.id1 ≡ unknown_id1) × (c.id2 ≡ unknown_id2) × (c.id4 ≡ unknown_id4))

-- The values that make a cell of each type acceptable. The documentation of the calls that add cells
-- gives other greatest values: 1007 for the pci of NR, 45589 for the channels of LTE and NB-IoT, and
-- 10833 for those of UMTS.
abbrev pub InRange : BeaconType → Cell → Type 0
InRange beacon_lte c =
    MobileIds 268435455 c
    × KnownWithin 1 65535 c.id3
    × (c.id5 ≤ℤ pos 503)
    × (c.freq ≤ℤ pos 262143)
    × KnownWithin 0 7690 c.ta
InRange beacon_nbiot c =
    MobileIds 268435455 c
    × KnownWithin 1 65535 c.id3
    × KnownWithin 0 503 c.id5
    × KnownWithin 0 262143 c.freq
InRange beacon_umts c = MobileIds 268435455 c × (c.id5 ≤ℤ pos 511) × KnownWithin 412 262143 c.freq
InRange beacon_nr c =
    MobileIds 68719476735 c
    × KnownWithin 0 107 c.id5
    × KnownWithin 0 3279165 c.freq
    × KnownWithin 0 3846 c.ta
InRange beacon_gsm c =
    (((200 ≤ c.id1) × (c.id1 ≤ 799) × (c.id2 ≤ 999) × (c.id3 ≢ unknown_id3) × (c.id4 ≢ unknown_id4))
      ⊎ ((c.id1 ≡ unknown_id1)
          × (c.id2 ≡ unknown_id2)
          × (c.id3 ≡ unknown_id3)
          × (c.id4 ≡ unknown_id4)))
    × KnownWithin 0 63 c.id5
    × KnownWithin 1 1023 c.freq
    × KnownWithin 0 63 c.ta
InRange beacon_cdma c =
    (c.id2 ≤ 32767)
    × (pos 0 ≤ℤ c.id3)
    × (c.id3 ≤ℤ pos 65535)
    × (pos 0 ≤ℤ c.id4)
    × (c.id4 ≤ℤ pos 65535)
InRange _ c = Unit {0}
