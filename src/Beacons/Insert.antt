-- ===== src/Beacons/Insert.antt =====
-- libel/beacons.c: `is_beacon_first` and `insert_beacon`, built with logging, as libel/config.h
-- has it.
pub mod Order
use embedded_client.Common.{
  ℕ, zero, suc, ◌+◌, ℤ, pos, negsuc, Bool, true, false, not, ◌&&◌, ◌||◌, List, [], ◌∷◌, Option,
  none, some, ltb, ltb_ℤ, eqb_ℤ, ◌==◌, if◌then◌else◌, insert_idx, xor,
}
use embedded_client.Types.{
  Beacon, Rctx, Plugin, Status, success, error, Errno, error_none, error_internal, is_ap_type,
  is_cell_type, is_cell_nmr, num_beacons,
}
use embedded_client.Errors.{set_error_status}
use embedded_client.Plugins.Compare.{compare_type, compare_connected}
use embedded_client.Plugins.Chain.{sky_plugin_equal, sky_plugin_compare}
use embedded_client.Beacons.Remove.{remove_beacon}

-- A write past the end of an array is a fault.
pub data Run {ℓ} (A : Type ℓ) : Type ℓ where
  out_of_bounds : Run A
  done : A → Run A

-- Beacons of different classes.
abbrev other_class : Beacon → Beacon → ℤ
other_class a b =
    if not (is_cell_type a) || not (is_cell_type b)
    then (if ltb_ℤ (compare_type a b) (pos 0) then negsuc 0 else pos 1)
    else if xor (is_cell_nmr a) (is_cell_nmr b)
    then (if is_cell_nmr a then negsuc 0 else pos 1)
    else if xor a.connected b.connected
    then compare_connected a b
    else compare_type a b

-- Above 0 if `a` is the better beacon. The comparison may fill in the beacons' priorities.
unfoldable pub is_beacon_first : List Plugin → Beacon → Beacon → ℤ × Beacon × Beacon
is_beacon_first plugins a b = elim (sky_plugin_compare plugins a b) [
  | none ↦ (other_class a b, a, b)
  | some (diff, a', b') ↦ (if eqb_ℤ diff (pos 0) then pos 1 else diff, a', b')
]

-- A duplicate gives way to a beacon that is younger, or as old and connected, or as old, connected
-- alike and stronger.
unfoldable pub keep_new : Beacon → Beacon → Bool
keep_new b x =
    ltb b.age x.age
    || ((b.age == x.age) && b.connected)
    || ((b.age == x.age) && not (xor b.connected x.connected) && ltb_ℤ x.rssi b.rssi)

-- How the search for a duplicate ends: none, one to replace at an index, or one to keep.
pub data Duplicate : Type 0 where
  no_duplicate : Duplicate
  replace_at : ℕ → Duplicate
  reject : Duplicate

-- The search from index `j` on, with the error code so far.
unfoldable pub find_duplicate : List Plugin → Beacon → List Beacon → ℕ → Errno → Duplicate × Errno
find_duplicate plugins b [] j code = (no_duplicate, code)
find_duplicate plugins b (x ∷ bs) j code =
    let (equal, code') = sky_plugin_equal plugins b x in
    let rest = find_duplicate plugins b bs (j + 1) code' in
    elim equal [
      | some true ↦ if keep_new b x then (replace_at j, code') else (reject, error_none)
      | _ ↦ rest
    ]

-- The index to insert at, and the beacons as the comparisons leave them.
unfoldable pub find_position : List Plugin → Beacon → List Beacon → ℕ × Beacon × List Beacon
find_position plugins b [] = (0, b, [])
find_position plugins b (x ∷ bs) =
    let (diff, b', x') = is_beacon_first plugins b x in
    let (j, b'', bs') = find_position plugins b' bs in
    if ltb_ℤ (pos 0) diff then (0, b', x' ∷ bs) else (suc j, b'', x' ∷ bs')

-- The check, under logging, that the beacon is found: it leaves an error code.
unfoldable pub find_inserted : List Plugin → Beacon → List Beacon → Errno → Errno
find_inserted plugins b [] code = code
find_inserted plugins b (x ∷ bs) code =
    let (equal, code') = sky_plugin_equal plugins b x in
    let rest = find_inserted plugins b bs code' in elim equal [ some true ↦ code' | _ ↦ rest ]

-- One unused slot is taken; without one the write is out of bounds.
unfoldable pub place : Rctx → Errno → Beacon → Run (Rctx × Errno × Status)
place r code b =
    let (j, b', bs) = find_position r.session.plugins b r.beacon in
    let live = insert_idx bs j b' in
    let aps = if is_ap_type b' then r.num_ap + 1 else r.num_ap in
    elim r.spare [
      | [] ↦ out_of_bounds
      | _ ∷ free ↦ done (
        record r { num_ap = aps; beacon = live; spare = free },
        find_inserted r.session.plugins b' live code,
        success,
      )
    ]

abbrev after_search : Rctx → Beacon → Duplicate × Errno → Run (Rctx × Errno × Status)
after_search r b (no_duplicate, code) = place r code b
after_search r b (replace_at j, code) = place (remove_beacon r j).0 code b
after_search r b (reject, code) = done (set_error_status r error_none)

unfoldable pub insert_beacon : Rctx → Errno → Beacon → Run (Rctx × Errno × Status)
insert_beacon r code b =
    if is_ap_type b || is_cell_type b
    then after_search r b (find_duplicate r.session.plugins b r.beacon 0 code)
    else done (set_error_status r error_internal)
