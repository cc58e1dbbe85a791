-- ===== src/Fields.antt =====
-- libel/utilities.c: the counts and fields that the encoder of a request reads. The null checks are
-- left out, since a context is a value here.
pub mod Counts
pub mod Cells
use embedded_client.Types.{
  BeaconType, Rctx, Beacon, num_aps, is_ap, is_cell_type, type_code, num_beacons, empty_slot,
}
use embedded_client.Common.{
  ℕ, some, [], none, ◌∷◌, List, if◌then◌else◌, drop, Option, Bool, ◌+◌, leb, ltb, get_or, ◌==◌,
  ◌&&◌, ◌-◌, not, get_elem?, false, pos, ◌++◌, ℤ,
}

abbrev same_type : BeaconType → Beacon → Bool
same_type t b = type_code b.type == type_code t

-- The loop over the cells, with the count so far; it ends after the first run of the type.
unfoldable pub count_run : BeaconType → List Beacon → ℕ → ℕ
count_run t [] n = n
count_run t (b ∷ bs) n =
    let counted = if same_type t b then n + 1 else n in
    let rest = count_run t bs counted in
    if ltb 0 counted && not (same_type t b) then counted else rest

unfoldable pub get_num_beacons : Rctx → BeaconType → ℕ
get_num_beacons r t = if is_ap t then num_aps r else count_run t (drop r.num_ap r.beacon) 0

unfoldable pub count_cells : List Beacon → ℕ → ℕ
count_cells [] n = n
count_cells (b ∷ bs) n = count_cells bs (if is_cell_type b then n + 1 else n)

unfoldable pub get_num_cells : Rctx → ℕ
get_num_cells r = count_cells (drop r.num_ap r.beacon) 0

-- The index of the first beacon of the type from `i` on.
unfoldable pub first_of : BeaconType → List Beacon → ℕ → Option ℕ
first_of t [] i = none
first_of t (b ∷ bs) i = let rest = first_of t bs (i + 1) in if same_type t b then some i else rest

-- `none` is -1.
unfoldable pub get_base_beacons : Rctx → BeaconType → Option ℕ
get_base_beacons r t =
    if is_ap t
    then (if same_type t (get_or r.beacon 0 empty_slot) then some 0 else none)
    else first_of t (drop r.num_ap r.beacon) r.num_ap

unfoldable pub get_num_aps : Rctx → ℕ
get_num_aps r = num_aps r

-- The beacon at an index of the array, used or not; `none` is past its end.
abbrev pub slot : Rctx → ℕ → Option Beacon
slot r i = get_elem? (r.beacon ++ r.spare) i

unfoldable pub get_cell : Rctx → ℕ → Option Beacon
get_cell r idx = slot r (num_aps r + idx)

-- A field of the header of a beacon, for an index that passes the test.
abbrev ap_field {ℓ} : {A : Type ℓ} → Rctx → ℕ → A → (Beacon → A) → Option A
ap_field r idx none_such field =
    if ltb (num_aps r) idx
    then some none_such
    else elim (slot r idx) [ none ↦ none | some b ↦ some (field b) ]

unfoldable pub get_ap_rssi : Rctx → ℕ → Option ℤ
get_ap_rssi r idx = ap_field r idx (pos 0) (λ b. b.rssi)

unfoldable pub get_ap_is_connected : Rctx → ℕ → Option Bool
get_ap_is_connected r idx = ap_field r idx false (λ b. b.connected)

unfoldable pub get_ap_age : Rctx → ℕ → Option ℕ
get_ap_age r idx = ap_field r idx 0 (λ b. b.age)

unfoldable pub get_ap_freq : Rctx → ℕ → Option ℕ
get_ap_freq r idx = ap_field r idx 0 (λ b. b.ap.ap_freq)

-- The inner `none` is NULL.
unfoldable pub get_ap_mac : Rctx → ℕ → Option (Option (List ℕ))
get_ap_mac r idx = ap_field r idx none (λ b. some b.ap.mac)
