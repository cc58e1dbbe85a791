-- ===== src/Fields/Counts.antt =====
-- libel/utilities.c: the counts, and the order of the list.
use embedded_client.Beacons.Add.Limits.{cell_after_aps}
use embedded_client.Beacons.Insert.Order.{IsValid}
use embedded_client.Beacons.Remove.{ApsFirst, ApsFirst-le-length}
use embedded_client.Types.{Beacon}
use embedded_client.Fields.{
  count_cells, is_cell_type, get_num_aps, get_cell, get_num_cells, Rctx, num_beacons, empty_slot,
}
use embedded_client.Common.{
  ℕ, suc, refl, [], zero, true, ◌∷◌, List, ◌≤◌, ◌≡◌, drop, length, ◌+◌, arith, some, ◌<◌, get_elem?,
  ◌++◌, get_or,
}

count_cells_all : (bs : List Beacon) (k : ℕ) → ApsFirst 0 bs → count_cells bs k ≡ k + length bs
unfolding count_cells
count_cells_all [] k h = omega arith
count_cells_all (b ∷ bs) k h = ground (arith, count_cells_all bs (k + 1) (h.1))

ApsFirst-drop : (n : ℕ) (bs : List Beacon) → ApsFirst n bs → ApsFirst 0 (drop n bs)
ApsFirst-drop zero bs h = h
ApsFirst-drop (suc n) [] h = refl
ApsFirst-drop (suc n) (b ∷ bs) h = ApsFirst-drop n bs (h.1)

length-drop : (n : ℕ) (bs : List Beacon) → n ≤ length bs → length (drop n bs) + n ≡ length bs
length-drop zero bs h = omega arith
length-drop (suc n) [] h = absurd (omega arith)
length-drop (suc n) (b ∷ bs) h = omega (arith, length-drop n bs (omega arith))

get_elem?-get_or :
    (bs cs : List Beacon) (i : ℕ)
    → i < length bs
    → get_elem? (bs ++ cs) i ≡ some (get_or bs i empty_slot)
get_elem?-get_or [] cs i lt = absurd (omega arith)
get_elem?-get_or (b ∷ bs) cs zero lt = refl
get_elem?-get_or (b ∷ bs) cs (suc i) lt = get_elem?-get_or bs cs i (omega arith)

-- For a valid request the counts that the encoder uses add up to the beacons of the list.
pub get_num_aps-get_num_cells :
    (r : Rctx) → IsValid r → get_num_aps r + get_num_cells r ≡ num_beacons r
unfolding get_num_aps get_num_cells
get_num_aps-get_num_cells r v = omega (
  arith,
  count_cells_all (drop r.num_ap r.beacon) 0 (ApsFirst-drop r.num_ap r.beacon v.ordered),
  length-drop r.num_ap r.beacon (ApsFirst-le-length r.num_ap r.beacon v.ordered),
)

get_num_aps_lem : (r : Rctx) → get_num_aps r ≡ r.num_ap
unfolding get_num_aps
get_num_aps_lem r = refl

-- Every index below the count of the cells of a valid request is that of a cell of its list.
pub get_cell-get_num_cells :
    (r : Rctx) (idx : ℕ)
    → IsValid r
    → idx < get_num_cells r
    → (b : Beacon) × (get_cell r idx ≡ some b) × (is_cell_type b ≡ true)
unfolding get_cell
get_cell-get_num_cells r idx v lt =
    let i = r.num_ap + idx in
    let inside : i < num_beacons r =
      omega (arith, get_num_aps_lem r, get_num_aps-get_num_cells r v) in
    (
      get_or r.beacon i empty_slot,
      get_elem?-get_or r.beacon r.spare i inside,
      cell_after_aps r.num_ap r.beacon i v.ordered (omega arith) inside,
    )
