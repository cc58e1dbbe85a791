-- ===== src/Session/Used/Marks.antt =====
-- libel/protocol/proto.c: what `apply_used_info_to_ap` reads and marks.
use embedded_client.Types.{Beacon}
use embedded_client.Session.Used.{
  get_used_ap, mark_aps, mark_children, with_used, with_child_used, mark_rounds,
}
use embedded_client.Common.{
  suc, refl, [], some, zero, none, ◌∷◌, ◌==◌, ◌≤◌, ◌<◌, ◌*◌, ◌/◌, ◌%◌, ◌^◌, ◌-◌, if◌then◌else◌,
  List, ℕ, Bool, length, not, get_elem?, ◌≡◌, ltb, ◌+◌, bit_and, get_or, arith, ap, add_zero,
  dec_lt,
}
use embedded_client.Beacons.Insert.{out_of_bounds, done}

-- The bit `n` of the bytes, counted from the end.
abbrev pub bit_of : List ℕ → ℕ → Bool
bit_of used n = not (bit_and (get_or used (length used - 1 - n / 8) 0) (2 ^ (n % 8)) == 0)

get_elem?-some : (xs : List ℕ) (i : ℕ) → i < length xs → get_elem? xs i ≡ some (get_or xs i 0)
get_elem?-some [] i lt = absurd (omega arith)
get_elem?-some (x ∷ xs) zero lt = refl
get_elem?-some (x ∷ xs) (suc i) lt = get_elem?-some xs i (omega arith)

get_used_ap-bit :
    (used : List ℕ) (n : ℕ)
    → n < length used * 8
    → get_used_ap used (length used) n ≡ some (bit_of used n)
unfolding get_used_ap
get_used_ap-bit used n lt =
    let inside : n / 8 < length used = omega arith in
    let e = get_elem?-some used (length used - 1 - n / 8) (omega arith) in ground (arith, e, inside)

get_used_ap-outside :
    (used : List ℕ) (n : ℕ) → length used * 8 ≤ n → get_used_ap used (length used) n ≡ none
unfolding get_used_ap
get_used_ap-outside used n ge =
    let outside : length used ≤ n / 8 = omega arith in ground (arith, outside)

-- The marks of the APs, from the bit `nap` on.
abbrev pub aps_from : List ℕ → ℕ → List Beacon → List Beacon
aps_from used nap [] = []
aps_from used nap (b ∷ bs) = with_used (bit_of used nap) b ∷ aps_from used (nap + 1) bs

pub mark_aps-done :
    (used : List ℕ) (bs : List Beacon) (nap : ℕ)
    → nap + length bs ≤ length used * 8
    → mark_aps used (length used) bs nap ≡ done (aps_from used nap bs, nap + length bs)
unfolding mark_aps
mark_aps-done used [] nap le = ap (λ (n : ℕ). done ([], n)) (add_zero nap)
mark_aps-done used (b ∷ bs) nap le =
    let e = get_used_ap-bit used nap (omega arith) in
    let ih = mark_aps-done used bs (nap + 1) (omega arith) in
    let sum : nap + 1 + length bs ≡ nap + suc (length bs) = omega arith in
    ground (arith, e, ih, sum)

pub mark_aps-outside :
    (used : List ℕ) (bs : List Beacon) (nap : ℕ)
    → nap ≤ length used * 8
    → length used * 8 < nap + length bs
    → mark_aps used (length used) bs nap ≡ out_of_bounds
unfolding mark_aps
mark_aps-outside used [] nap le gt' = absurd (omega arith)
mark_aps-outside used (b ∷ bs) nap le gt' = elim (dec_lt nap (length used * 8)) [
  | no end ↦ ground (arith, get_used_ap-outside used nap (omega arith))
  | yes lt ↦ ground (
    arith,
    get_used_ap-bit used nap lt,
    mark_aps-outside used bs (nap + 1) (omega arith) (omega arith),
  )
]

-- The number of groups with a child `v`.
abbrev pub with_child : ℕ → List Beacon → ℕ
with_child v [] = 0
with_child v (b ∷ bs) = (if ltb v b.ap.vg_len then 1 else 0) + with_child v bs

abbrev pub children_from : List ℕ → ℕ → ℕ → List Beacon → List Beacon
children_from used v nap [] = []
children_from used v nap (b ∷ bs) =
    if ltb v b.ap.vg_len
    then with_child_used v (bit_of used nap) b ∷ children_from used v (nap + 1) bs
    else b ∷ children_from used v nap bs

mark_children-done :
    (used : List ℕ) (v : ℕ) (bs : List Beacon) (nap : ℕ)
    → nap + with_child v bs ≤ length used * 8
    → mark_children used (length used) v bs nap
      ≡ done (children_from used v nap bs, nap + with_child v bs)
unfolding mark_children
mark_children-done used v [] nap le = ap (λ (n : ℕ). done ([], n)) (add_zero nap)
mark_children-done used v (b ∷ bs) nap le = elim (dec_lt v b.ap.vg_len) [
  | no skip ↦
      let zero_add' : nap + with_child v bs ≡ nap + (0 + with_child v bs) = omega arith in
      ground (arith, skip, mark_children-done used v bs nap, zero_add')
  | yes has ↦
      let e = get_used_ap-bit used nap (ground (arith, has, le)) in
      let ih = mark_children-done used v bs (nap + 1) (ground (arith, has, le)) in
      let sum : nap + 1 + with_child v bs ≡ nap + (1 + with_child v bs) = omega arith in
      let before : nap < length used * 8 = ground (arith, has, le) in
      ground (arith, has, before, e, ih, sum)
]

mark_children-outside :
    (used : List ℕ) (v : ℕ) (bs : List Beacon) (nap : ℕ)
    → nap ≤ length used * 8
    → length used * 8 < nap + with_child v bs
    → mark_children used (length used) v bs nap ≡ out_of_bounds
unfolding mark_children
mark_children-outside used v [] nap le over = absurd (omega arith)
mark_children-outside used v (b ∷ bs) nap le over = elim (dec_lt v b.ap.vg_len) [
  | no skip ↦
      ground (arith, skip, mark_children-outside used v bs nap le (ground (arith, skip, over)))
  | yes has ↦
      let more : length used * 8 < nap + 1 + with_child v bs = ground (arith, has, over) in
      elim (dec_lt nap (length used * 8)) [
        | no end ↦ ground (arith, has, get_used_ap-outside used nap (omega arith))
        | yes lt ↦ ground (
          arith,
          has,
          get_used_ap-bit used nap lt,
          mark_children-outside used v bs (nap + 1) (omega arith) more,
        )
      ]
]

with_child-children_from :
    (used : List ℕ) (w v nap : ℕ) (bs : List Beacon)
    → with_child w (children_from used v nap bs) ≡ with_child w bs
with_child-children_from used w v nap [] = refl
with_child-children_from used w v nap (b ∷ bs) = ground (
  arith,
  with_child-children_from used w v (nap + 1) bs,
  with_child-children_from used w v nap bs,
)

pub with_child-aps_from :
    (used : List ℕ) (w nap : ℕ) (bs : List Beacon)
    → with_child w (aps_from used nap bs) ≡ with_child w bs
with_child-aps_from used w nap [] = refl
with_child-aps_from used w nap (b ∷ bs) = ground (arith, with_child-aps_from used w (nap + 1) bs)

-- The number of children that `n` rounds from `v` on visit.
abbrev pub child_bits : ℕ → ℕ → List Beacon → ℕ
child_bits zero v bs = 0
child_bits (suc n) v bs = with_child v bs + child_bits n (v + 1) bs

pub child_bits-eq :
    (n v : ℕ) (bs cs : List Beacon)
    → ((w : ℕ) → with_child w cs ≡ with_child w bs)
    → child_bits n v cs ≡ child_bits n v bs
child_bits-eq zero v bs cs same = refl
child_bits-eq (suc n) v bs cs same = omega (arith, same v, child_bits-eq n (v + 1) bs cs same)

abbrev pub rounds_from : List ℕ → ℕ → ℕ → ℕ → List Beacon → List Beacon
rounds_from used zero v nap bs = bs
rounds_from used (suc n) v nap bs =
    rounds_from used n (v + 1) (nap + with_child v bs) (children_from used v nap bs)

pub mark_rounds-done :
    (used : List ℕ) (n v : ℕ) (bs : List Beacon) (nap : ℕ)
    → nap + child_bits n v bs ≤ length used * 8
    → mark_rounds used (length used) n v bs nap
      ≡ done (rounds_from used n v nap bs, nap + child_bits n v bs)
unfolding mark_rounds
mark_rounds-done used zero v bs nap le = ap (λ (k : ℕ). done (bs, k)) (add_zero nap)
mark_rounds-done used (suc n) v bs nap le =
    let nap' = nap + with_child v bs in
    let bs' = children_from used v nap bs in
    let bits = child_bits-eq n (v + 1) bs bs' (λ w. with_child-children_from used w v nap bs) in
    let fits : nap' ≤ length used * 8 = omega arith in
    let sum : nap' + child_bits n (v + 1) bs' ≡ nap + (with_child v bs + child_bits n (v + 1) bs) =
      omega (arith, bits) in
    ground (
      arith,
      mark_children-done used v bs nap (omega arith),
      fits,
      mark_rounds-done used n (v + 1) bs' nap' (omega (arith, bits)),
      sum,
    )

pub mark_rounds-outside :
    (used : List ℕ) (n v : ℕ) (bs : List Beacon) (nap : ℕ)
    → nap ≤ length used * 8
    → length used * 8 < nap + child_bits n v bs
    → mark_rounds used (length used) n v bs nap ≡ out_of_bounds
unfolding mark_rounds
mark_rounds-outside used zero v bs nap le over = absurd (omega arith)
mark_rounds-outside used (suc n) v bs nap le over =
    let nap' = nap + with_child v bs in
    let bs' = children_from used v nap bs in
    let bits = child_bits-eq n (v + 1) bs bs' (λ w. with_child-children_from used w v nap bs) in
    elim (dec_lt (length used * 8) nap') [
      | yes out ↦ ground (arith, mark_children-outside used v bs nap le out)
      | no inside ↦ ground (
        arith,
        mark_children-done used v bs nap (omega arith),
        inside,
        mark_rounds-outside used n (v + 1) bs' nap' (omega arith) (omega (arith, bits)),
      )
    ]
