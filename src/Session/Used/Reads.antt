-- ===== src/Session/Used/Reads.antt =====
-- libel/protocol/proto.c: the marks of `apply_used_info_to_ap` in the request, and its reads.
use embedded_client.Session.Escalation.{MarksBeacons}
use embedded_client.Session.Used.{apply_used_info_to_ap, with_child_used}
use embedded_client.Session.Used.Marks.{
  aps_from, children_from, rounds_from, bit_of, with_child, child_bits, child_bits-eq,
  with_child-aps_from, mark_aps-done, mark_rounds-done, mark_aps-outside, mark_rounds-outside,
}
use embedded_client.Types.{Rctx, Beacon, total_beacons_max, max_vap_per_ap_max}
use embedded_client.Beacons.Insert.{done, out_of_bounds}
use embedded_client.Common.{
  refl, zero, [], suc, ◌∷◌, ◌≤◌, ◌<◌, ◌*◌, ◌++◌, Bool, List, ℕ, ◌≡◌, take, if_lem, length, drop,
  ◌+◌, ltb, ap, dec_lt, arith, inl, inr, ◌⊎◌,
}

-- A beacon with other marks.
abbrev pub with_marks : Bool → List Bool → Beacon → Beacon
with_marks u us b = record b { ap = record (b.ap) { used = u; vg_used = us } }

-- The AP `i` of the first list has the bit `nap + i` as its mark in the second; else only the marks of
-- children differ.
abbrev pub MarkedFrom : List ℕ → ℕ → List Beacon → List Beacon → Type 0
MarkedFrom used nap [] [] = Unit {0}
MarkedFrom used nap [] (c ∷ cs) = ⊥
MarkedFrom used nap (b ∷ bs) [] = ⊥
MarkedFrom used nap (b ∷ bs) (c ∷ cs) =
    (c ≡ with_marks (bit_of used nap) c.ap.vg_used b) × MarkedFrom used (nap + 1) bs cs

aps_from-MarkedFrom :
    (used : List ℕ) (nap : ℕ) (bs : List Beacon) → MarkedFrom used nap bs (aps_from used nap bs)
aps_from-MarkedFrom used nap [] = tt
aps_from-MarkedFrom used nap (b ∷ bs) = (refl, aps_from-MarkedFrom used (nap + 1) bs)

children_from-MarkedFrom :
    (used : List ℕ) (nap v bit : ℕ) (bs cs : List Beacon)
    → MarkedFrom used nap bs cs
    → MarkedFrom used nap bs (children_from used v bit cs)
children_from-MarkedFrom used nap v bit [] [] m = tt
children_from-MarkedFrom used nap v bit [] (c ∷ cs) m = absurd m
children_from-MarkedFrom used nap v bit (b ∷ bs) [] m = absurd m
children_from-MarkedFrom used nap v bit (b ∷ bs) (c ∷ cs) (e, m) =
    if_lem (MarkedFrom used nap (b ∷ bs)) (ltb v c.ap.vg_len)
      (with_child_used v (bit_of used bit) c ∷ children_from used v (bit + 1) cs)
      (c ∷ children_from used v bit cs)
      (λ _. (
        ap (with_child_used v (bit_of used bit)) e,
        children_from-MarkedFrom used (nap + 1) v (bit + 1) bs cs m,
      ))
      (λ _. (e, children_from-MarkedFrom used (nap + 1) v bit bs cs m))

rounds_from-MarkedFrom :
    (used : List ℕ) (n nap v bit : ℕ) (bs cs : List Beacon)
    → MarkedFrom used nap bs cs
    → MarkedFrom used nap bs (rounds_from used n v bit cs)
rounds_from-MarkedFrom used zero nap v bit bs cs m = m
rounds_from-MarkedFrom used (suc n) nap v bit bs cs m =
    rounds_from-MarkedFrom used n nap (v + 1) (bit + with_child v cs) bs
      (children_from used v bit cs) (children_from-MarkedFrom used nap v bit bs cs m)

-- The number of marks that a request has room for.
abbrev pub bits_read : Rctx → ℕ
bits_read r =
    let bs = take r.num_ap r.beacon in length bs + child_bits r.session.config.max_vap_per_ap 0 bs

module _ (r : Rctx) (used : List ℕ) where
  abbrev aps : List Beacon
  aps = take r.num_ap r.beacon

  marked_aps : List Beacon
  marked_aps = aps_from used 0 aps

  apply-done :
      length used ≤ total_beacons_max * max_vap_per_ap_max
      → bits_read r ≤ length used * 8
      → (bs : List Beacon) × (apply_used_info_to_ap r used (length used)
          ≡ done (record r { beacon = bs ++ drop r.num_ap r.beacon }))
        × MarkedFrom used 0 aps bs
  unfolding apply_used_info_to_ap marked_aps
  apply-done small enough =
      let n = r.session.config.max_vap_per_ap in
      let nap = 0 + length aps in
      let bits = child_bits-eq n 0 aps marked_aps (λ w. with_child-aps_from used w 0 aps) in
      let read = mark_aps-done used aps 0 (omega arith) in
      let children_read = mark_rounds-done used n 0 marked_aps nap (omega (arith, bits)) in
      (
        rounds_from used n 0 nap marked_aps,
        ground (arith, read, children_read, small),
        rounds_from-MarkedFrom used n 0 0 nap aps marked_aps (aps_from-MarkedFrom used 0 aps),
      )

  apply-outside :
      length used ≤ total_beacons_max * max_vap_per_ap_max
      → length used * 8 < bits_read r
      → apply_used_info_to_ap r used (length used) ≡ out_of_bounds
  unfolding apply_used_info_to_ap marked_aps
  apply-outside small short =
      let n = r.session.config.max_vap_per_ap in
      let nap = 0 + length aps in
      let bits = child_bits-eq n 0 aps marked_aps (λ w. with_child-aps_from used w 0 aps) in
      elim (dec_lt (length used * 8) (length aps)) [
        | yes out ↦ ground (arith, mark_aps-outside used aps 0 (omega arith) (omega arith), small)
        | no inside ↦ ground (
          arith,
          mark_aps-done used aps 0 (omega arith),
          mark_rounds-outside used n 0 marked_aps nap (omega arith) (omega (arith, bits)),
          small,
        )
      ]

-- Of a reply with at most TOTAL_BEACONS * MAX_VAP_PER_AP bytes of marks: if they have a bit for every
-- AP and for every child of a virtual group that is visited, then each AP gets the bit of its own index
-- as its mark, and but for the marks of the children nothing else changes; if they have fewer, a byte
-- outside them is read.
pub apply_used_info_to_ap-Marked :
    (r : Rctx) (used : List ℕ)
    → length used ≤ total_beacons_max * max_vap_per_ap_max
    → ((bits_read r ≤ length used * 8)
        × (bs : List Beacon) × (apply_used_info_to_ap r used (length used)
            ≡ done (record r { beacon = bs ++ drop r.num_ap r.beacon }))
        × MarkedFrom used 0 (take r.num_ap r.beacon) bs)
      ⊎ ((length used * 8 < bits_read r)
          × (apply_used_info_to_ap r used (length used) ≡ out_of_bounds))
apply_used_info_to_ap-Marked r used small = elim (dec_lt (length used * 8) (bits_read r)) [
  | yes short ↦ inr (short, apply-outside r used small short)
  | no enough ↦
      let (bs, e, marks) = apply-done r used small (omega arith) in inl (omega arith, bs, e, marks)
]

-- The request with the marks of a reply; a read outside them, which is undefined, leaves it as it is.
abbrev pub mark_by : List ℕ → Rctx → Rctx
mark_by used r = elim (apply_used_info_to_ap r used (length used)) [
  | out_of_bounds ↦ r
  | done q ↦ q
]

-- Whatever the bytes are, the marks change neither the session nor the authentication state.
pub mark_by-MarksBeacons : (used : List ℕ) → MarksBeacons (mark_by used)
unfolding apply_used_info_to_ap
mark_by-MarksBeacons used r = ground arith
