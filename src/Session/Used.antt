-- ===== src/Session/Used.antt =====
-- libel/protocol/proto.c: `apply_used_info_to_ap`, which marks the APs, and the children of virtual
-- groups, that the server has used. A read outside the bytes of the reply is `out_of_bounds`.
pub mod Marks
pub mod Reads
use embedded_client.Types.{Rctx, Beacon, total_beacons_max, max_vap_per_ap_max}
use embedded_client.Beacons.Insert.{out_of_bounds, done, Run}
use embedded_client.Common.{
  ℕ, true, suc, none, some, false, zero, [], ◌∷◌, ◌==◌, ◌*◌, ◌/◌, ◌%◌, ◌^◌, ◌-◌, ◌++◌,
  if◌then◌else◌, List, Bool, Option, leb, set, ltb, get_elem?, ◌+◌, not, bit_and, take, drop,
}

-- `GET_USED_AP`: of `size` bytes, the last holds the first bits.
unfoldable pub get_used_ap : List ℕ → ℕ → ℕ → Option Bool
get_used_ap used size n =
    if leb size (n / 8) then none else elim (get_elem? used (size - 1 - n / 8)) [
      | none ↦ none
      | some u ↦ some (not (bit_and u (2 ^ (n % 8)) == 0))
    ]

abbrev pub with_used : Bool → Beacon → Beacon
with_used u b = record b { ap = record (b.ap) { used = u } }

abbrev pub with_child_used : ℕ → Bool → Beacon → Beacon
with_child_used v u b = record b { ap = record (b.ap) { vg_used = set b.ap.vg_used v u } }

-- The first loop, over the APs left, with `nap` bits read: the APs, and `nap` after it.
unfoldable pub mark_aps : List ℕ → ℕ → List Beacon → ℕ → Run (List Beacon × ℕ)
mark_aps used size [] nap = done ([], nap)
mark_aps used size (b ∷ bs) nap = elim (get_used_ap used size nap) [
  | none ↦ out_of_bounds
  | some u ↦ elim (ltb (size * 8) nap) [
    | true ↦ done (with_used u b ∷ bs, nap + 1)
    | false ↦ elim (mark_aps used size bs (nap + 1)) [
      | out_of_bounds ↦ out_of_bounds
      | done (bs', nap') ↦ done (with_used u b ∷ bs', nap')
    ]
  ]
]

-- The inner of the two other loops, over the children `v` of the APs left.
unfoldable pub mark_children : List ℕ → ℕ → ℕ → List Beacon → ℕ → Run (List Beacon × ℕ)
mark_children used size v [] nap = done ([], nap)
mark_children used size v (b ∷ bs) nap = elim (ltb v b.ap.vg_len) [
  | false ↦ elim (mark_children used size v bs nap) [
    | out_of_bounds ↦ out_of_bounds
    | done (bs', nap') ↦ done (b ∷ bs', nap')
  ]
  | true ↦ elim (get_used_ap used size nap) [
    | none ↦ out_of_bounds
    | some u ↦ elim (ltb (size * 8) nap) [
      | true ↦ done (with_child_used v u b ∷ bs, nap + 1)
      | false ↦ elim (mark_children used size v bs (nap + 1)) [
        | out_of_bounds ↦ out_of_bounds
        | done (bs', nap') ↦ done (with_child_used v u b ∷ bs', nap')
      ]
    ]
  ]
]

-- The outer loop: `n` rounds from `v` on.
unfoldable pub mark_rounds : List ℕ → ℕ → ℕ → ℕ → List Beacon → ℕ → Run (List Beacon × ℕ)
mark_rounds used size zero v bs nap = done (bs, nap)
mark_rounds used size (suc n) v bs nap = elim (mark_children used size v bs nap) [
  | out_of_bounds ↦ out_of_bounds
  | done (bs', nap') ↦ elim (ltb (size * 8) nap') [
    | true ↦ done (bs', nap')
    | false ↦ mark_rounds used size n (v + 1) bs' nap'
  ]
]

abbrev marked : List ℕ → ℕ → ℕ → Run (List Beacon × ℕ) → Run (List Beacon × ℕ)
marked used size n out_of_bounds = out_of_bounds
marked used size n (done (bs, nap)) = mark_rounds used size n 0 bs nap

-- The request after it; the callers do not look at the result.
unfoldable pub apply_used_info_to_ap : Rctx → List ℕ → ℕ → Run Rctx
apply_used_info_to_ap r used size =
    if ltb (total_beacons_max * max_vap_per_ap_max) size
    then done r
    else elim (marked used size r.session.config.max_vap_per_ap
        (mark_aps used size (take r.num_ap r.beacon) 0)) [
          | out_of_bounds ↦ out_of_bounds
          | done (bs, nap) ↦ done (record r { beacon = bs ++ drop r.num_ap r.beacon })
        ]
