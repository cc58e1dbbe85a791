-- ===== src/Tests/Groups.antt =====
-- Virtual groups, and the marks of the APs that the server has used.
use embedded_client.Session.Used.{
  apply_used_info_to_ap, mark_aps, mark_children, mark_rounds, get_used_ap,
}
use embedded_client.Session.Used.Reads.{bits_read, MarkedFrom, apply_used_info_to_ap-Marked}
use embedded_client.Beacons.Insert.{out_of_bounds, done, Run}
use embedded_client.Tests.Samples.{sample_request, sample_ap, sample_session, sample_lte}
use embedded_client.Vaps.{select_vap, goes_on, kept, rounds, pass, complete}
use embedded_client.Vaps.Groups.{Trimmed, select_vap-Trimmed, kept_children, select_vap-ends}
use embedded_client.Vaps.Rounds.{ChildrenFit}
use embedded_client.Types.{Rctx, Beacon, max_ap_beacons_max}
use embedded_client.Common.{
  refl, false, true, [], ◌∷◌, ◌⊎◌, ◌≤◌, ◌<◌, ℕ, take, ◌≡◌, arith, neg, ◌+◌, replicate, ◌*◌, ◌++◌,
  List, drop, Bool, map,
}

-- An AP that stands for a group with `children` more.
abbrev group_ap : ℕ → ℕ → Beacon
group_ap n children = record (sample_ap n (neg 60)) {
  ap = record ((sample_ap n (neg 60)).ap) { vg_len = children };
}

-- 14 children in four groups, of which a request may hold 12.
abbrev groups_request : Rctx
groups_request = sample_request sample_session 5 (
    group_ap 0x10 4
    ∷ group_ap 0x21 4
    ∷ group_ap 0x32 0
    ∷ group_ap 0x43 4
    ∷ group_ap 0x54 2
    ∷ sample_lte
    ∷ [])

abbrev groups_fit : ChildrenFit (take 5 groups_request.beacon)
groups_fit = omega arith

select_vap-Trimmed_example : Trimmed groups_request (select_vap groups_request)
select_vap-Trimmed_example =
    select_vap-Trimmed groups_request groups_fit (omega arith) (omega arith)

-- The last two groups with a fourth child go without it.
cut_down : kept_children (take 5 (select_vap groups_request).beacon) ≡ 4 ∷ 3 ∷ 0 ∷ 3 ∷ 2 ∷ []
unfolding select_vap kept rounds pass complete
cut_down = refl

select_vap-ends_example :
    (goes_on 12 (kept groups_request).1 ≡ false)
    × (rounds
          (12 + 1 + 7)
          12
          (take 5 groups_request.beacon)
          (replicate max_ap_beacons_max 0)
          (record { nvap = 0; no_more = false })
        ≡ kept groups_request)
select_vap-ends_example = select_vap-ends groups_request 7 groups_fit (omega arith) (omega arith)

-- Five APs and 14 children, and the marks of the second AP, the fourth AP and the last child.
abbrev three_bytes : List ℕ
three_bytes = 0x04 ∷ 0x00 ∷ 0x0A ∷ []

apply_used_info_to_ap-Marked_example :
    ((bits_read groups_request ≤ 3 * 8)
      × (bs : List Beacon) × (apply_used_info_to_ap groups_request three_bytes 3
          ≡ done (record groups_request { beacon = bs ++ drop 5 groups_request.beacon }))
      × MarkedFrom three_bytes 0 (take 5 groups_request.beacon) bs)
    ⊎ ((3 * 8 < bits_read groups_request)
        × (apply_used_info_to_ap groups_request three_bytes 3 ≡ out_of_bounds))
apply_used_info_to_ap-Marked_example =
    apply_used_info_to_ap-Marked groups_request three_bytes (omega arith)

abbrev marks_of : Run Rctx → List Bool
marks_of out_of_bounds = []
marks_of (done r) = map (λ (b : Beacon). b.ap.used) r.beacon

marked_aps :
    marks_of (apply_used_info_to_ap groups_request three_bytes 3)
    ≡ false ∷ true ∷ false ∷ true ∷ false ∷ false ∷ []
unfolding apply_used_info_to_ap mark_aps mark_children mark_rounds get_used_ap
marked_aps = refl

-- Two bytes are one too few for the 19 marks.
too_few : apply_used_info_to_ap groups_request (0x00 ∷ 0x0A ∷ []) 2 ≡ out_of_bounds
unfolding apply_used_info_to_ap mark_aps mark_children mark_rounds get_used_ap
too_few = refl
