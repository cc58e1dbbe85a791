-- ===== src/Vaps.antt =====
-- libel/utilities.c: the virtual groups of a request: `select_vap`, which cuts their children down
-- to what a request may hold, and the fields that the encoder reads.
pub mod Rounds
pub mod Select
pub mod Groups
pub mod Counts
use embedded_client.Types.{Rctx, Beacon, max_ap_beacons_max}
use embedded_client.Common.{
  ℕ, suc, some, true, false, zero, none, [], ◌∷◌, ◌==◌, ◌&&◌, ◌%◌, ◌++◌, if◌then◌else◌, Bool, List,
  ◌+◌, not, take, Option, ltb, replicate, drop,
}

-- `nvap` and `no_more`
pub record Round : Type 0 where
  pub nvap : ℕ
  pub no_more : Bool

-- The inner loop: `cap_vap` is a `uint8_t` for each of MAX_AP_BEACONS APs. It ends early when `limit`
-- is reached.
unfoldable pub pass : ℕ → List Beacon → List ℕ → Round → List ℕ × Round
pass limit [] caps s = (caps, s)
pass limit (b ∷ bs) [] s = ([], s)
pass limit (b ∷ bs) (n ∷ caps) s =
    let n' = (n + 1) % 256 in
    let nvap' = s.nvap + 1 in
    let more : Round = record { nvap = nvap'; no_more = s.no_more && not (ltb n' b.ap.vg_len) } in
    elim (ltb n b.ap.vg_len) [
      | false ↦ (n ∷ (pass limit bs caps s).0, (pass limit bs caps s).1)
      | true ↦ elim (nvap' == limit) [
        | true ↦ (n' ∷ caps, record s { nvap = nvap' })
        | false ↦ (n' ∷ (pass limit bs caps more).0, (pass limit bs caps more).1)
      ]
    ]

-- The test of the outer loop.
abbrev pub goes_on : ℕ → Round → Bool
goes_on limit s = not s.no_more && ltb s.nvap limit

-- The outer loop.
unfoldable pub rounds : ℕ → ℕ → List Beacon → List ℕ → Round → List ℕ × Round
rounds zero limit bs caps s = (caps, s)
rounds (suc fuel) limit bs caps s = elim (goes_on limit s) [
  | false ↦ (caps, s)
  | true ↦
      let (caps', s') = pass limit bs caps (record s { no_more = true }) in
      rounds fuel limit bs caps' s'
]

-- The last loop, over the APs from index `j` on.
unfoldable pub complete : List Beacon → List ℕ → ℕ → List Beacon
complete [] caps j = []
complete (b ∷ bs) [] j = b ∷ bs
complete (b ∷ bs) (n ∷ caps) j =
    record b {
      ap = record (b.ap) { vap_parent = j % 256; vap_length = if n == 0 then 0 else (n + 1) % 256 };
    }
    ∷ complete bs caps (j + 1)

-- The numbers of children that are kept, and the loop's variables at its end.
unfoldable pub kept : Rctx → List ℕ × Round
kept r =
    let limit = r.session.config.max_vap_per_rq in
    rounds (limit + 1) limit (take r.num_ap r.beacon) (replicate max_ap_beacons_max 0)
      (record { nvap = 0; no_more = false })

unfoldable pub select_vap : Rctx → Rctx
select_vap r = record r {
  beacon = complete (take r.num_ap r.beacon) (kept r).0 0 ++ drop r.num_ap r.beacon;
}

abbrev pub is_group : Beacon → Bool
is_group b = not (b.ap.vap_length == 0)

unfoldable pub count_groups : List Beacon → ℕ → ℕ
count_groups [] nv = nv
count_groups (b ∷ bs) nv = count_groups bs (nv + (if is_group b then 1 else 0))

unfoldable pub get_num_vaps : Rctx → ℕ
get_num_vaps r = count_groups (take r.num_ap r.beacon) 0

-- The search of the group `idx`, with `nvg` groups passed.
unfoldable pub find_group : List Beacon → ℕ → ℕ → Option Beacon
find_group [] idx nvg = none
find_group (b ∷ bs) idx nvg =
    let rest = find_group bs idx (nvg + (if is_group b then 1 else 0)) in
    if is_group b && (nvg == idx) then some b else rest

-- The AP whose virtual group is asked for; `none` is NULL.
unfoldable pub get_vap_data : Rctx → ℕ → Option Beacon
get_vap_data r idx = find_group (take r.num_ap r.beacon) idx 0
