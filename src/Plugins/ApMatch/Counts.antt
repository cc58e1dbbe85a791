-- ===== src/Plugins/ApMatch/Counts.antt =====
-- plugins/ap_plugin_basic.c: bounds of the counts that `match` compares.
use embedded_client.Plugins.ApMatch.{
  find_match, count_loop, Beacon, CacheLine, empty_slot, mark_redundant, uniq_loop,
  count_cached_aps_in_request_ctx, max_ap_beacons_max, count_uniq_vg, Rctx,
}
use embedded_client.Common.{
  inr, zero, false, true, none, suc, inl, some, [], ◌∷◌, List, ℕ, Bool, ◌≤◌, ◌<◌, arith, length,
  ◌+◌, get_or, ◌≡◌, set, Option-cases, if◌then◌else◌, Option, length-set, refl, replicate, subst,
  ◌⊎◌,
}

-- An index within the `n` from `i` on whose flag is not set.
abbrev FreeAt : List Bool → ℕ → ℕ → Option ℕ → Type 0
FreeAt matched n i none = Unit {0}
FreeAt matched n i (some k) = (i ≤ k) × (k < i + n) × (get_or matched k false ≡ false)

find_match-FreeAt :
    (mac : List ℕ) (cached : List Beacon) (matched : List Bool) (n i : ℕ)
    → FreeAt matched n i (find_match mac cached matched n i)
unfolding find_match
find_match-FreeAt mac cached matched zero i = tt
find_match-FreeAt mac cached matched (suc n) i =
    ground (arith, find_match-FreeAt mac cached matched n (i + 1))

-- The number of the first `n` flags that are not set.
abbrev free : List Bool → ℕ → ℕ
free [] n = 0
free (b ∷ bs) zero = 0
free (b ∷ bs) (suc n) = (if b then 0 else 1) + free bs n

free-le : (bs : List Bool) (n : ℕ) → free bs n ≤ n
free-le [] n = omega arith
free-le (b ∷ bs) zero = omega arith
free-le (b ∷ bs) (suc n) = ground (arith, free-le bs n)

-- A flag that is set takes its place away.
free-set :
    (bs : List Bool) (n i : ℕ)
    → i < n
    → n ≤ length bs
    → get_or bs i false ≡ false
    → free (set bs i true) n + 1 ≡ free bs n
free-set [] n i lt le e = absurd (omega arith)
free-set (b ∷ bs) zero i lt le e = absurd (omega arith)
free-set (b ∷ bs) (suc n) zero lt le e = ground arith
free-set (b ∷ bs) (suc n) (suc i) lt le e = ground (arith, free-set bs n i)

count_loop-le :
    (bs : List Beacon) (cl : CacheLine) (n j : ℕ) (matched : List Bool) (num : ℕ)
    → cl.num_ap ≤ length matched
    → (count_loop bs cl n j matched num ≤ num + n)
      × (count_loop bs cl n j matched num ≤ num + free matched cl.num_ap)
      × (num ≤ count_loop bs cl n j matched num)
unfolding count_loop
count_loop-le bs cl zero j matched num fits = ground arith
count_loop-le bs cl (suc n) j matched num fits =
    let mac = (get_or bs j empty_slot).ap.mac in
    elim (Option-cases (find_match mac cl.beacon matched cl.num_ap 0)) [
      | inl e ↦ ground (arith, e, count_loop-le bs cl n (j + 1) matched num)
      | inr (k, e) ↦
          let at_k =
            subst (FreeAt matched cl.num_ap 0) e
              (find_match-FreeAt mac cl.beacon matched cl.num_ap 0) in
          ground (
            arith,
            e,
            at_k,
            free-set matched cl.num_ap k,
            length-set matched k true,
            count_loop-le bs cl n (j + 1) (set matched k true) (num + 1),
          )
    ]

length-mark_redundant :
    (mac : List ℕ) (bs : List Beacon) (n j : ℕ) (redundant : List Bool)
    → length (mark_redundant mac bs n j redundant) ≡ length redundant
unfolding mark_redundant
length-mark_redundant mac bs zero j redundant = refl
length-mark_redundant mac bs (suc n) j redundant = ground (
  arith,
  length-set redundant j true,
  length-mark_redundant mac bs n (j + 1) redundant,
  length-mark_redundant mac bs n (j + 1) (set redundant j true),
)

uniq_loop-le :
    (bs : List Beacon) (n i : ℕ) (redundant : List Bool) (num : ℕ)
    → (uniq_loop bs n i redundant num ≤ num + n) × (num ≤ uniq_loop bs n i redundant num)
unfolding uniq_loop
uniq_loop-le bs zero i redundant num = ground arith
uniq_loop-le bs (suc n) i redundant num =
    let marked = mark_redundant (get_or bs i empty_slot).ap.mac bs n (i + 1) redundant in
    ground
      (arith, uniq_loop-le bs n (i + 1) redundant num, uniq_loop-le bs n (i + 1) marked (num + 1))

get_or-replicate : (n i : ℕ) → get_or (replicate n false) i false ≡ false
get_or-replicate zero i = refl
get_or-replicate (suc n) zero = refl
get_or-replicate (suc n) (suc i) = get_or-replicate n i

uniq_loop-pos :
    (bs : List Beacon) (n : ℕ) → 0 < n → 0 < uniq_loop bs n 0 (replicate max_ap_beacons_max false) 0
unfolding uniq_loop
uniq_loop-pos bs zero lt = lt
uniq_loop-pos bs (suc n) lt =
    let none_yet = replicate max_ap_beacons_max false in
    let marked = mark_redundant (get_or bs 0 empty_slot).ap.mac bs n 1 none_yet in
    ground (arith, uniq_loop-le bs n 1 marked 1)

-- For a cacheline of at most MAX_AP_BEACONS APs: the APs that it shares with the request are at most
-- as many as either has, so that the size of the union is not negative; a request with APs has at
-- least one virtual group, and at most as many as APs.
pub counts-bounds :
    (r : Rctx) (cl : CacheLine)
    → cl.num_ap ≤ max_ap_beacons_max
    → (count_cached_aps_in_request_ctx r cl ≤ r.num_ap)
      × (count_cached_aps_in_request_ctx r cl ≤ cl.num_ap)
      × (count_uniq_vg r ≤ r.num_ap)
      × ((r.num_ap ≡ 0) ⊎ (0 < count_uniq_vg r))
unfolding count_cached_aps_in_request_ctx count_uniq_vg
counts-bounds r cl fits =
    let none_yet = replicate max_ap_beacons_max false in
    ground (
      arith,
      count_loop-le r.beacon cl r.num_ap 0 none_yet 0,
      free-le none_yet cl.num_ap,
      uniq_loop-le r.beacon r.num_ap 0 none_yet 0,
      uniq_loop-pos r.beacon r.num_ap,
    )
