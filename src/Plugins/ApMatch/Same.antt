-- ===== src/Plugins/ApMatch/Same.antt =====
-- plugins/ap_plugin_basic.c: the count of a request that scans the APs of a cacheline again.
use embedded_client.Mac.Similar.{nibble_diffs, mac_similar_iff}
use embedded_client.Plugins.ApMatch.{
  find_match, count_loop, Beacon, CacheLine, mac_similar, empty_slot, Rctx,
  count_cached_aps_in_request_ctx, max_ap_beacons_max,
}
use embedded_client.Common.{
  [], true, zero, inl, suc, false, refl, some, pos, inr, ◌∷◌, if◌then◌else◌, List, ℕ, Bool, eqb_ℤ,
  get_or, ◌≤◌, ◌<◌, ◌≡◌, length, ◌+◌, arith, ltb, set, Bool-cases, dec_lt, length-set, eqb_ℤ_iff,
  ◌==◌, replicate,
}

nibble_diffs_refl : (mac : List ℕ) → nibble_diffs mac mac ≡ 0
nibble_diffs_refl [] = refl
nibble_diffs_refl (a ∷ mac) = ground (arith, nibble_diffs_refl mac)

similar_refl : (mac : List ℕ) → eqb_ℤ (mac_similar mac mac) (pos 0) ≡ false
similar_refl mac =
    let differs = (mac_similar_iff mac mac).1 (ground (arith, nibble_diffs_refl mac), refl) in
    elim (Bool-cases (eqb_ℤ (mac_similar mac mac) (pos 0))) [
      | inl e ↦ absurd (differs ((eqb_ℤ_iff (mac_similar mac mac) (pos 0)).0 e))
      | inr e ↦ e
    ]

-- The flags below `j` are set, and no other.
abbrev pub Below : List Bool → ℕ → Type 0
Below matched j = (i : ℕ) → get_or matched i false ≡ ltb i j

find_match-next :
    (mac : List ℕ) (cached : List Beacon) (matched : List Bool) (n i j : ℕ)
    → Below matched j
    → i ≤ j
    → j < i + n
    → (get_or cached j empty_slot).ap.mac ≡ mac
    → find_match mac cached matched n i ≡ some j
unfolding find_match
find_match-next mac cached matched zero i j below le lt same = absurd (omega arith)
find_match-next mac cached matched (suc n) i j below le lt same = elim (dec_lt i j) [
  | yes before ↦ ground (arith, below i, find_match-next mac cached matched n (i + 1) j below)
  | no at_j ↦ let e : i ≡ j = omega arith in ground (arith, e, below j, similar_refl mac, same)
]

get_or-set :
    (bs : List Bool) (i k : ℕ) (v : Bool)
    → i < length bs
    → get_or (set bs i v) k false ≡ (if k == i then v else get_or bs k false)
get_or-set [] i k v lt = absurd (omega arith)
get_or-set (b ∷ bs) zero zero v lt = refl
get_or-set (b ∷ bs) zero (suc k) v lt = ground arith
get_or-set (b ∷ bs) (suc i) zero v lt = ground arith
get_or-set (b ∷ bs) (suc i) (suc k) v lt = ground (arith, get_or-set bs i k v)

Below-set :
    (matched : List Bool) (j : ℕ)
    → j < length matched
    → Below matched j
    → Below (set matched j true) (j + 1)
Below-set matched j lt below k = ground (arith, below k, get_or-set matched j k true)

pub count_loop-same :
    (bs : List Beacon) (cl : CacheLine) (n j : ℕ) (matched : List Bool) (num : ℕ)
    → Below matched j
    → j + n ≡ cl.num_ap
    → cl.num_ap ≤ length matched
    → ((i : ℕ)
        → i < cl.num_ap
        → (get_or cl.beacon i empty_slot).ap.mac ≡ (get_or bs i empty_slot).ap.mac)
    → count_loop bs cl n j matched num ≡ num + n
unfolding count_loop
count_loop-same bs cl zero j matched num below all fits same = omega arith
count_loop-same bs cl (suc n) j matched num below all fits same =
    let mac = (get_or bs j empty_slot).ap.mac in
    let e =
      find_match-next mac cl.beacon matched cl.num_ap 0 j below (omega arith) (omega arith)
        (same j (omega arith)) in
    let rest =
      count_loop-same bs cl n (j + 1) (set matched j true) (num + 1)
        (Below-set matched j (omega arith) below) (omega arith)
        (rw (length-set matched j true) fits) same in
    ground (arith, e, rest)

-- The request and the cacheline have the same APs, in the same order.
abbrev pub SameAps : Rctx → CacheLine → Type 0
SameAps r cl =
    (r.num_ap ≡ cl.num_ap)
    × ((i : ℕ)
        → i < cl.num_ap
        → (get_or cl.beacon i empty_slot).ap.mac ≡ (get_or r.beacon i empty_slot).ap.mac)

Below-replicate : (n : ℕ) → Below (replicate n false) 0
Below-replicate zero i = ground arith
Below-replicate (suc n) zero = ground arith
Below-replicate (suc n) (suc i) = ground (arith, Below-replicate n i)

-- Every AP finds its partner.
pub count-same :
    (r : Rctx) (cl : CacheLine)
    → cl.num_ap ≤ max_ap_beacons_max
    → SameAps r cl
    → count_cached_aps_in_request_ctx r cl ≡ r.num_ap
unfolding count_cached_aps_in_request_ctx
count-same r cl fits same =
    let none_yet = replicate max_ap_beacons_max false in
    let counted =
      count_loop-same r.beacon cl r.num_ap 0 none_yet 0 (Below-replicate max_ap_beacons_max)
        (omega (arith, same.0)) fits same.1 in
    omega (arith, counted)
