-- ===== src/Beacons/Remove.antt =====
-- libel/beacons.c: `compare_connected_used` and `remove_beacon`, and the order that the list of
-- beacons of a request context keeps.
use embedded_client.Common.{
  ℕ, zero, suc, ◌+◌, ◌-◌, ◌<◌, ◌≤◌, ◌≡◌, ℤ, pos, negsuc, true, false, not, ◌&&◌, List, [], ◌∷◌, leb,
  if◌then◌else◌, length, get_or, erase_idx, length-erase_idx, arith, ltb, subst, dec_lt,
}
use embedded_client.Types.{
  Beacon, Rctx, Status, success, error, is_ap_type, is_cell_type, num_beacons, empty_slot,
  BeaconType, is_cell, is_ap,
}

-- Positive if `a` has better properties; connected counts more than used.
unfoldable pub compare_connected_used : Beacon → Beacon → ℤ
compare_connected_used a b =
    if a.connected && not b.connected
    then pos 1
    else if b.connected && not a.connected
    then negsuc 0
    else if a.ap.used && not b.ap.used
    then pos 1
    else if b.ap.used && not a.ap.used
    then negsuc 0
    else pos 0

-- `memmove` shifts the later beacons down by one; the last slot in use keeps its content, and is
-- now unused.
unfoldable pub remove_beacon : Rctx → ℕ → Rctx × Status
remove_beacon r index =
    if leb (num_beacons r) index
    then (r, error)
    else (let aps =
          if is_ap_type (get_or r.beacon index empty_slot) then r.num_ap - 1 else r.num_ap in
        (
          record r {
            num_ap = aps;
            beacon = erase_idx r.beacon index;
            spare = get_or r.beacon (num_beacons r - 1) empty_slot ∷ r.spare;
          },
          success,
        ))

-- The first `n` beacons, and no others, are APs; the rest are cells.
abbrev pub ApsFirst : ℕ → List Beacon → Type 0
ApsFirst n [] = n ≡ 0
ApsFirst zero (b ∷ bs) = (is_cell_type b ≡ true) × ApsFirst zero bs
ApsFirst (suc n) (b ∷ bs) = (is_ap_type b ≡ true) × ApsFirst n bs

pub ApsFirst-le-length : (n : ℕ) (bs : List Beacon) → ApsFirst n bs → n ≤ length bs
ApsFirst-le-length n [] h = omega arith
ApsFirst-le-length zero (b ∷ bs) h = omega arith
ApsFirst-le-length (suc n) (b ∷ bs) h = omega (arith, ApsFirst-le-length n bs h.1)

cell-not-ap : (t : BeaconType) → is_cell t ≡ true → is_ap t ≡ false
cell-not-ap t h = ground arith

pub ApsFirst-get_or :
    (n : ℕ) (bs : List Beacon) (i : ℕ)
    → ApsFirst n bs
    → i < length bs
    → is_ap_type (get_or bs i empty_slot) ≡ ltb i n
ApsFirst-get_or n [] i h lt = absurd (omega arith)
ApsFirst-get_or zero (b ∷ bs) zero h lt = ground (arith, cell-not-ap b.type)
ApsFirst-get_or zero (b ∷ bs) (suc i) h lt = ground (arith, ApsFirst-get_or zero bs i h.1)
ApsFirst-get_or (suc n) (b ∷ bs) zero h lt = ground arith
ApsFirst-get_or (suc n) (b ∷ bs) (suc i) h lt = ground (arith, ApsFirst-get_or n bs i h.1)

-- Removing an AP.
ApsFirst-erase_ap :
    (n : ℕ) (bs : List Beacon) (i : ℕ)
    → ApsFirst (suc n) bs
    → i < suc n
    → ApsFirst n (erase_idx bs i)
ApsFirst-erase_ap n [] i h lt = absurd (omega arith)
ApsFirst-erase_ap n (b ∷ bs) zero h lt = h.1
ApsFirst-erase_ap zero (b ∷ bs) (suc i) h lt = absurd (omega arith)
ApsFirst-erase_ap (suc n) (b ∷ bs) (suc i) h lt = (h.0, ApsFirst-erase_ap n bs i h.1 (omega arith))

-- Removing a cell.
ApsFirst-erase_cell :
    (n : ℕ) (bs : List Beacon) (i : ℕ)
    → ApsFirst n bs
    → n ≤ i
    → i < length bs
    → ApsFirst n (erase_idx bs i)
ApsFirst-erase_cell n [] i h le lt = absurd (omega arith)
ApsFirst-erase_cell zero (b ∷ bs) zero h le lt = h.1
ApsFirst-erase_cell zero (b ∷ bs) (suc i) h le lt =
    (h.0, ApsFirst-erase_cell zero bs i h.1 (omega arith) (omega arith))
ApsFirst-erase_cell (suc n) (b ∷ bs) zero h le lt = absurd (omega arith)
ApsFirst-erase_cell (suc n) (b ∷ bs) (suc i) h le lt =
    (h.0, ApsFirst-erase_cell n bs i h.1 (omega arith) (omega arith))

ApsFirst-erase :
    (n : ℕ) (bs : List Beacon) (i : ℕ)
    → ApsFirst n bs
    → i < length bs
    → ApsFirst (if ltb i n then n - 1 else n) (erase_idx bs i)
ApsFirst-erase zero bs i h lt =
    subst (λ k. ApsFirst k (erase_idx bs i)) (ground arith)
      (ApsFirst-erase_cell zero bs i h (omega arith) lt)
ApsFirst-erase (suc n) bs i h lt = elim (dec_lt i (suc n)) [
  | yes below ↦
      subst (λ k. ApsFirst k (erase_idx bs i)) (ground arith) (ApsFirst-erase_ap n bs i h below)
  | no above ↦
      subst (λ k. ApsFirst k (erase_idx bs i)) (ground arith)
        (ApsFirst-erase_cell (suc n) bs i h (omega arith) lt)
]

-- What is left of `r` when one beacon has been taken out: one slot more is unused, the order is
-- kept, and so are the header and the session.
pub record Removed (r q : Rctx) : Type 0 where
  pub ordered : ApsFirst q.num_ap q.beacon
  pub fewer : num_beacons q + 1 ≡ num_beacons r
  pub freed : length q.spare ≡ length r.spare + 1
  pub same_header : q.header ≡ r.header
  pub same_session : q.session ≡ r.session

module _ (r : Rctx) (i : ℕ) (h : ApsFirst r.num_ap r.beacon) (lt : i < num_beacons r) where
  -- With the APs in front, a removal within the list succeeds: one beacon is gone and one slot more is
  -- free, the APs stay in front, and one that was an AP is counted as one AP less.
  pub remove_beacon-Removed :
      ((remove_beacon r i).1 ≡ success)
      × Removed r (remove_beacon r i).0
      × ((remove_beacon r i).0.num_ap ≡ (if ltb i r.num_ap then r.num_ap - 1 else r.num_ap))
  unfolding remove_beacon
  remove_beacon-Removed = ground (
    arith,
    ApsFirst-get_or r.num_ap r.beacon i h lt,
    ApsFirst-erase r.num_ap r.beacon i h lt,
    length-erase_idx r.beacon i lt,
  )
