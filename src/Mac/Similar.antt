-- ===== src/Mac/Similar.antt =====
-- `mac_similar` of plugins/ap_plugin_basic.c against a count of differing nibbles.
use embedded_client.Common.{
  ℕ, ◌+◌, ◌≤◌, ◌<◌, ◌≡◌, refl, ◌≢◌, ◌↔◌, ℤ, pos, List, [], ◌∷◌, none, some, bit_and, ◌==◌,
  if◌then◌else◌, arith, subst, every_below, ==_iff, true, every_below_at, sub_ℕ,
}
use embedded_client.Mac.{
  Scan, compare_nibble, compare_byte, and_then, similar_loop, similar_result, mac_similar,
  local_admin, memcmp,
}

abbrev nibble_diff : ℕ → ℕ → ℕ → ℕ
nibble_diff mask a b = if bit_and a mask == bit_and b mask then 0 else 1

-- The number of hexadecimal digits in which two addresses differ.
abbrev pub nibble_diffs : List ℕ → List ℕ → ℕ
nibble_diffs (a ∷ as') (b ∷ bs) = nibble_diff 0xF0 a b + nibble_diff 0x0F a b + nibble_diffs as' bs
nibble_diffs _ _ = 0

-- A scan that starts after `d` differences goes on for as long as there is at most one in all.
abbrev Counts : ℕ → Scan → Type 0
Counts n none = 2 ≤ n
Counts n (some (d, r)) = (d ≡ n) × (n ≤ 1) × (r ≢ pos 0)

Counts-compare_byte :
    (n a b : ℕ) (s : Scan)
    → Counts n s
    → Counts (n + (nibble_diff 0xF0 a b + nibble_diff 0x0F a b)) (and_then s (compare_byte a b))
unfolding compare_byte
Counts-compare_byte n a b none h = omega arith
Counts-compare_byte n a b (some (d, r)) h = ground arith

Counts-similar_loop :
    (n m : ℕ) (as' bs : List ℕ) (s : Scan)
    → n + nibble_diffs as' bs ≡ m
    → Counts n s
    → Counts m (similar_loop as' bs s)
unfolding similar_loop
Counts-similar_loop n m [] bs s e h = subst (λ k. Counts k s) (omega arith) h
Counts-similar_loop n m (a ∷ as') [] s e h = subst (λ k. Counts k s) (omega arith) h
Counts-similar_loop n m (a ∷ as') (b ∷ bs) s e h =
    Counts-similar_loop (n + (nibble_diff 0xF0 a b + nibble_diff 0x0F a b)) m as' bs
      (and_then s (compare_byte a b)) (omega arith) (Counts-compare_byte n a b s h)

similar_result_iff :
    (a b : List ℕ) (n : ℕ) (s : Scan)
    → Counts n s
    → (similar_result a b s ≢ pos 0) ↔ ((n ≤ 1) × (local_admin a ≡ local_admin b))
unfolding similar_result
similar_result_iff a b n none h = ground arith
similar_result_iff a b n (some (d, r)) h = ground arith

-- Two addresses belong to one virtual group (the result is not 0) exactly when they differ in at
-- most one hexadecimal digit and their local-administration bits agree.
pub mac_similar_iff :
    (a b : List ℕ)
    → (mac_similar a b ≢ pos 0) ↔ ((nibble_diffs a b ≤ 1) × (local_admin a ≡ local_admin b))
unfolding mac_similar
mac_similar_iff a b = similar_result_iff a b (nibble_diffs a b) _ (
    Counts-similar_loop 0 (nibble_diffs a b) a b (some (0, pos 1)) (omega arith)
      (refl, omega arith, λ e. cc))

abbrev pub AreBytes : List ℕ → Type 0
AreBytes [] = Unit {0}
AreBytes (a ∷ as') = (a < 256) × AreBytes as'

nibbles_table : every_below (λ x. bit_and x 0xF0 + bit_and x 0x0F == x) 256 ≡ true
unfolding every_below
nibbles_table = refl

nibbles_sum : (x : ℕ) → x < 256 → bit_and x 0xF0 + bit_and x 0x0F ≡ x
nibbles_sum x h = (==_iff _ x).0 (every_below_at _ 256 x h nibbles_table)

-- With one difference found and none to come, the scan keeps its result.
similar_loop_rest :
    (as' bs : List ℕ) (r : ℤ)
    → nibble_diffs as' bs ≡ 0
    → similar_loop as' bs (some (1, r)) ≡ some (1, r)
unfolding similar_loop compare_byte compare_nibble
similar_loop_rest [] bs r h = refl
similar_loop_rest (a ∷ as') [] r h = refl
similar_loop_rest (a ∷ as') (b ∷ bs) r h = ground (arith, similar_loop_rest as' bs r)

similar_loop-memcmp :
    (as' bs : List ℕ) (r : ℤ)
    → AreBytes as'
    → AreBytes bs
    → nibble_diffs as' bs ≡ 1
    → similar_loop as' bs (some (0, r)) ≡ some (1, memcmp as' bs)
unfolding similar_loop compare_byte compare_nibble memcmp
similar_loop-memcmp [] bs r ha hb h = absurd (omega arith)
similar_loop-memcmp (a ∷ as') [] r ha hb h = absurd (omega arith)
similar_loop-memcmp (a ∷ as') (b ∷ bs) r ha hb h = ground (
  arith,
  nibbles_sum a,
  nibbles_sum b,
  similar_loop-memcmp as' bs r,
  similar_loop_rest as' bs (sub_ℕ a b),
)

-- For addresses of bytes that differ in one digit, and have the same local-administration bit, the
-- result is what `memcmp` gives.
pub mac_similar-memcmp :
    (a b : List ℕ)
    → AreBytes a
    → AreBytes b
    → nibble_diffs a b ≡ 1
    → local_admin a ≡ local_admin b
    → mac_similar a b ≡ memcmp a b
unfolding mac_similar similar_result
mac_similar-memcmp a b ha hb d e = ground (arith, similar_loop-memcmp a b (pos 1) ha hb d)
