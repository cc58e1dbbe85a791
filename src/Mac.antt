-- ===== src/Mac.antt =====
-- Mac addresses: `memcmp` as libel/beacons.h uses it, and `mac_similar` of
-- plugins/ap_plugin_basic.c. Every call of the latter passes NULL for `pn`, so the index of the
-- nibble is left out.
pub mod Similar
use embedded_client.Common.{
  ℕ, ◌+◌, ℤ, pos, sub_ℕ, List, [], ◌∷◌, Option, none, some, bit_and, ltb, ◌==◌, if◌then◌else◌,
  get_or,
}

-- Only the sign of `memcmp` is specified, and only the sign is used.
unfoldable pub memcmp : List ℕ → List ℕ → ℤ
memcmp (a ∷ as') (b ∷ bs) = if a == b then memcmp as' bs else sub_ℕ a b
memcmp _ _ = pos 0

-- `num_diff` and `result`; `none` is the early `return 0`.
abbrev pub Scan : Type 0
Scan = Option (ℕ × ℤ)

-- The loop's body at a nibble: `mask` is `NIBBLE_MASK(n)`, and `a` and `b` are the bytes n / 2.
compare_nibble : ℕ → ℕ → ℕ → ℕ × ℤ → Scan
compare_nibble mask a b (num_diff, result) =
    if bit_and a mask == bit_and b mask
    then some (num_diff, result)
    else if ltb 1 (num_diff + 1)
    then none
    else some (num_diff + 1, sub_ℕ a b)

abbrev and_then : Scan → (ℕ × ℤ → Scan) → Scan
and_then none f = none
and_then (some s) f = f s

compare_byte : ℕ → ℕ → ℕ × ℤ → Scan
unfolding compare_nibble
compare_byte a b s = and_then (compare_nibble 0xF0 a b s) (compare_nibble 0x0F a b)

similar_loop : List ℕ → List ℕ → Scan → Scan
similar_loop (a ∷ as') (b ∷ bs) s = similar_loop as' bs (and_then s (compare_byte a b))
similar_loop _ _ s = s

-- `LOCAL_ADMIN_MASK` of the first byte.
abbrev pub local_admin : List ℕ → ℕ
local_admin mac = bit_and 0x02 (get_or mac 0 0)

similar_result : List ℕ → List ℕ → Scan → ℤ
similar_result a b none = pos 0
similar_result a b (some (num_diff, result)) =
    if local_admin a == local_admin b then result else pos 0

unfoldable pub mac_similar : List ℕ → List ℕ → ℤ
unfolding similar_loop similar_result compare_byte
mac_similar a b = similar_result a b (similar_loop a b (some (0, pos 1)))
