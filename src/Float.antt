-- ===== src/Float.antt =====
-- IEEE single precision, for the priorities of plugins/ap_plugin_basic.c and
-- plugins/cell_plugin_basic.c: a finite value is its count of 2^-149, the smallest unit, and an
-- operation rounds the exact result to 24 significant bits, ties to even. No priority comes near
-- the largest float, so there is no infinity; a quotient by zero is taken only as 0 / 0.
use embedded_client.Common.{
  ℕ, zero, suc, ◌+◌, ◌-◌, ◌*◌, ◌/◌, ◌%◌, ◌^◌, ℤ, pos, negsuc, pos_part, neg_part, neg, ◌+ℤ◌, ◌-ℤ◌,
  Bool, true, false, not, ltb, ltb_ℤ, eqb_ℤ, ◌==◌, if◌then◌else◌,
}

pub data Float : Type 0 where
  nan : Float
  fin : ℤ → Float

-- The number of binary digits; `fuel` is at least that number.
bits : ℕ → ℕ → ℕ
bits zero n = 0
bits (suc fuel) n = elim (n == 0) [ true ↦ 0 | false ↦ suc (bits fuel (n / 2)) ]

-- p / q in units, rounded.
round : ℕ → ℕ → ℕ
unfolding bits
round p q =
    let step = 2 ^ (bits 400 (p / q) - 24) in
    let d = q * step in
    let n = p / d in
    let r = p % d in
    (if ltb (2 * r) d then n else if ltb d (2 * r) then n + 1 else n + n % 2) * step

round_ℤ : ℤ → ℕ → ℤ
unfolding round
round_ℤ (pos p) q = pos (round p q)
round_ℤ (negsuc p) q = neg (round (suc p) q)

abbrev unit : ℕ
unit = 2 ^ 149

-- `(float)i` for an integer of at most 24 bits
unfoldable pub of_int : ℤ → Float
of_int (pos n) = fin (pos (n * unit))
of_int (negsuc n) = fin (neg (suc n * unit))

-- `(float)i` for any `int`, rounded
unfoldable pub float_of : ℤ → Float
unfolding round_ℤ
float_of (pos n) = fin (round_ℤ (pos (n * unit)) 1)
float_of (negsuc n) = fin (round_ℤ (neg (suc n * unit)) 1)

unfoldable pub add : Float → Float → Float
unfolding round_ℤ ◌+ℤ◌
add (fin a) (fin b) = fin (round_ℤ (a +ℤ b) 1)
add _ _ = nan

unfoldable pub sub : Float → Float → Float
unfolding round_ℤ ◌-ℤ◌
sub (fin a) (fin b) = fin (round_ℤ (a -ℤ b) 1)
sub _ _ = nan

-- The sign of a product or quotient of magnitudes.
abbrev signed : ℤ → ℤ → ℕ → ℤ
signed (pos a) (pos b) m = pos m
signed (pos a) (negsuc b) m = neg m
signed (negsuc a) (pos b) m = neg m
signed (negsuc a) (negsuc b) m = pos m

abbrev magnitude : ℤ → ℕ
magnitude a = pos_part a + neg_part a

unfoldable pub mul : Float → Float → Float
unfolding round_ℤ
mul (fin a) (fin b) = fin (round_ℤ (signed a b (magnitude a * magnitude b)) unit)
mul _ _ = nan

unfoldable pub div : Float → Float → Float
unfolding round_ℤ
div (fin a) (fin b) =
    if magnitude b == 0 then nan else fin (round_ℤ (signed a b (magnitude a * unit)) (magnitude b))
div _ _ = nan

-- A comparison with a NaN is false, and `!=` with one is true.
unfoldable pub lt : Float → Float → Bool
lt (fin a) (fin b) = ltb_ℤ a b
lt _ _ = false

unfoldable pub le : Float → Float → Bool
le (fin a) (fin b) = not (ltb_ℤ b a)
le _ _ = false

unfoldable pub eq : Float → Float → Bool
eq (fin a) (fin b) = eqb_ℤ a b
eq _ _ = false

-- `ABS`
unfoldable pub abs : Float → Float
unfolding lt ◌-ℤ◌
abs nan = nan
abs (fin a) = if lt (fin a) (fin (pos 0)) then fin (pos 0 -ℤ a) else fin a

-- `(int)x`, which cuts towards zero. The source never takes it of a NaN.
unfoldable pub to_int : Float → ℤ
to_int nan = pos 0
to_int (fin (pos n)) = pos (n / unit)
to_int (fin (negsuc n)) = neg (suc n / unit)
