-- ===== src/Hex/RoundTrip.antt =====
-- sample_client/config.c: bytes printed in hexadecimal digits and read again.
use embedded_client.Mac.Similar.{AreBytes}
use embedded_client.Beacons.Insert.{done}
use embedded_client.Hex.{
  digit, letter_of, hex_loop, hex_char, bit_or, put_digit, bin2hex, hex2bin, hex_digits,
}
use embedded_client.Common.{
  false, [], refl, true, ◌∷◌, ◌==◌, ◌<◌, ◌*◌, ◌/◌, ◌%◌, ◌++◌, every_below, ℕ, List, set, get_or,
  length, ◌≡◌, ◌+◌, arith, every_below_at, ap, zero_add, ==_iff, suc, ◌∙◌, if◌then◌else◌, leb, some,
  ◌≤◌, Bool, dec_lt, sym,
}

letter_of-hex_char : (d : ℕ) → d < 16 → letter_of (hex_char d) ≡ digit d
unfolding letter_of
letter_of-hex_char d lt = ground arith

or_table : every_below (λ h. every_below (λ d. bit_or (h * 16 % 256) d == h * 16 + d) 16) 16 ≡ true
unfolding every_below
or_table = refl

bit_or_digits : (h d : ℕ) → h < 16 → d < 16 → bit_or (h * 16 % 256) d ≡ h * 16 + d
bit_or_digits h d small small' =
    let row =
      every_below_at (λ (x : ℕ). every_below (λ (y : ℕ). bit_or (x * 16 % 256) y == x * 16 + y) 16)
        16 h small or_table in
    let cell = every_below_at (λ (y : ℕ). bit_or (h * 16 % 256) y == h * 16 + y) 16 d small' row in
    (==_iff (bit_or (h * 16 % 256) d) (h * 16 + d)).0 cell

set-append : (xs ys : List ℕ) (x v : ℕ) → set (xs ++ (x ∷ ys)) (length xs) v ≡ xs ++ (v ∷ ys)
set-append [] ys x v = refl
set-append (z ∷ xs) ys x v = ap (λ (zs : List ℕ). z ∷ zs) (set-append xs ys x v)

get_or-append : (xs ys : List ℕ) (x : ℕ) → get_or (xs ++ (x ∷ ys)) (length xs) 0 ≡ x
get_or-append [] ys x = refl
get_or-append (z ∷ xs) ys x = get_or-append xs ys x

length-append : (xs ys : List ℕ) → length (xs ++ ys) ≡ length xs + length ys
length-append [] ys = zero_add (length ys)
length-append (z ∷ xs) ys = omega (arith, length-append xs ys)

put_high :
    (pre junk : List ℕ) (x h : ℕ)
    → put_digit (pre ++ (x ∷ junk)) (length pre) false h ≡ pre ++ ((h * 16 % 256) ∷ junk)
unfolding put_digit
put_high pre junk x h = set-append pre junk x (h * 16 % 256)

put_low :
    (pre junk : List ℕ) (h d b : ℕ)
    → bit_or (h * 16 % 256) d ≡ b
    → put_digit (pre ++ ((h * 16 % 256) ∷ junk)) (length pre) true d ≡ pre ++ (b ∷ junk)
unfolding put_digit
put_low pre junk h d b e =
    set-append pre junk (h * 16 % 256) _
    ∙ ap (λ (v : ℕ). pre ++ (v ∷ junk))
        (ap (λ (v : ℕ). bit_or v d) (get_or-append pre junk (h * 16 % 256)) ∙ e)

first_digit :
    (c d j : ℕ) (cs result : List ℕ)
    → letter_of c ≡ digit d
    → j < length result
    → hex_loop (c ∷ cs) result j false ≡ hex_loop cs (put_digit result j false d) j true
unfolding hex_loop
first_digit c d j cs result e lt = ground (arith, e, lt)

second_digit :
    (c d j : ℕ) (cs result : List ℕ)
    → letter_of c ≡ digit d
    → j < length result
    → hex_loop (c ∷ cs) result j true ≡ (
        if leb (length result) (j + 1)
        then done (put_digit result j true d, j + 1)
        else hex_loop cs (put_digit result j true d) (j + 1) false)
unfolding hex_loop
second_digit c d j cs result e lt = ground (arith, e, lt)

-- The two digits of a byte, after the bytes `pre`.
two_digits :
    (b x : ℕ) (pre junk cs : List ℕ)
    → b < 256
    → hex_loop
        (hex_char (b / 16 % 16) ∷ hex_char (b % 16) ∷ cs)
        (pre ++ (x ∷ junk))
        (length pre)
        false
      ≡ (if leb (length pre + suc (length junk)) (length pre + 1)
          then done (pre ++ (b ∷ junk), length pre + 1)
          else hex_loop cs (pre ++ (b ∷ junk)) (length pre + 1) false)
two_digits b x pre junk cs byte =
    let h = b / 16 % 16 in
    let l = b % 16 in
    let j = length pre in
    let half = pre ++ ((h * 16 % 256) ∷ junk) in
    let both : bit_or (h * 16 % 256) l ≡ b =
      bit_or_digits h l (omega arith) (omega arith) ∙ omega arith in
    let inside : j < length (pre ++ (x ∷ junk)) = omega (arith, length-append pre (x ∷ junk)) in
    let inside' : j < length half = omega (arith, length-append pre ((h * 16 % 256) ∷ junk)) in
    first_digit (hex_char h) h j (hex_char l ∷ cs) (pre ++ (x ∷ junk))
      (letter_of-hex_char h (omega arith)) inside
    ∙ ap (λ (r : List ℕ). hex_loop (hex_char l ∷ cs) r j true) (put_high pre junk x h)
    ∙ second_digit (hex_char l) l j cs half (letter_of-hex_char l (omega arith)) inside'
    ∙ ap
        (λ (r : List ℕ).
          if leb (length half) (j + 1) then done (r, j + 1) else hex_loop cs r (j + 1) false)
        (put_low pre junk h l b both)
    ∙ ap
        (λ (n : ℕ).
          if leb n (j + 1)
          then done (pre ++ (b ∷ junk), j + 1)
          else hex_loop cs (pre ++ (b ∷ junk)) (j + 1) false)
        (length-append pre ((h * 16 % 256) ∷ junk))

append-cons : (pre junk : List ℕ) (b : ℕ) → (pre ++ (b ∷ [])) ++ junk ≡ pre ++ (b ∷ junk)
append-cons [] junk b = refl
append-cons (p ∷ pre) junk b = ap (λ (zs : List ℕ). p ∷ zs) (append-cons pre junk b)

hex_loop-hex_digits :
    (b x : ℕ) (bin pre junk cs : List ℕ)
    → b < 256
    → AreBytes bin
    → length junk ≡ length bin
    → hex_loop (hex_digits (b ∷ bin) ++ cs) (pre ++ (x ∷ junk)) (length pre) false
      ≡ done (pre ++ (b ∷ bin), length pre + suc (length bin))
hex_loop-hex_digits b x [] pre [] cs byte are l = two_digits b x pre [] cs byte ∙ ground arith
hex_loop-hex_digits b x [] pre (y ∷ junk) cs byte are l = absurd (omega arith)
hex_loop-hex_digits b x (b' ∷ bin) pre [] cs byte are l = absurd (omega arith)
hex_loop-hex_digits b x (b' ∷ bin) pre (y ∷ junk) cs byte are l =
    let digits = hex_digits (b' ∷ bin) ++ cs in
    let next = pre ++ (b ∷ []) in
    let size : length next ≡ length pre + 1 = omega (arith, length-append pre (b ∷ [])) in
    let more : leb (length pre + suc (length (y ∷ junk))) (length pre + 1) ≡ false = ground arith in
    let ih = hex_loop-hex_digits b' y bin next junk cs are.0 are.1 (omega arith) in
    let count : length next + suc (length bin) ≡ length pre + suc (suc (length bin)) =
      omega (arith, size) in
    two_digits b x pre (y ∷ junk) digits byte
    ∙ ap
        (λ (t : Bool).
          if t
          then done (pre ++ (b ∷ y ∷ junk), length pre + 1)
          else hex_loop digits (pre ++ (b ∷ y ∷ junk)) (length pre + 1) false)
        more
    ∙ ap (λ (n : ℕ). hex_loop digits (pre ++ (b ∷ y ∷ junk)) n false) (sym size)
    ∙ ap (λ (r : List ℕ). hex_loop digits r (length next) false)
        (sym (append-cons pre (y ∷ junk) b))
    ∙ ih
    ∙ ap (λ (r : List ℕ). done (r, length next + suc (length bin))) (append-cons pre (b' ∷ bin) b)
    ∙ ap (λ (n : ℕ). done (pre ++ (b ∷ b' ∷ bin), n)) count

append-nil : (xs : List ℕ) → xs ++ [] ≡ xs
append-nil [] = refl
append-nil (x ∷ xs) = ap (λ (zs : List ℕ). x ∷ zs) (append-nil xs)

bin2hex-text :
    (reslen : ℕ) (bin : List ℕ)
    → 2 * length bin ≤ reslen
    → (end : List ℕ) × (bin2hex reslen bin ≡ some (hex_digits bin ++ end))
unfolding bin2hex
bin2hex-text reslen bin room = elim (dec_lt (2 * length bin) reslen) [
  | yes lt ↦ (0 ∷ [], ground (arith, lt))
  | no ge ↦ ([], ground (arith, ge, append-nil (hex_digits bin)))
]

read_back :
    (bin result cs : List ℕ)
    → AreBytes bin
    → 0 < length bin
    → length result ≡ length bin
    → hex2bin (hex_digits bin ++ cs) result ≡ done (bin, length bin)
unfolding hex2bin
read_back [] result cs are lt l = absurd (omega arith)
read_back (b ∷ bin) [] cs are lt l = absurd (omega arith)
read_back (b ∷ bin) (x ∷ result) cs are lt l =
    hex_loop-hex_digits b x bin [] result cs are.0 are.1 (omega arith)
    ∙ ap (λ (n : ℕ). done (b ∷ bin, n)) (sym (zero_add (suc (length bin))))

-- Bytes, at least one, that `bin2hex` prints to a buffer with room for their digits, are what `hex2bin`
-- reads from it into a buffer of their number.
pub hex2bin-bin2hex :
    (reslen : ℕ) (bin result : List ℕ)
    → AreBytes bin
    → 0 < length bin
    → length result ≡ length bin
    → 2 * length bin ≤ reslen
    → (text : List ℕ) × (bin2hex reslen bin ≡ some text)
      × (hex2bin text result ≡ done (bin, length bin))
hex2bin-bin2hex reslen bin result are some_byte sized room =
    let (end, e) = bin2hex-text reslen bin room in
    (hex_digits bin ++ end, e, read_back bin result end are some_byte sized)
