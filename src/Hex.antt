-- ===== src/Hex.antt =====
-- sample_client/config.c: `hex2bin` and `bin2hex`. A text is the list of its bytes.
pub mod RoundTrip
pub mod Bounds
use embedded_client.Beacons.Insert.{out_of_bounds, done, Run}
use embedded_client.Common.{
  ℕ, none, [], true, false, some, ◌∷◌, ◌==◌, ◌&&◌, ◌*◌, ◌/◌, ◌%◌, ◌-◌, ◌++◌, if◌then◌else◌, leb,
  ◌+◌, List, ltb, bit_and, Bool, Option, set, length, get_or, not,
}

pub data Letter : Type 0 where
  digit : ℕ → Letter
  terminator ignored : Letter

unfoldable pub letter_of : ℕ → Letter
letter_of c =
    if leb 48 c && leb c 57
    then digit (c - 48)
    else if leb 97 c && leb c 102
    then digit (c - 97 + 10)
    else if leb 65 c && leb c 70
    then digit (c - 65 + 10)
    else if c == 0
    then terminator
    else ignored

-- `a | b` of two bytes
abbrev pub bit_or : ℕ → ℕ → ℕ
bit_or a b = a + b - bit_and a b

-- The byte at `j` takes the digit: `odd` is the lowest bit of `k`.
unfoldable pub put_digit : List ℕ → ℕ → Bool → ℕ → List ℕ
put_digit result j true c = set result j (bit_or (get_or result j 0) c)
put_digit result j false c = set result j (c * 16 % 256)

-- The loop over the text: the buffer, and the number of bytes that are complete.
unfoldable pub hex_loop : List ℕ → List ℕ → ℕ → Bool → Run (List ℕ × ℕ)
hex_loop [] result j odd = done (result, j)
hex_loop (c ∷ cs) result j odd = elim (letter_of c) [
  | terminator ↦ done (result, j)
  | ignored ↦ hex_loop cs result j odd
  | digit d ↦
      let j' = if odd then j + 1 else j in
      elim (ltb j (length result)) [
        | false ↦ out_of_bounds
        | true ↦ elim (leb (length result) j') [
          | true ↦ done (put_digit result j odd d, j')
          | false ↦ hex_loop cs (put_digit result j odd d) j' (not odd)
        ]
      ]
]

unfoldable pub hex2bin : List ℕ → List ℕ → Run (List ℕ × ℕ)
hex2bin hexstr result = hex_loop hexstr result 0 false

abbrev pub hex_char : ℕ → ℕ
hex_char d = if ltb d 10 then 48 + d else 55 + d

abbrev pub hex_digits : List ℕ → List ℕ
hex_digits [] = []
hex_digits (b ∷ bin) = hex_char (b / 16 % 16) ∷ hex_char (b % 16) ∷ hex_digits bin

-- What is written to a buffer of `reslen` bytes; `none` is -1.
unfoldable pub bin2hex : ℕ → List ℕ → Option (List ℕ)
bin2hex reslen bin =
    if ltb reslen (2 * length bin)
    then none
    else some (if ltb (2 * length bin) reslen then hex_digits bin ++ (0 ∷ []) else hex_digits bin)
