-- ===== src/Tests/Digits.antt =====
-- Hexadecimal digits.
use embedded_client.Hex.RoundTrip.{hex2bin-bin2hex}
use embedded_client.Hex.Bounds.{Within, hex2bin-Within}
use embedded_client.Hex.{bin2hex, hex2bin, hex_loop, letter_of, put_digit}
use embedded_client.Beacons.Insert.{out_of_bounds, done}
use embedded_client.Common.{refl, some, [], ◌∷◌, List, ◌≡◌, ℕ, arith}

-- "04A9", with the terminator.
bin2hex_small : bin2hex 5 (0x04 ∷ 0xA9 ∷ []) ≡ some (0x30 ∷ 0x34 ∷ 0x41 ∷ 0x39 ∷ 0 ∷ [])
unfolding bin2hex
bin2hex_small = refl

hex2bin-bin2hex_example :
    (text : List ℕ) × (bin2hex 5 (0x04 ∷ 0xA9 ∷ []) ≡ some text)
    × (hex2bin text (0 ∷ 0 ∷ []) ≡ done (0x04 ∷ 0xA9 ∷ [], 2))
hex2bin-bin2hex_example =
    hex2bin-bin2hex 5 (0x04 ∷ 0xA9 ∷ []) (0 ∷ 0 ∷ []) (omega arith) (omega arith) refl (omega arith)

hex2bin-Within_example : Within (0 ∷ []) (hex2bin (0x61 ∷ 0x2D ∷ 0x62 ∷ 0x63 ∷ []) (0 ∷ []))
hex2bin-Within_example = hex2bin-Within (0x61 ∷ 0x2D ∷ 0x62 ∷ 0x63 ∷ []) (0 ∷ []) (omega arith)

-- "a-bc" fills the one byte with 0xAB.
hex2bin_full : hex2bin (0x61 ∷ 0x2D ∷ 0x62 ∷ 0x63 ∷ []) (0 ∷ []) ≡ done (0xAB ∷ [], 1)
unfolding hex2bin hex_loop letter_of put_digit
hex2bin_full = refl

-- A digit is written even to an empty buffer.
hex2bin_empty : hex2bin (0x61 ∷ []) [] ≡ out_of_bounds
unfolding hex2bin hex_loop letter_of
hex2bin_empty = refl
