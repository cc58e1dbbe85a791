-- ===== src/Crc.antt =====
-- libel/crc32.c, over the bytes of a message. An `unsigned int` has 32 bits.
use embedded_client.Common.{ℕ, zero, suc, ◌-◌, ◌/◌, ◌%◌, ◌++◌, bit_and, bit_xor, List, [], ◌∷◌}
use embedded_client.Types.{Header, u32}

-- One round of the inner loop; `mask` is all ones where the low bit is set.
crc_bit : ℕ → ℕ
crc_bit crc = let mask = (u32 - bit_and crc 1) % u32 in bit_xor (crc / 2) (bit_and 0xEDB88320 mask)

crc_bits : ℕ → ℕ → ℕ
unfolding crc_bit
crc_bits zero crc = crc
crc_bits (suc j) crc = crc_bits j (crc_bit crc)

crc_loop : ℕ → List ℕ → ℕ
unfolding crc_bits
crc_loop crc [] = crc
crc_loop crc (byte ∷ message) = crc_loop (crc_bits 8 (bit_xor crc byte)) message

unfoldable pub sky_crc32 : List ℕ → ℕ
unfolding crc_loop
sky_crc32 message = u32 - 1 - crc_loop 0xFFFFFFFF message

-- A `uint32_t` in memory, low byte first.
word_bytes : ℕ → List ℕ
word_bytes w = w % 256 ∷ w / 256 % 256 ∷ w / 65536 % 256 ∷ w / 16777216 % 256 ∷ []

-- The bytes from `magic` up to `crc32`.
unfoldable pub header_bytes : Header → List ℕ
unfolding word_bytes
header_bytes h = word_bytes h.magic ++ (word_bytes h.size ++ word_bytes h.time)
