-- ===== src/Validate/Tests.antt =====
-- Checksum and validation at concrete inputs.
use embedded_client.Common.{◌≡◌, refl, [], ◌∷◌}
use embedded_client.Crc.{sky_crc32}

-- The check value of CRC-32 over "123456789".
check_value :
    sky_crc32 (0x31 ∷ 0x32 ∷ 0x33 ∷ 0x34 ∷ 0x35 ∷ 0x36 ∷ 0x37 ∷ 0x38 ∷ 0x39 ∷ []) ≡ 0xCBF43926
unfolding sky_crc32
check_value = refl
