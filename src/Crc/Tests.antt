-- ===== src/Crc/Tests.antt =====
-- Runs of the checksum, and its theorems at concrete buffers.
use lw_ipc.Base.{ℕ, ◌≡◌, refl, List, [], ◌∷◌, arith, bit_xor}
use lw_ipc.Crc.{crc32_update}
use lw_ipc.Crc.Reference.{crc_reference, crc32_update-reference}

-- The text 123456789, whose CRC-32 is the published check value.
abbrev check_text : List ℕ
check_text = 0x31 ∷ 0x32 ∷ 0x33 ∷ 0x34 ∷ 0x35 ∷ 0x36 ∷ 0x37 ∷ 0x38 ∷ 0x39 ∷ []

check_value : crc32_update 0 check_text ≡ 0xCBF43926
unfolding crc32_update
check_value = refl

crc32_update-reference_example :
    crc32_update 0 check_text ≡ bit_xor (crc_reference (bit_xor 0 0xFFFFFFFF) check_text) 0xFFFFFFFF
crc32_update-reference_example = crc32_update-reference 0 check_text (omega arith)
