-- ===== src/Crc.antt =====
-- `detail::crc32_update` of include/lwipc/ipc_message.hpp: CRC-32 with a table of sixteen entries,
-- four bits at a time. A byte is a number below 256 and a `uint32_t` one below 2^32.
mod Nibble
pub mod Reference
pub mod Compose
pub mod Detect
mod Tests
use lw_ipc.Base.{ℕ, ◌/◌, List, [], ◌∷◌, bit_and, bit_xor, get_or}

-- `kTable`
abbrev pub k_table : List ℕ
k_table =
    0x00000000 ∷ 0x1db71064 ∷ 0x3b6e20c8 ∷ 0x26d930ac ∷ 0x76dc4190 ∷ 0x6b6b51f4 ∷ 0x4db26158
    ∷ 0x5005713c ∷ 0xedb88320 ∷ 0xf00f9344 ∷ 0xd6d6a3e8 ∷ 0xcb61b38c ∷ 0x9b64c2b0 ∷ 0x86d3d2d4
    ∷ 0xa00ae278 ∷ 0xbdbdf21c ∷ []

-- `crc = (crc >> 4) ^ kTable[(crc ^ n) & 0x0F]`
pub nibble_step : ℕ → ℕ → ℕ
nibble_step crc n = bit_xor (crc / 16) (get_or k_table (bit_and (bit_xor crc n) 0x0F) 0)

-- One round of the loop: the low four bits of the byte, then `p[i] >> 4`.
pub byte_step : ℕ → ℕ → ℕ
byte_step crc p = nibble_step (nibble_step crc p) (p / 16)

pub crc_loop : ℕ → List ℕ → ℕ
crc_loop crc [] = crc
crc_loop crc (p ∷ ps) = crc_loop (byte_step crc p) ps

unfoldable pub crc32_update : ℕ → List ℕ → ℕ
unfolding crc_loop byte_step nibble_step
crc32_update crc bytes = bit_xor (crc_loop (bit_xor crc 0xFFFFFFFF) bytes) 0xFFFFFFFF
