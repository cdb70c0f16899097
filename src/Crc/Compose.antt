-- ===== src/Crc/Compose.antt =====
-- The checksum of a buffer taken in pieces, and its range.
use lw_ipc.Base.{ℕ, ◌^◌, ◌<◌, ◌≡◌, refl, sym, ap, ◌∙◌, List, [], ◌∷◌, ◌++◌, arith, bit_xor}
use lw_ipc.Base.Bits.{xor_twice, xor-lt-pow}
use lw_ipc.Crc.{byte_step, crc_loop, crc32_update}
use lw_ipc.Crc.Nibble.{byte_step-lt}

pub crc_loop-append : (c : ℕ) (xs ys : List ℕ) → crc_loop c (xs ++ ys) ≡ crc_loop (crc_loop c xs) ys
unfolding crc_loop
crc_loop-append c [] ys = refl
crc_loop-append c (x ∷ xs) ys = crc_loop-append (byte_step c x) xs ys

pub crc_loop-lt : (c : ℕ) (xs : List ℕ) → c < 2 ^ 32 → crc_loop c xs < 2 ^ 32
unfolding crc_loop
crc_loop-lt c [] h = h
crc_loop-lt c (x ∷ xs) h = crc_loop-lt (byte_step c x) xs (byte_step-lt c x h)

-- The checksum of two buffers in a row is that of the second, continued from that of the first.
pub crc32_update-append :
    (crc : ℕ) (xs ys : List ℕ) → crc32_update crc (xs ++ ys) ≡ crc32_update (crc32_update crc xs) ys
unfolding crc32_update
crc32_update-append crc xs ys =
    ap (λ t. bit_xor t 0xFFFFFFFF)
      (crc_loop-append start xs ys
        ∙ ap (λ t. crc_loop t ys) (sym (xor_twice (crc_loop start xs) 0xFFFFFFFF)))
  where
    start : ℕ
    start = bit_xor crc 0xFFFFFFFF

-- From a `uint32_t` the result is a `uint32_t`.
pub crc32_update-lt : (crc : ℕ) (xs : List ℕ) → crc < 2 ^ 32 → crc32_update crc xs < 2 ^ 32
unfolding crc32_update
crc32_update-lt crc xs h =
    xor-lt-pow 32 (crc_loop (bit_xor crc 0xFFFFFFFF) xs) 0xFFFFFFFF
      (crc_loop-lt (bit_xor crc 0xFFFFFFFF) xs (xor-lt-pow 32 crc 0xFFFFFFFF h (omega arith)))
      (omega arith)
