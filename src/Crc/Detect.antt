-- ===== src/Crc/Detect.antt =====
-- What a changed checksum proves, and which changes of the buffer change it.
use lw_ipc.Base.{ℕ, ◌^◌, ◌<◌, ◌≡◌, ◌≢◌, sym, ◌∙◌, List, [], ◌∷◌, ◌++◌, arith, bit_xor}
use lw_ipc.Base.Bits.{xor-cancel_right, xor-lt-pow}
use lw_ipc.Crc.{byte_step, crc_loop, crc32_update}
use lw_ipc.Crc.Nibble.{byte_step-lt, byte_step-injective, byte_step-byte}
use lw_ipc.Crc.Compose.{crc_loop-append, crc_loop-lt}

crc_loop-injective :
    (c d : ℕ) (xs : List ℕ) → c < 2 ^ 32 → d < 2 ^ 32 → crc_loop c xs ≡ crc_loop d xs → c ≡ d
unfolding crc_loop
crc_loop-injective c d [] hc hd e = e
crc_loop-injective c d (x ∷ xs) hc hd e = byte_step-injective c d x hc hd (
    crc_loop-injective (byte_step c x) (byte_step d x) xs (byte_step-lt c x hc)
      (byte_step-lt d x hd) e)

crc_loop-middle :
    (c : ℕ) (xs ys : List ℕ) (p q : ℕ)
    → c < 2 ^ 32
    → p < 256
    → q < 256
    → crc_loop c (xs ++ (p ∷ ys)) ≡ crc_loop c (xs ++ (q ∷ ys))
    → p ≡ q
unfolding crc_loop
crc_loop-middle c xs ys p q hc hp hq e =
    byte_step-byte (crc_loop c xs) p q (crc_loop-lt c xs hc) hp hq (
      crc_loop-injective (byte_step (crc_loop c xs) p) (byte_step (crc_loop c xs) q) ys
        (byte_step-lt (crc_loop c xs) p (crc_loop-lt c xs hc))
        (byte_step-lt (crc_loop c xs) q (crc_loop-lt c xs hc))
        (sym (crc_loop-append c xs (p ∷ ys)) ∙ e ∙ crc_loop-append c xs (q ∷ ys)))

-- Two buffers that differ in exactly one byte have different checksums, from any start value: no
-- corruption confined to one byte goes unseen.
pub crc32_update-ne :
    (crc : ℕ) (xs ys : List ℕ) (p q : ℕ)
    → crc < 2 ^ 32
    → p < 256
    → q < 256
    → p ≢ q
    → crc32_update crc (xs ++ (p ∷ ys)) ≢ crc32_update crc (xs ++ (q ∷ ys))
unfolding crc32_update
crc32_update-ne crc xs ys p q hc hp hq ne e = ne (
    crc_loop-middle start xs ys p q (xor-lt-pow 32 crc 0xFFFFFFFF hc (omega arith)) hp hq (
      xor-cancel_right 0xFFFFFFFF (crc_loop start (xs ++ (p ∷ ys)))
        (crc_loop start (xs ++ (q ∷ ys))) e))
  where
    start : ℕ
    start = bit_xor crc 0xFFFFFFFF
