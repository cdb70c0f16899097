-- ===== src/Crc/Reference.antt =====
-- The table-driven routine against the bit-by-bit definition of the reflected CRC-32.
use lw_ipc.Base.{
  ℕ, zero, suc, ◌+◌, ◌*◌, ◌/◌, ◌%◌, ◌<◌, ◌≡◌, refl, sym, ap, ap₂, ◌∙◌, List, [], ◌∷◌, true, arith,
  bit_xor, ◌==◌, ==_iff, if◌then◌else◌, passes_below, passes_below_sound,
}
use lw_ipc.Base.Bits.{
  xor-zero, xor_half, xor_odd, xor_swap, xor_shift, xor_assoc, xor_comm, xor-div-pow,
}
use lw_ipc.Base.Words.{AllBytes}
use lw_ipc.Crc.{nibble_step, byte_step, crc_loop, crc32_update}
use lw_ipc.Crc.Nibble.{entry, nibble_step_lem}

-- The polynomial of ISO 3309, its bits in reverse order.
abbrev polynomial : ℕ
polynomial = 0xedb88320

-- What the lowest bit of the register folds back in.
feedback : ℕ → ℕ
feedback c = if c % 2 == 1 then polynomial else 0

-- One bit of the division.
pub bit_step : ℕ → ℕ
unfolding feedback
bit_step c = bit_xor (c / 2) (feedback c)

pub bit_steps : ℕ → ℕ → ℕ
bit_steps zero c = c
bit_steps (suc n) c = bit_steps n (bit_step c)

-- The definition: each byte goes into the low end of the register, and eight bits are divided off.
pub crc_reference : ℕ → List ℕ → ℕ
crc_reference c [] = c
crc_reference c (p ∷ ps) = crc_reference (bit_steps 8 (bit_xor c p)) ps

feedback-xor : (a b : ℕ) → feedback (bit_xor a b) ≡ bit_xor (feedback a) (feedback b)
unfolding feedback
feedback-xor a b = ground (arith, xor_odd a b)

bit_step-xor : (a b : ℕ) → bit_step (bit_xor a b) ≡ bit_xor (bit_step a) (bit_step b)
unfolding bit_step
bit_step-xor a b =
    ap₂ bit_xor (xor_half a b) (feedback-xor a b)
    ∙ xor_swap (a / 2) (b / 2) (feedback a) (feedback b)

bit_steps-xor : (n a b : ℕ) → bit_steps n (bit_xor a b) ≡ bit_xor (bit_steps n a) (bit_steps n b)
unfolding bit_steps
bit_steps-xor zero a b = refl
bit_steps-xor (suc n) a b =
    ap (bit_steps n) (bit_step-xor a b) ∙ bit_steps-xor n (bit_step a) (bit_step b)

bit_steps_eight : (c : ℕ) → bit_steps 8 c ≡ bit_steps 4 (bit_steps 4 c)
unfolding bit_steps
bit_steps_eight c = refl

bit_step-even : (a : ℕ) → bit_step (a * 2) ≡ a
unfolding bit_step feedback
bit_step-even a = ground (arith, xor-zero (a * 2 / 2))

bit_steps-shift : (a : ℕ) → bit_steps 4 (a * 16) ≡ a
unfolding bit_steps
bit_steps-shift a =
    ap (λ t. bit_step (bit_step (bit_step (bit_step t)))) sixteen
    ∙ ap (λ t. bit_step (bit_step (bit_step t))) (bit_step-even (a * 2 * 2 * 2))
    ∙ ap (λ t. bit_step (bit_step t)) (bit_step-even (a * 2 * 2))
    ∙ ap bit_step (bit_step-even (a * 2))
    ∙ bit_step-even a
  where
    sixteen : a * 16 ≡ a * 2 * 2 * 2 * 2
    sixteen = omega arith

-- Each table entry is four bits of the division of its index.
entries : passes_below (λ i. bit_steps 4 i == entry i) 16 ≡ true
unfolding passes_below bit_steps bit_step entry
entries = refl

pub bit_steps-entry : (i : ℕ) → i < 16 → bit_steps 4 i ≡ entry i
bit_steps-entry i h =
    (==_iff _ _).0 (passes_below_sound (λ i. bit_steps 4 i == entry i) 16 i entries h)

four_bits : (c : ℕ) → bit_steps 4 c ≡ bit_xor (c / 16) (entry (c % 16))
four_bits c =
    ap (bit_steps 4) (split ∙ sym (xor_shift 4 (c / 16) (c % 16) (omega arith)))
    ∙ bit_steps-xor 4 (c / 16 * 16) (c % 16)
    ∙ ap₂ bit_xor (bit_steps-shift (c / 16)) (bit_steps-entry (c % 16) (omega arith))
  where
    split : c ≡ c / 16 * 16 + c % 16
    split = omega arith

four_bits-xor : (c n : ℕ) → bit_steps 4 (bit_xor c n) ≡ bit_xor (nibble_step c n) (n / 16)
four_bits-xor c n =
    four_bits (bit_xor c n)
    ∙ ap (λ t. bit_xor t (entry (bit_xor c n % 16))) (xor-div-pow 4 c n)
    ∙ xor_assoc (c / 16) (n / 16) (entry (bit_xor c n % 16))
    ∙ ap (bit_xor (c / 16)) (xor_comm (n / 16) (entry (bit_xor c n % 16)))
    ∙ sym (xor_assoc (c / 16) (entry (bit_xor c n % 16)) (n / 16))
    ∙ ap (λ t. bit_xor t (n / 16)) (sym (nibble_step_lem c n))

pub byte_step_lem : (c p : ℕ) → p < 256 → byte_step c p ≡ bit_steps 8 (bit_xor c p)
unfolding byte_step
byte_step_lem c p h = sym (
    bit_steps_eight (bit_xor c p)
    ∙ ap (bit_steps 4) (four_bits-xor c p)
    ∙ four_bits-xor (nibble_step c p) (p / 16)
    ∙ ap (bit_xor (nibble_step (nibble_step c p) (p / 16))) none_left
    ∙ xor-zero (nibble_step (nibble_step c p) (p / 16)))
  where
    none_left : p / 16 / 16 ≡ 0
    none_left = omega arith

crc_loop-reference : (c : ℕ) (ps : List ℕ) → AllBytes ps → crc_loop c ps ≡ crc_reference c ps
unfolding crc_loop crc_reference
crc_loop-reference c [] h = refl
crc_loop-reference c (p ∷ ps) h =
    ap (λ t. crc_loop t ps) (byte_step_lem c p h.0)
    ∙ crc_loop-reference (bit_steps 8 (bit_xor c p)) ps h.1

-- On bytes, `crc32_update` is the bitwise CRC-32: the register starts with all bits of `crc`
-- inverted, every byte is divided bit by bit by the reflected polynomial, and the register is
-- inverted again at the end.
pub crc32_update-reference :
    (crc : ℕ) (bytes : List ℕ)
    → AllBytes bytes
    → crc32_update crc bytes ≡ bit_xor (crc_reference (bit_xor crc 0xFFFFFFFF) bytes) 0xFFFFFFFF
unfolding crc32_update
crc32_update-reference crc bytes h =
    ap (λ t. bit_xor t 0xFFFFFFFF) (crc_loop-reference (bit_xor crc 0xFFFFFFFF) bytes h)
