-- ===== src/Pool/Word.antt =====
-- The head word: index and tag come back from it.
use native.Mathlib.Nat.{mul-div_cancel}
use lw_ipc.Base.{ℕ, ◌+◌, ◌*◌, ◌%◌, ◌^◌, ◌<◌, ◌≡◌, ap, ◌∙◌, arith, bit_or}
use lw_ipc.Base.Bits.{and_mask, or_shift}
use lw_ipc.Base.Words.{u16}
use lw_ipc.Pool.{pack, index_of, tag_of, slot_ptr, index_of_ptr}

-- The index in the low 16 bits, the tag modulo 2^48 above it.
pub pack_lem : (idx tag : ℕ) → idx < 2 ^ 16 → pack idx tag ≡ tag % 2 ^ 48 * 2 ^ 16 + idx
unfolding pack
pack_lem idx tag h = ap (λ t. bit_or t idx) shifted ∙ or_shift 16 (tag % 2 ^ 48) idx h
  where
    shifted : tag * 2 ^ 16 % 2 ^ 64 ≡ tag % 2 ^ 48 * 2 ^ 16
    shifted = omega arith

pub index_of_lem : (v : ℕ) → index_of v ≡ v % 2 ^ 16
unfolding index_of
index_of_lem v = omega (arith, and_mask 16 v)

pub index_of-pack : (idx tag : ℕ) → idx < 2 ^ 16 → index_of (pack idx tag) ≡ idx
index_of-pack idx tag h = omega (arith, index_of_lem (pack idx tag), pack_lem idx tag h)

pub tag_of-pack : (idx tag : ℕ) → idx < 2 ^ 16 → tag_of (pack idx tag) ≡ tag % 2 ^ 48
unfolding tag_of
tag_of-pack idx tag h = omega (arith, pack_lem idx tag h)

-- Unpacking what was packed gives the index, and the tag modulo 2^48.
pub unpack-pack :
    (idx tag : ℕ)
    → idx < 2 ^ 16
    → (index_of (pack idx tag) ≡ idx) × (tag_of (pack idx tag) ≡ tag % 2 ^ 48)
unpack-pack idx tag h = (index_of-pack idx tag h, tag_of-pack idx tag h)

pub index_of-lt : (v : ℕ) → index_of v < 2 ^ 16
index_of-lt v = omega (arith, index_of_lem v)

-- The pointer of a slot leads back to its index.
pub index_of_ptr-slot_ptr :
    (k_slot_size idx : ℕ)
    → 0 < k_slot_size
    → idx < 2 ^ 16
    → index_of_ptr k_slot_size (slot_ptr k_slot_size idx) ≡ idx
index_of_ptr-slot_ptr k_slot_size idx pos h = ap u16 (mul-div_cancel idx pos) ∙ omega arith
