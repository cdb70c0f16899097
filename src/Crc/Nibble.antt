-- ===== src/Crc/Nibble.antt =====
-- One table step in terms of quotient and remainder by sixteen, and the table's properties.
use lw_ipc.Base.{
  ℕ, ◌/◌, ◌%◌, ◌^◌, ◌<◌, ◌≡◌, refl, sym, ap, ◌∙◌, true, [], ◌∷◌, arith, bit_xor, get_or, ltb,
  ltb→lt, ◌==◌, ==_iff, passes_below, passes_below_sound,
}
use lw_ipc.Base.Bits.{
  and_mask, xor-lt-pow, xor-div-pow, xor-mod-pow, zero-xor, xor-cancel_left, xor-cancel_right,
}
use lw_ipc.Crc.{k_table, nibble_step, byte_step}

-- A table entry by its index.
unfoldable pub entry : ℕ → ℕ
entry i = get_or k_table i 0

pub nibble_step_lem : (c n : ℕ) → nibble_step c n ≡ bit_xor (c / 16) (entry (bit_xor c n % 16))
unfolding nibble_step entry
nibble_step_lem c n = ap (λ t. bit_xor (c / 16) (get_or k_table t 0)) (and_mask 4 (bit_xor c n))

entry_table : passes_below (λ i. ltb (entry i) (2 ^ 32)) 16 ≡ true
unfolding passes_below entry
entry_table = refl

pub entry-lt : (i : ℕ) → i < 16 → entry i < 2 ^ 32
entry-lt i h = ltb→lt _ _ (passes_below_sound (λ i. ltb (entry i) (2 ^ 32)) 16 i entry_table h)

pub nibble_step-lt : (c n : ℕ) → c < 2 ^ 32 → nibble_step c n < 2 ^ 32
nibble_step-lt c n h = subst_lt (
    xor-lt-pow 32 (c / 16) (entry (bit_xor c n % 16)) (omega arith)
      (entry-lt (bit_xor c n % 16) (omega arith)))
  where
    subst_lt : bit_xor (c / 16) (entry (bit_xor c n % 16)) < 2 ^ 32 → nibble_step c n < 2 ^ 32
    subst_lt p = omega (arith, nibble_step_lem c n)

pub byte_step-lt : (c p : ℕ) → c < 2 ^ 32 → byte_step c p < 2 ^ 32
unfolding byte_step
byte_step-lt c p h = nibble_step-lt (nibble_step c p) (p / 16) (nibble_step-lt c p h)

-- The index of the entry whose highest four bits are given.
index_of_top : ℕ → ℕ
index_of_top t =
    get_or (0 ∷ 1 ∷ 3 ∷ 2 ∷ 6 ∷ 7 ∷ 5 ∷ 4 ∷ 13 ∷ 12 ∷ 14 ∷ 15 ∷ 11 ∷ 10 ∷ 8 ∷ 9 ∷ []) t 0

top_table : passes_below (λ i. index_of_top (entry i / 2 ^ 28) == i) 16 ≡ true
unfolding passes_below entry index_of_top
top_table = refl

-- Two entries with the same highest four bits are the same entry.
pub entry-injective : (i j : ℕ) → i < 16 → j < 16 → entry i / 2 ^ 28 ≡ entry j / 2 ^ 28 → i ≡ j
entry-injective i j hi hj e = sym (back i hi) ∙ ap index_of_top e ∙ back j hj
  where
    back : (k : ℕ) → k < 16 → index_of_top (entry k / 2 ^ 28) ≡ k
    back k h =
        (==_iff _ k).0
          (passes_below_sound (λ i. index_of_top (entry i / 2 ^ 28) == i) 16 k top_table h)

-- The highest four bits of a step are those of its table entry.
top-nibble_step :
    (c n : ℕ) → c < 2 ^ 32 → nibble_step c n / 2 ^ 28 ≡ entry (bit_xor c n % 16) / 2 ^ 28
top-nibble_step c n h =
    ap (λ t. t / 2 ^ 28) (nibble_step_lem c n)
    ∙ xor-div-pow 28 (c / 16) (entry (bit_xor c n % 16))
    ∙ ap (λ t. bit_xor t (entry (bit_xor c n % 16) / 2 ^ 28)) none_left
    ∙ zero-xor (entry (bit_xor c n % 16) / 2 ^ 28)
  where
    none_left : c / 16 / 2 ^ 28 ≡ 0
    none_left = omega arith

-- A step determines the index that it looked up, and the bits that it shifted.
pub nibble_step-index :
    (c d n m : ℕ)
    → c < 2 ^ 32
    → d < 2 ^ 32
    → nibble_step c n ≡ nibble_step d m
    → bit_xor c n % 16 ≡ bit_xor d m % 16
nibble_step-index c d n m hc hd e =
    entry-injective (bit_xor c n % 16) (bit_xor d m % 16) (omega arith) (omega arith)
      (sym (top-nibble_step c n hc) ∙ ap (λ t. t / 2 ^ 28) e ∙ top-nibble_step d m hd)

pub nibble_step-high :
    (c d n m : ℕ) → c < 2 ^ 32 → d < 2 ^ 32 → nibble_step c n ≡ nibble_step d m → c / 16 ≡ d / 16
nibble_step-high c d n m hc hd e = xor-cancel_right (entry (bit_xor d m % 16)) (c / 16) (d / 16) (
    ap (λ t. bit_xor (c / 16) (entry t)) (sym (nibble_step-index c d n m hc hd e))
    ∙ sym (nibble_step_lem c n)
    ∙ e
    ∙ nibble_step_lem d m)

-- With the same input nibble a step is injective in the register.
pub nibble_step-injective :
    (c d n : ℕ) → c < 2 ^ 32 → d < 2 ^ 32 → nibble_step c n ≡ nibble_step d n → c ≡ d
nibble_step-injective c d n hc hd e = omega (arith, nibble_step-high c d n n hc hd e, low)
  where
    low : c % 16 ≡ d % 16
    low =
        xor-cancel_right (n % 16) (c % 16) (d % 16)
          (sym (xor-mod-pow 4 c n) ∙ nibble_step-index c d n n hc hd e ∙ xor-mod-pow 4 d n)

pub byte_step-injective :
    (c d p : ℕ) → c < 2 ^ 32 → d < 2 ^ 32 → byte_step c p ≡ byte_step d p → c ≡ d
unfolding byte_step
byte_step-injective c d p hc hd e = nibble_step-injective c d p hc hd (
    nibble_step-injective (nibble_step c p) (nibble_step d p) (p / 16) (nibble_step-lt c p hc)
      (nibble_step-lt d p hd) e)

-- From one register, two bytes that step alike are the same byte.
pub byte_step-byte :
    (c p q : ℕ) → c < 2 ^ 32 → p < 256 → q < 256 → byte_step c p ≡ byte_step c q → p ≡ q
unfolding byte_step
byte_step-byte c p q hc hp hq e = omega (arith, low, high)
  where
    c₁ : ℕ
    c₁ = nibble_step c p

    d₁ : ℕ
    d₁ = nibble_step c q

    -- The two first steps agree above their lowest four bits, so they looked up one entry.
    tops : entry (bit_xor c p % 16) / 2 ^ 28 ≡ entry (bit_xor c q % 16) / 2 ^ 28
    tops =
        sym (top-nibble_step c p hc)
        ∙ omega (
          arith,
          nibble_step-high c₁ d₁ (p / 16) (q / 16) (nibble_step-lt c p hc) (nibble_step-lt c q hc)
              e,
        )
        ∙ top-nibble_step c q hc

    index : bit_xor c p % 16 ≡ bit_xor c q % 16
    index = entry-injective (bit_xor c p % 16) (bit_xor c q % 16) (omega arith) (omega arith) tops

    low : p % 16 ≡ q % 16
    low =
        xor-cancel_left (c % 16) (p % 16) (q % 16)
          (sym (xor-mod-pow 4 c p) ∙ index ∙ xor-mod-pow 4 c q)

    same : c₁ ≡ d₁
    same =
        nibble_step_lem c p ∙ ap (λ t. bit_xor (c / 16) (entry t)) index ∙ sym (nibble_step_lem c q)

    high : p / 16 % 16 ≡ q / 16 % 16
    high = xor-cancel_left (c₁ % 16) (p / 16 % 16) (q / 16 % 16) (
        sym (xor-mod-pow 4 c₁ (p / 16))
        ∙ nibble_step-index c₁ d₁ (p / 16) (q / 16) (nibble_step-lt c p hc) (nibble_step-lt c q hc)
            e
        ∙ xor-mod-pow 4 d₁ (q / 16)
        ∙ ap (λ t. bit_xor (t % 16) (q / 16 % 16)) (sym same))
