-- ===== src/Base/Bits.antt =====
-- Laws of the native bit operations at variables, by recursion on the binary digits.
use Prim.Native.Nat.{
  ℕ, zero, suc, ◌+◌, ◌-◌, ◌*◌, ◌/◌, ◌%◌, ◌^◌, ◌≤◌, ◌<◌, min, max, bit_and, bit_or, bit_xor, digits,
  differ, bit_and-bitwise, bit_or-bitwise, bit_xor-bitwise,
}
use mathlib.Core.Path.{◌≡◌, refl, sym, ap, ap₂, ◌∙◌}
use native.Mathlib.Omega.{arith}
use native.Mathlib.Nat.{
  pow-suc, div-add-mod', mod-lt, mod-eq_of_lt, add-mul-mod_self_right, div-div-eq-div-mul,
}

differ_lem : (x y : ℕ) → x < 2 → y < 2 → differ x y ≡ (x + y) % 2
differ_lem zero y hx hy = omega arith
differ_lem (suc zero) zero hx hy = refl
differ_lem (suc zero) (suc zero) hx hy = refl
differ_lem (suc zero) (suc (suc y)) hx hy = absurd (omega arith)
differ_lem (suc (suc x)) y hx hy = absurd (omega arith)

abbrev xor_digits : ℕ → ℕ → ℕ → ℕ
xor_digits n a b = digits (λ b. b) differ n a b

abbrev or_digits : ℕ → ℕ → ℕ → ℕ
or_digits n a b = digits (λ b. b) max n a b

abbrev and_digits : ℕ → ℕ → ℕ → ℕ
and_digits n a b = digits (λ b. 0) min n a b

module _ (z : ℕ → ℕ) (f : ℕ → ℕ → ℕ) where
  digits_of_zero : (count b : ℕ) → digits z f count 0 b ≡ z b
  digits_of_zero zero b = refl
  digits_of_zero (suc count) b = refl

  -- More digits than the first number has do not matter.
  digits_more : (a few many b : ℕ) → a ≤ few → few ≤ many → digits z f few a b ≡ digits z f many a b
  digits_more zero few many b p q = digits_of_zero few b ∙ sym (digits_of_zero many b)
  digits_more (suc a) zero many b p q = absurd (omega arith)
  digits_more (suc a) (suc few) zero b p q = absurd (omega arith)
  digits_more (suc a) (suc few) (suc many) b p q =
      ap (λ t. t * 2 + f (suc a % 2) (b % 2))
        (digits_more (suc a / 2) few many (b / 2) (omega arith) (omega arith))

pub zero-xor : (b : ℕ) → bit_xor 0 b ≡ b
zero-xor b = bit_xor-bitwise 0 b

zero-or : (b : ℕ) → bit_or 0 b ≡ b
zero-or b = bit_or-bitwise 0 b

zero-and : (b : ℕ) → bit_and 0 b ≡ 0
zero-and b = bit_and-bitwise 0 b

pub xor_step : (a b : ℕ) → bit_xor a b ≡ bit_xor (a / 2) (b / 2) * 2 + (a % 2 + b % 2) % 2
xor_step zero b = omega (arith, zero-xor b, zero-xor (b / 2))
xor_step (suc a) b = omega (
  arith,
  bit_xor-bitwise (suc a) b,
  bit_xor-bitwise (suc a / 2) (b / 2),
  digits_more (λ b. b) differ (suc a / 2) (suc a / 2) a (b / 2) (omega arith) (omega arith),
  differ_lem (suc a % 2) (b % 2) (omega arith) (omega arith),
)

or_step : (a b : ℕ) → bit_or a b ≡ bit_or (a / 2) (b / 2) * 2 + max (a % 2) (b % 2)
or_step zero b = omega (arith, zero-or b, zero-or (b / 2))
or_step (suc a) b = omega (
  arith,
  bit_or-bitwise (suc a) b,
  bit_or-bitwise (suc a / 2) (b / 2),
  digits_more (λ b. b) max (suc a / 2) (suc a / 2) a (b / 2) (omega arith) (omega arith),
)

and_step : (a b : ℕ) → bit_and a b ≡ bit_and (a / 2) (b / 2) * 2 + min (a % 2) (b % 2)
and_step zero b = omega (arith, zero-and b, zero-and (b / 2))
and_step (suc a) b = omega (
  arith,
  bit_and-bitwise (suc a) b,
  bit_and-bitwise (suc a / 2) (b / 2),
  digits_more (λ b. 0) min (suc a / 2) (suc a / 2) a (b / 2) (omega arith) (omega arith),
)

-- Induction on the binary digits: a number above zero from its half.
halve_up_to :
    {P : ℕ → Type 0} → P 0 → ((a : ℕ) → 0 < a → P (a / 2) → P a) → (bound a : ℕ) → a ≤ bound → P a
halve_up_to base step bound zero h = base
halve_up_to base step zero (suc a) h = absurd (omega arith)
halve_up_to base step (suc bound) (suc a) h =
    step (suc a) (omega arith) (halve_up_to base step bound (suc a / 2) (omega arith))

by_halves : (P : ℕ → Type 0) → P 0 → ((a : ℕ) → 0 < a → P (a / 2) → P a) → (a : ℕ) → P a
by_halves P base step a = halve_up_to {P = P} base step a a (omega arith)

pub xor-zero : (a : ℕ) → bit_xor a 0 ≡ a
xor-zero = by_halves (λ a. bit_xor a 0 ≡ a) refl (λ a pos ih. omega (arith, xor_step a 0))

and-zero : (a : ℕ) → bit_and a 0 ≡ 0
and-zero = by_halves (λ a. bit_and a 0 ≡ 0) refl (λ a pos ih. omega (arith, and_step a 0))

or-zero : (a : ℕ) → bit_or a 0 ≡ a
or-zero = by_halves (λ a. bit_or a 0 ≡ a) refl (λ a pos ih. omega (arith, or_step a 0))

pub xor_self : (a : ℕ) → bit_xor a a ≡ 0
xor_self = by_halves (λ a. bit_xor a a ≡ 0) refl (λ a pos ih. omega (arith, xor_step a a))

pub xor_comm : (a b : ℕ) → bit_xor a b ≡ bit_xor b a
xor_comm =
    by_halves (λ a. (b : ℕ) → bit_xor a b ≡ bit_xor b a) (λ b. zero-xor b ∙ sym (xor-zero b))
      (λ a pos ih b. omega (arith, xor_step a b, xor_step b a, ih (b / 2)))

xor-div-two : (a b : ℕ) → bit_xor a b / 2 ≡ bit_xor (a / 2) (b / 2)
xor-div-two a b = omega (arith, xor_step a b)

xor-mod-two : (a b : ℕ) → bit_xor a b % 2 ≡ (a % 2 + b % 2) % 2
xor-mod-two a b = omega (arith, xor_step a b)

-- Two numbers with the same half and the same last digit are the same.
eq_of_half : (x y : ℕ) → x / 2 ≡ y / 2 → x % 2 ≡ y % 2 → x ≡ y
eq_of_half x y h k = omega arith

xor_assoc_step :
    (a b c : ℕ)
    → bit_xor (bit_xor (a / 2) (b / 2)) (c / 2) ≡ bit_xor (a / 2) (bit_xor (b / 2) (c / 2))
    → bit_xor (bit_xor a b) c ≡ bit_xor a (bit_xor b c)
xor_assoc_step a b c ih =
    eq_of_half _ _
      (xor-div-two (bit_xor a b) c
        ∙ ap (λ t. bit_xor t (c / 2)) (xor-div-two a b)
        ∙ ih
        ∙ ap (λ t. bit_xor (a / 2) t) (sym (xor-div-two b c))
        ∙ sym (xor-div-two a (bit_xor b c)))
      (omega (
        arith,
        xor-mod-two (bit_xor a b) c,
        xor-mod-two a b,
        xor-mod-two a (bit_xor b c),
        xor-mod-two b c,
      ))

pub xor_assoc : (a b c : ℕ) → bit_xor (bit_xor a b) c ≡ bit_xor a (bit_xor b c)
xor_assoc =
    by_halves (λ a. (b c : ℕ) → bit_xor (bit_xor a b) c ≡ bit_xor a (bit_xor b c))
      (λ b c. ap (λ t. bit_xor t c) (zero-xor b) ∙ sym (zero-xor (bit_xor b c)))
      (λ a pos ih b c. xor_assoc_step a b c (ih (b / 2) (c / 2)))

pub xor_half : (a b : ℕ) → bit_xor a b / 2 ≡ bit_xor (a / 2) (b / 2)
xor_half = xor-div-two

pub xor_odd : (a b : ℕ) → bit_xor a b % 2 ≡ (a % 2 + b % 2) % 2
xor_odd = xor-mod-two

-- The result has no more digits than the operands.
pub xor-lt-pow : (k a b : ℕ) → a < 2 ^ k → b < 2 ^ k → bit_xor a b < 2 ^ k
xor-lt-pow zero a b ha hb = omega (arith, ap₂ bit_xor za zb)
  where
    za : a ≡ 0
    za = omega arith

    zb : b ≡ 0
    zb = omega arith
xor-lt-pow (suc k) a b ha hb = omega (
  arith,
  pow-suc 2 k,
  xor_step a b,
  xor-lt-pow k (a / 2) (b / 2) (omega (arith, pow-suc 2 k)) (omega (arith, pow-suc 2 k)),
)

mod-double : (m a : ℕ) → 0 < m → a % (m * 2) ≡ a / 2 % m * 2 + a % 2
mod-double m a h =
    ap (λ t. t % (m * 2)) whole ∙ add-mul-mod_self_right low (a / 2 / m) (m * 2) ∙ mod-eq_of_lt fits
  where
    low : ℕ
    low = a / 2 % m * 2 + a % 2

    fits : low < m * 2
    fits = omega (arith, mod-lt (a / 2) h)

    whole : a ≡ low + a / 2 / m * (m * 2)
    whole = omega (arith, div-add-mod' (a / 2) m)

pub one-le-two-pow : (k : ℕ) → 1 ≤ 2 ^ k
one-le-two-pow zero = omega arith
one-le-two-pow (suc k) = omega (arith, pow-suc 2 k, one-le-two-pow k)

pub two-le-two-pow : (k : ℕ) → 1 ≤ k → 2 ≤ 2 ^ k
two-le-two-pow zero h = absurd (omega arith)
two-le-two-pow (suc k) h = omega (arith, pow-suc 2 k, one-le-two-pow k)

-- `a & (2^k - 1)` is the remainder by `2^k`.
pub and_mask : (k a : ℕ) → bit_and a (2 ^ k - 1) ≡ a % 2 ^ k
and_mask zero a = omega (arith, and-zero a)
and_mask (suc k) a =
    and_step a (2 ^ suc k - 1)
    ∙ ap₂ (λ s t. s * 2 + t) (ap (bit_and (a / 2)) half ∙ and_mask k (a / 2)) last
    ∙ sym (mod-double (2 ^ k) a (one-le-two-pow k))
    ∙ ap (λ t. a % t) (sym (pow-suc 2 k))
  where
    half : (2 ^ suc k - 1) / 2 ≡ 2 ^ k - 1
    half = omega (arith, pow-suc 2 k, one-le-two-pow k)

    last : min (a % 2) ((2 ^ suc k - 1) % 2) ≡ a % 2
    last = omega (arith, pow-suc 2 k, one-le-two-pow k)

-- `(a << k) | b` with `b` below `2^k` is a sum.
pub or_shift : (k a b : ℕ) → b < 2 ^ k → bit_or (a * 2 ^ k) b ≡ a * 2 ^ k + b
or_shift zero a b h = ap₂ bit_or one zb ∙ or-zero a ∙ omega arith
  where
    zb : b ≡ 0
    zb = omega arith

    one : a * 2 ^ 0 ≡ a
    one = omega arith
or_shift (suc k) a b h =
    or_step (a * 2 ^ suc k) b
    ∙ ap₂ (λ s t. s * 2 + t) (ap (λ t. bit_or t (b / 2)) half ∙ or_shift k a (b / 2) fits) last
    ∙ omega (arith, whole)
  where
    whole : a * 2 ^ suc k ≡ a * 2 ^ k * 2
    whole = ap (λ t. a * t) (pow-suc 2 k) ∙ omega arith

    fits : b / 2 < 2 ^ k
    fits = omega (arith, pow-suc 2 k)

    half : a * 2 ^ suc k / 2 ≡ a * 2 ^ k
    half = omega (arith, whole)

    last : max (a * 2 ^ suc k % 2) (b % 2) ≡ b % 2
    last = omega (arith, whole)

div-pow-suc : (k a : ℕ) → a / 2 ^ suc k ≡ a / 2 / 2 ^ k
div-pow-suc k a = ap (λ t. a / t) (pow-suc 2 k ∙ two_left) ∙ sym (div-div-eq-div-mul a 2 (2 ^ k))
  where
    two_left : 2 ^ k * 2 ≡ 2 * 2 ^ k
    two_left = omega arith

pub xor-div-pow : (k a b : ℕ) → bit_xor a b / 2 ^ k ≡ bit_xor (a / 2 ^ k) (b / 2 ^ k)
xor-div-pow zero a b = omega (arith, ap₂ bit_xor (div_one a) (div_one b))
  where
    div_one : (x : ℕ) → x / 2 ^ 0 ≡ x
    div_one x = omega arith
xor-div-pow (suc k) a b =
    div-pow-suc k (bit_xor a b)
    ∙ ap (λ t. t / 2 ^ k) (xor_half a b)
    ∙ xor-div-pow k (a / 2) (b / 2)
    ∙ ap₂ bit_xor (sym (div-pow-suc k a)) (sym (div-pow-suc k b))

mod-pow-suc : (k a : ℕ) → a % 2 ^ suc k ≡ a / 2 % 2 ^ k * 2 + a % 2
mod-pow-suc k a = ap (λ t. a % t) (pow-suc 2 k) ∙ mod-double (2 ^ k) a (one-le-two-pow k)

pub xor-mod-pow : (k a b : ℕ) → bit_xor a b % 2 ^ k ≡ bit_xor (a % 2 ^ k) (b % 2 ^ k)
xor-mod-pow zero a b = omega (arith, ap₂ bit_xor (mod_one a) (mod_one b))
  where
    mod_one : (x : ℕ) → x % 2 ^ 0 ≡ 0
    mod_one x = omega arith
xor-mod-pow (suc k) a b =
    eq_of_half _ _
      (half (bit_xor a b)
        ∙ ap (λ t. t % 2 ^ k) (xor_half a b)
        ∙ xor-mod-pow k (a / 2) (b / 2)
        ∙ ap₂ bit_xor (sym (half a)) (sym (half b))
        ∙ sym (xor_half (a % 2 ^ suc k) (b % 2 ^ suc k)))
      (omega (
        arith,
        mod-pow-suc k (bit_xor a b),
        xor_odd a b,
        xor_odd (a % 2 ^ suc k) (b % 2 ^ suc k),
        mod-pow-suc k a,
        mod-pow-suc k b,
      ))
  where
    half : (x : ℕ) → x % 2 ^ suc k / 2 ≡ x / 2 % 2 ^ k
    half x = omega (arith, mod-pow-suc k x)

-- `(a << k) ^ b` with `b` below `2^k` is a sum.
pub xor_shift : (k a b : ℕ) → b < 2 ^ k → bit_xor (a * 2 ^ k) b ≡ a * 2 ^ k + b
xor_shift zero a b h = ap₂ bit_xor one zb ∙ xor-zero a ∙ omega arith
  where
    zb : b ≡ 0
    zb = omega arith

    one : a * 2 ^ 0 ≡ a
    one = omega arith
xor_shift (suc k) a b h =
    xor_step (a * 2 ^ suc k) b
    ∙ ap₂ (λ s t. s * 2 + t) (ap (λ t. bit_xor t (b / 2)) half ∙ xor_shift k a (b / 2) fits) last
    ∙ omega (arith, whole)
  where
    whole : a * 2 ^ suc k ≡ a * 2 ^ k * 2
    whole = ap (λ t. a * t) (pow-suc 2 k) ∙ omega arith

    fits : b / 2 < 2 ^ k
    fits = omega (arith, pow-suc 2 k)

    half : a * 2 ^ suc k / 2 ≡ a * 2 ^ k
    half = omega (arith, whole)

    last : (a * 2 ^ suc k % 2 + b % 2) % 2 ≡ b % 2
    last = omega (arith, whole)

-- `x` on both sides cancels.
pub xor-cancel_left : (x a b : ℕ) → bit_xor x a ≡ bit_xor x b → a ≡ b
xor-cancel_left x a b h = sym (undo a) ∙ ap (bit_xor x) h ∙ undo b
  where
    undo : (c : ℕ) → bit_xor x (bit_xor x c) ≡ c
    undo c = sym (xor_assoc x x c) ∙ ap (λ t. bit_xor t c) (xor_self x) ∙ zero-xor c

pub xor-cancel_right : (x a b : ℕ) → bit_xor a x ≡ bit_xor b x → a ≡ b
xor-cancel_right x a b h = xor-cancel_left x a b (xor_comm x a ∙ h ∙ xor_comm b x)

pub xor_twice : (a x : ℕ) → bit_xor (bit_xor a x) x ≡ a
xor_twice a x = xor_assoc a x x ∙ ap (bit_xor a) (xor_self x) ∙ xor-zero a

pub xor_swap :
    (a b c d : ℕ) → bit_xor (bit_xor a b) (bit_xor c d) ≡ bit_xor (bit_xor a c) (bit_xor b d)
xor_swap a b c d =
    xor_assoc a b (bit_xor c d)
    ∙ ap (bit_xor a)
        (sym (xor_assoc b c d) ∙ ap (λ t. bit_xor t d) (xor_comm b c) ∙ xor_assoc c b d)
    ∙ sym (xor_assoc a c (bit_xor b d))
