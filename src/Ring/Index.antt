-- ===== src/Ring/Index.antt =====
-- Where positions lie in a ring.
use native.Mathlib.Nat.{div-add-mod'}
use lw_ipc.Base.{
  ℕ, ◌+◌, ◌-◌, ◌*◌, ◌/◌, ◌%◌, ◌≤◌, ◌<◌, ◌≡◌, ◌≢◌, sym, ap, ◌∙◌, arith, bit_and, dec_lt,
}
use lw_ipc.Base.Bits.{and_mask, one-le-two-pow, two-le-two-pow}
use lw_ipc.Ring.{IsCapacity, index}

module _ {capacity : ℕ} (c : IsCapacity capacity) where
  -- Masking a position is taking its remainder.
  pub index-eq-mod : (pos : ℕ) → index capacity pos ≡ pos % capacity
  index-eq-mod pos =
      ap (λ t. bit_and pos (t - 1)) c.power ∙ and_mask c.log2 pos ∙ ap (λ t. pos % t) (sym c.power)

  pub capacity_pos : 1 ≤ capacity
  capacity_pos = omega (arith, c.power, one-le-two-pow c.log2)

  pub two-le-capacity : 2 ≤ capacity
  two-le-capacity = omega (arith, c.power, two-le-two-pow c.log2 c.pos)

mul-lt-step : (a b c : ℕ) → a < b → a * c + c ≤ b * c
mul-lt-step a b c h = grind arith

not-lap : (a b c r d : ℕ) → a < b → b * c + r ≡ a * c + r + d → d < c → ⊥
not-lap a b c r d h e small = omega (arith, mul-lt-step a b c h)

-- Fewer than `capacity` positions apart, two positions have different slots.
pub mod-ne : (capacity p q : ℕ) → p < q → q < p + capacity → p % capacity ≢ q % capacity
mod-ne capacity p q h near e = elim (dec_lt (p / capacity) (q / capacity)) [
  | yes later ↦
      not-lap (p / capacity) (q / capacity) capacity (p % capacity) (q - p) later
        (omega (arith, div-add-mod' p capacity, div-add-mod' q capacity)) (omega arith)
  | no same ↦ omega (arith, below, div-add-mod' p capacity, div-add-mod' q capacity)
]
  where
    below : q / capacity * capacity ≤ p / capacity * capacity
    below = grind arith
