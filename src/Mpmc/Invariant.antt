-- ===== src/Mpmc/Invariant.antt =====
-- What holds between the steps. A position is free for a `push` once the `pop` of the position a
-- whole lap before is done; it is ready for a `pop` once its payload is stored. Both stay so for
-- good.
use lw_ipc.Base.{
  ℕ, ◌+◌, ◌-◌, ◌≤◌, ◌<◌, ◌≡◌, ◌≢◌, ◌⊎◌, sym, ap, ◌∙◌, arith, Option, none, some, true, false,
  dec_lt,
}
use lw_ipc.Ring.{IsCapacity, index}
use lw_ipc.Ring.Index.{index-eq-mod}
use lw_ipc.Ring.Log.{index-ne}
use lw_ipc.Ring.Concurrent.{Payload}
use lw_ipc.Mpmc.{
  max_positions, Pusher, idle, loaded, trying, stale, claimed, Popper, waiting, looking, taking,
  behind, reading, delivered, Memory, System, seq_at,
}

-- The first words of two payloads agree.
abbrev pub Prefix : {B : Type 0} → ℕ → Payload B → Payload B → Type 0
Prefix done a b = (k : ℕ) → k < done → a k ≡ b k

module _ {B : Type 0} (capacity words : ℕ) where
  abbrev pub item_at : Memory B → ℕ → Payload B
  item_at m pos = (m.ring.slots (index capacity pos)).item

  -- The slot of a position is not in use for an earlier one.
  abbrev pub Free : Memory B → ℕ → Type 0
  Free m p = (p < capacity) ⊎ ((capacity ≤ p) × (m.released (p - capacity) ≡ true))

  -- What holds of the positions.
  pub record Positions (m : Memory B) : Type 0 where
    pub order : m.ring.read_pos ≤ m.ring.write_pos
    pub small : m.ring.write_pos ≤ max_positions
    pub written_lt : (p : ℕ) → m.written p ≡ true → p < m.ring.write_pos
    pub released_lt : (p : ℕ) → m.released p ≡ true → p < m.ring.read_pos
    pub read_written : (p : ℕ) → p < m.ring.read_pos → m.written p ≡ true
    pub free : (p : ℕ) → p < m.ring.write_pos → Free m p

  -- What stands in the slots.
  pub record Slots (m : Memory B) : Type 0 where
    pub unused : (p : ℕ) → m.ring.write_pos ≤ p → p < capacity → seq_at capacity words m p ≡ p
    pub busy : (p : ℕ) → p < m.ring.write_pos → m.written p ≡ false → seq_at capacity words m p ≡ p
    pub stored :
        (p : ℕ)
        → p < m.ring.write_pos
        → m.written p ≡ true
        → m.released p ≡ false
        → (seq_at capacity words m p ≡ p + 1) × Prefix words (item_at m p) (m.pushed p)
    pub reusable :
        (p : ℕ)
        → p < m.ring.write_pos
        → m.ring.write_pos ≤ p + capacity
        → m.released p ≡ true
        → seq_at capacity words m p ≡ p + capacity

  abbrev pub Pushing : Memory B → Pusher B → Type 0
  Pushing m idle = Unit
  Pushing m (stale x) = Unit
  Pushing m (loaded pos x) = pos ≤ m.ring.write_pos
  Pushing m (trying pos x) = (pos ≤ m.ring.write_pos) × Free m pos
  Pushing m (claimed pos x done) =
      (pos < m.ring.write_pos)
      × (m.written pos ≡ false)
      × ((k : ℕ) → x k ≡ m.pushed pos k)
      × Prefix done (item_at m pos) (m.pushed pos)

  abbrev pub Popping : Memory B → Popper B → Type 0
  Popping m waiting = Unit
  Popping m behind = Unit
  Popping m (looking pos) = pos ≤ m.ring.read_pos
  Popping m (taking pos) = (pos ≤ m.ring.read_pos) × (m.written pos ≡ true)
  Popping m (reading pos done out) =
      (pos < m.ring.read_pos) × (m.released pos ≡ false) × Prefix done out (m.pushed pos)
  Popping m (delivered pos out) =
      (pos < m.ring.read_pos) × (m.released pos ≡ true) × Prefix words out (m.pushed pos)

-- The position that a producer or a consumer has claimed.
abbrev pub pushes_at : {B : Type 0} → Pusher B → Option ℕ
pushes_at (claimed pos x done) = some pos
pushes_at _ = none

abbrev pub pops_at : {B : Type 0} → Popper B → Option ℕ
pops_at (reading pos done out) = some pos
pops_at _ = none

-- No two have the same.
abbrev pub Apart : (ℕ → Option ℕ) → Type 0
Apart f = (i j p : ℕ) → i ≢ j → f i ≡ some p → f j ≢ some p

pub record Inv {B : Type 0} (capacity words : ℕ) (s : System B) : Type 0 where
  pub positions : Positions capacity words s.mem
  pub slots : Slots capacity words s.mem
  pub pushing : (i : ℕ) → Pushing capacity words s.mem (s.pushers i)
  pub popping : (i : ℕ) → Popping capacity words s.mem (s.poppers i)
  pub pushers_apart : Apart (λ i. pushes_at (s.pushers i))
  pub poppers_apart : Apart (λ i. pops_at (s.poppers i))

module _ {capacity : ℕ} (c : IsCapacity capacity) where
  -- A lap further on is the same slot.
  pub index-lap : (p : ℕ) → capacity ≤ p → index capacity p ≡ index capacity (p - capacity)
  index-lap p h = index-eq-mod c p ∙ grind arith ∙ sym (index-eq-mod c (p - capacity))

module _ {B : Type 0} {capacity words : ℕ} {m : Memory B} (o : Positions capacity words m) where
  -- A position that no `pop` is done with is less than a lap behind.
  pub window : (p : ℕ) → m.released p ≡ false → m.ring.write_pos ≤ p + capacity
  window p h = elim (dec_lt (p + capacity) m.ring.write_pos) [
    | yes lap ↦ ground (arith, o.free (p + capacity) lap, ap m.released back)
    | no near ↦ omega arith
  ]
    where
      back : p + capacity - capacity ≡ p
      back = omega arith

  pub not_read : (p : ℕ) → m.ring.read_pos ≤ p → m.released p ≡ false
  not_read p h = ground (arith, o.released_lt p)

  pub not_written : (p : ℕ) → m.ring.write_pos ≤ p → m.written p ≡ false
  not_written p h = ground (arith, o.written_lt p)

-- Two positions of one window have different slots.
pub apart_slots :
    {capacity : ℕ}
    → IsCapacity capacity
    → (end pos p : ℕ) → pos < end
    → end ≤ pos + capacity
    → p < end
    → end ≤ p + capacity
    → p ≢ pos
    → index capacity pos ≢ index capacity p
apart_slots c end pos p h near k near_p ne = elim (dec_lt p pos) [
  | yes before ↦ index-ne c p pos before (omega arith)
  | no after ↦ λ e. index-ne c pos p (omega arith) (omega arith) (sym e)
]

-- So have a claimed position and one that no slot was used for yet.
pub apart_unused :
    {capacity : ℕ}
    → IsCapacity capacity
    → (end pos p : ℕ) → pos < end
    → end ≤ p
    → p < capacity
    → index capacity pos ≢ index capacity p
apart_unused c end pos p h k l e = index-ne c pos p (omega arith) (omega arith) (sym e)
