-- ===== src/Ring.antt =====
-- The two ring buffers with one producer and many consumers: `ShmRingBuffer`
-- (include/lwipc/shm_ring_buffer.hpp) and `IntraRingBuffer` (include/lwipc/publisher.hpp).
-- Here are the parts that they share: a slot, the index of a position, and the capacities.
pub mod Index
pub mod Shm
pub mod Segment
pub mod Intra
pub mod Log
pub mod Trace
pub mod Concurrent
pub mod Buffered
mod Tests
use lw_ipc.Base.{ℕ, ◌-◌, ◌^◌, ◌≤◌, ◌≡◌, bit_and, ◌==◌, if◌then◌else◌}
use lw_ipc.Base.Words.{add64, mul64}

-- `Slot`: `item` is the member `data`.
pub record Slot {ℓ} (A : Type ℓ) : Type ℓ where
  pub sequence : ℕ
  pub item : A

-- `Capacity` is a power of two, at least 2 (the `static_assert`). A position is a `uint64_t`.
pub record IsCapacity (capacity : ℕ) : Type 0 where
  pub log2 : ℕ
  pub pos : 1 ≤ log2
  pub power : capacity ≡ 2 ^ log2

-- `kMask`, and the slot of a position.
abbrev pub k_mask : ℕ → ℕ
k_mask capacity = capacity - 1

abbrev pub index : ℕ → ℕ → ℕ
index capacity pos = bit_and pos (k_mask capacity)

-- The sequence numbers of a slot that is being written, and that is ready.
abbrev pub writing_seq : ℕ → ℕ
writing_seq pos = mul64 pos 2

abbrev pub ready_seq : ℕ → ℕ
ready_seq pos = add64 (mul64 pos 2) 1

module _ {ℓ} {A : Type ℓ} where
  -- The slots as a function of the index, and a write to one of them.
  abbrev pub update : (ℕ → A) → ℕ → A → ℕ → A
  update f i a j = if i == j then a else f j

module _ {ℓ} {A : Type ℓ} where
  abbrev pub store_sequence : (ℕ → Slot A) → ℕ → ℕ → ℕ → Slot A
  store_sequence slots i seq = update slots i (record (slots i) { sequence = seq })

  abbrev pub store_item : (ℕ → Slot A) → ℕ → A → ℕ → Slot A
  store_item slots i item = update slots i (record (slots i) { item = item })
