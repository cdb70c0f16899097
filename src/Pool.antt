-- ===== src/Pool.antt =====
-- `ObjectPool` of include/lwipc/object_pool.hpp: fixed slots and a free list of indices, whose
-- head is packed with a tag into one 64-bit word. A call runs here without interference, so that
-- its compare-exchange succeeds: one that fails goes round the loop with the head that it found.
pub mod Word
pub mod Chain
pub mod Owns
pub mod Loan
pub mod Concurrent
mod Tests
use lw_ipc.Base.{
  ℕ, zero, suc, ◌+◌, ◌-◌, ◌*◌, ◌/◌, ◌%◌, ◌^◌, ◌≤◌, ◌≡◌, Bool, ◌||◌, Option, none, some, bit_and,
  bit_or, ltb, ◌==◌, if◌then◌else◌,
}
use lw_ipc.Base.Words.{add64, u16}
use lw_ipc.Ring.{update}

abbrev pub k_null_index : ℕ
k_null_index = 0xFFFF

-- `static_assert`: a power of two that fits the index.
pub record IsPoolCapacity (capacity : ℕ) : Type 0 where
  pub log2 : ℕ
  pub power : capacity ≡ 2 ^ log2
  pub small : capacity ≤ 65535

-- `pack`, `index_of` and `tag_of`, on `uint64_t`.
unfoldable pub pack : ℕ → ℕ → ℕ
pack idx tag = bit_or (tag * 2 ^ 16 % 2 ^ 64) idx

unfoldable pub index_of : ℕ → ℕ
index_of v = u16 (bit_and v 0xFFFF)

unfoldable pub tag_of : ℕ → ℕ
tag_of v = v / 2 ^ 16

-- `next_`, `head_` and the objects in `storage_`.
pub record Pool (A : Type 0) : Type 0 where
  pub next : ℕ → ℕ
  pub head : ℕ
  pub storage : ℕ → A

-- The loop of `available`: it stops at the end of the list, or when the count passes the capacity.
-- `fuel` bounds the rounds.
unfoldable pub count_loop : ℕ → ℕ → (ℕ → ℕ) → ℕ → ℕ → ℕ
count_loop zero capacity next count idx = count
count_loop (suc fuel) capacity next count idx =
    let rest = count_loop fuel capacity next (count + 1) (next idx) in
    if (idx == k_null_index) || ltb capacity count then count else rest

module _ {A : Type 0} where
  -- The constructor. The bytes of the slots are zero.
  unfoldable pub new_pool : ℕ → A → Pool A
  new_pool capacity zeroed = record {
    next = λ i. if ltb (i + 1) capacity then u16 (i + 1) else k_null_index;
    head = pack 0 0;
    storage = λ i. zeroed;
  }

  -- `acquire` returns the index of the slot, or `none` for a null pointer.
  unfoldable pub acquire : Pool A → Option ℕ × Pool A
  acquire p =
      let idx = index_of p.head in
      if idx == k_null_index
      then (none, p)
      else (some idx, record p { head = pack (p.next idx) (add64 (tag_of p.head) 1) })

  -- `release` of the slot with this index.
  unfoldable pub release : ℕ → Pool A → Pool A
  release idx p = record p {
    next = update p.next idx (index_of p.head);
    head = pack idx (add64 (tag_of p.head) 1);
  }

  unfoldable pub available : ℕ → Pool A → ℕ
  available capacity p = count_loop (capacity + 2) capacity p.next 0 (index_of p.head)

-- A slot's address relative to the first, and `index_of_ptr`.
abbrev pub slot_ptr : ℕ → ℕ → ℕ
slot_ptr k_slot_size idx = idx * k_slot_size

abbrev pub index_of_ptr : ℕ → ℕ → ℕ
index_of_ptr k_slot_size p = u16 (p / k_slot_size)
