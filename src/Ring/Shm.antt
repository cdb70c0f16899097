-- ===== src/Ring/Shm.antt =====
-- `ShmRingBuffer`: the control block and the slots in shared memory, `push` and `pop`. A whole call
-- runs here without interference.
use lw_ipc.Base.{ℕ, ◌-◌, Bool, false, ◌&&◌, Option, none, some, ltb, leb, ◌==◌, if◌then◌else◌}
use lw_ipc.Base.Words.{add64}
use lw_ipc.Ring.{Slot, index, writing_seq, ready_seq, store_sequence, store_item}

-- `ControlBlock` and the slots.
pub record ShmRing {ℓ} (A : Type ℓ) : Type ℓ where
  pub write_pos : ℕ
  pub last_heartbeat_ns : ℕ
  pub slots : ℕ → Slot A

module _ {ℓ} {A : Type ℓ} where
  -- What `open_shm` leaves in a segment that it creates. `blank` is `T{}`.
  unfoldable pub open_create : A → ShmRing A
  open_create blank = record {
    write_pos = 0;
    last_heartbeat_ns = 0;
    slots = λ i. record { sequence = 0; item = blank };
  }

  -- `push` returns the position it used. `now` is what the clock says at the end of the call.
  unfoldable pub push : ℕ → ShmRing A → A → ℕ → ℕ × ShmRing A
  push capacity r item now =
      let pos = r.write_pos in
      let i = index capacity pos in
      let marked = store_sequence r.slots i (writing_seq pos) in
      let copied = store_item marked i item in
      let ready = store_sequence copied i (ready_seq pos) in
      (pos, record { write_pos = add64 pos 1; last_heartbeat_ns = now; slots = ready })

  -- The part of `pop` behind the fast-forward. Both loads of the sequence number see one value.
  unfoldable pub pop_slot : ℕ → ShmRing A → ℕ → Option A × ℕ
  pop_slot capacity r pos =
      let slot = r.slots (index capacity pos) in
      if slot.sequence == ready_seq pos
      then (if slot.sequence == ready_seq pos then (some slot.item, add64 pos 1) else (none, pos))
      else (none, pos)

  -- `pop` returns what went through `out`, if it returned true, and the cursor.
  unfoldable pub pop : ℕ → ShmRing A → ℕ → Option A × ℕ
  pop capacity r pos =
      if leb r.write_pos pos
      then (none, pos)
      else pop_slot capacity r
          (if ltb capacity (r.write_pos - pos) then r.write_pos - capacity else pos)

  unfoldable pub make_cursor : ShmRing A → ℕ
  make_cursor r = r.write_pos

  unfoldable pub producer_alive : ShmRing A → ℕ → ℕ → Bool
  producer_alive r timeout_ns now =
      if r.last_heartbeat_ns == 0
      then false
      else leb r.last_heartbeat_ns now && leb (now - r.last_heartbeat_ns) timeout_ns

abbrev pub make_cursor_from_start : ℕ
make_cursor_from_start = 0
