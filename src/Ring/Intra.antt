-- ===== src/Ring/Intra.antt =====
-- `IntraRingBuffer`: the ring in the memory of one process. It has no heartbeat; `push`, `pop` and
-- the cursor are written out again in the source, and so here.
use lw_ipc.Base.{ℕ, ◌-◌, ◌≡◌, refl, Option, none, some, ltb, leb, ◌==◌, if◌then◌else◌}
use lw_ipc.Base.Words.{add64}
use lw_ipc.Ring.{Slot, index, writing_seq, ready_seq, store_sequence, store_item}
use lw_ipc.Ring.Shm
use lw_ipc.Ring.Shm.{ShmRing}

pub record IntraRing {ℓ} (A : Type ℓ) : Type ℓ where
  pub write_pos : ℕ
  pub slots : ℕ → Slot A

module _ {ℓ} {A : Type ℓ} where
  -- `IntraRingBuffer{}`
  unfoldable pub new_ring : A → IntraRing A
  new_ring blank = record { write_pos = 0; slots = λ i. record { sequence = 0; item = blank } }

  unfoldable pub push : ℕ → IntraRing A → A → ℕ × IntraRing A
  push capacity r item =
      let pos = r.write_pos in
      let i = index capacity pos in
      let marked = store_sequence r.slots i (writing_seq pos) in
      let copied = store_item marked i item in
      (pos, record { write_pos = add64 pos 1; slots = store_sequence copied i (ready_seq pos) })

  unfoldable pub pop_slot : ℕ → IntraRing A → ℕ → Option A × ℕ
  pop_slot capacity r pos =
      let s = r.slots (index capacity pos) in
      if s.sequence == ready_seq pos
      then (if s.sequence == ready_seq pos then (some s.item, add64 pos 1) else (none, pos))
      else (none, pos)

  unfoldable pub pop : ℕ → IntraRing A → ℕ → Option A × ℕ
  pop capacity r pos =
      if leb r.write_pos pos
      then (none, pos)
      else pop_slot capacity r
          (if ltb capacity (r.write_pos - pos) then r.write_pos - capacity else pos)

  unfoldable pub make_cursor : IntraRing A → ℕ
  make_cursor r = r.write_pos

  -- A shared-memory ring without its heartbeat.
  abbrev pub forget : ShmRing A → IntraRing A
  forget r = record { write_pos = r.write_pos; slots = r.slots }

  pub forget-open_create : (blank : A) → forget (Shm.open_create blank) ≡ new_ring blank
  unfolding Shm.open_create new_ring
  forget-open_create blank = refl

  pub forget-push :
      (capacity : ℕ) (r : ShmRing A) (item : A) (now : ℕ)
      → let (pos, r') = Shm.push capacity r item now in
        (pos, forget r') ≡ push capacity (forget r) item
  unfolding Shm.push push
  forget-push capacity r item now = refl

  pub forget-pop :
      (capacity : ℕ) (r : ShmRing A) (pos : ℕ)
      → Shm.pop capacity r pos ≡ pop capacity (forget r) pos
  unfolding Shm.pop Shm.pop_slot pop pop_slot
  forget-pop capacity r pos = refl
