-- ===== src/Ring/Buffered.antt =====
-- `push` and `pop` with `AcqRelPolicy` of include/lwipc/sync_policy.hpp on a processor with store
-- buffers (x86): a store of the producer waits in a queue and reaches the shared memory later, in
-- order, and `fetch_add` waits until the queue is empty. A load of a consumer reads the shared
-- memory, in program order.
pub mod Refine
mod Tests
use lw_ipc.Base.{ℕ, suc, ◌≤◌, ◌<◌, ◌≡◌, List, [], ◌∷◌, ◌++◌}
use lw_ipc.Base.Words.{add64}
use lw_ipc.Ring.{index, writing_seq, ready_seq, update, store_sequence, store_item}
use lw_ipc.Ring.Shm.{ShmRing}
use lw_ipc.Ring.Concurrent.{
  max_positions, Payload, Producer, idle, claimed, copying, stored, Reader, between, Read, start,
}

-- A store that waits.
pub data Store (B : Type 0) : Type 0 where
  store_seq : (pos seq : ℕ) → Store B
  store_word : (pos done : ℕ) (word : B) → Store B
  store_beat : (now : ℕ) → Store B

module _ {B : Type 0} where
  -- It reaches the memory.
  abbrev pub reached : ℕ → Store B → ShmRing (Payload B) → ShmRing (Payload B)
  reached capacity (store_seq pos seq) m = record m {
    slots = store_sequence m.slots (index capacity pos) seq;
  }
  reached capacity (store_word pos done word) m = record m {
    slots =
        store_item m.slots (index capacity pos)
          (update (m.slots (index capacity pos)).item done word);
  }
  reached capacity (store_beat now) m = record m { last_heartbeat_ns = now }

  -- The stores of `push`, in program order.
  pub data Emit (words : ℕ) : Producer B → Store B → Producer B → Type 0 where
    mark :
        {pos : ℕ} {x : Payload B}
        → Emit words (claimed pos x) (store_seq pos (writing_seq pos)) (copying pos x 0)
    copy_in :
        {pos : ℕ} {x : Payload B} {done : ℕ}
        → done < words
        → Emit words (copying pos x done) (store_word pos done (x done)) (copying pos x (suc done))
    publish :
        {pos : ℕ} {x : Payload B} {done : ℕ}
        → words ≤ done
        → Emit words (copying pos x done) (store_seq pos (ready_seq pos)) stored
    beat : (now : ℕ) → Emit words stored (store_beat now) idle

-- `pushed` is no part of the program: it records the payload of every position that was claimed.
pub record System (B : Type 0) : Type 0 where
  pub mem : ShmRing (Payload B)
  pub pending : List (Store B)
  pub producer : Producer B
  pub readers : ℕ → Reader B
  pub pushed : ℕ → Payload B

module _ {B : Type 0} where
  pub data Step (capacity words : ℕ) (s : System B) : System B → Type 0 where
    fetch_add :
        (x : Payload B)
        → s.pending ≡ []
        → s.producer ≡ idle
        → s.mem.write_pos < max_positions
        → Step capacity words s (record s {
          mem = record (s.mem) { write_pos = add64 s.mem.write_pos 1 };
          pending = [];
          producer = claimed s.mem.write_pos x;
          pushed = update s.pushed s.mem.write_pos x;
        })
    emit :
        {st : Store B} {p : Producer B}
        → Emit words s.producer st p
        → Step capacity words s (record s { pending = s.pending ++ (st ∷ []); producer = p })
    reach :
        {st : Store B} {rest : List (Store B)}
        → s.pending ≡ st ∷ rest
        → Step capacity words s (record s { mem = reached capacity st s.mem; pending = rest })
    consume :
        (i : ℕ) {r : Reader B}
        → Read capacity words s.mem (s.readers i) r
        → Step capacity words s (record s { readers = update s.readers i r })

  pub data Reach (capacity words : ℕ) (blank : Payload B) : System B → Type 0 where
    here : Reach capacity words blank (record {
      mem = (start blank).mem;
      pending = [];
      producer = idle;
      readers = λ i. between 0;
      pushed = λ p. blank;
    })
    later :
        {s t : System B}
        → Reach capacity words blank s
        → Step capacity words s t
        → Reach capacity words blank t
