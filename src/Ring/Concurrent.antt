-- ===== src/Ring/Concurrent.antt =====
-- `push` and `pop` of the shared-memory ring, one access to shared memory at a time, with the
-- payload copied word by word. One producer and any number of consumers are interleaved in any
-- order; every access takes effect at once and in program order (sequential consistency).
pub mod Invariant
pub mod Safety
mod Tests
use lw_ipc.Base.{ℕ, zero, suc, ◌-◌, ◌^◌, ◌≤◌, ◌<◌, ◌≡◌, ◌≢◌, ltb, if◌then◌else◌, ◌==◌}
use lw_ipc.Base.Words.{add64}
use lw_ipc.Ring.{Slot, index, writing_seq, ready_seq, update, store_sequence, store_item}
use lw_ipc.Ring.Shm.{ShmRing, open_create}

-- Fewer positions than this are ever used.
abbrev pub max_positions : ℕ
max_positions = 2 ^ 62

-- A payload as its words.
abbrev pub Payload : Type 0 → Type 0
Payload B = ℕ → B

-- Where the producer stands in `push`, with the locals that are live there.
pub data Producer (B : Type 0) : Type 0 where
  idle : Producer B
  claimed : (pos : ℕ) (x : Payload B) → Producer B
  copying : (pos : ℕ) (x : Payload B) (done : ℕ) → Producer B
  stored : Producer B

-- Where a consumer stands in `pop`; `pos` is its cursor and `out` what it has copied.
pub data Reader (B : Type 0) : Type 0 where
  between : (pos : ℕ) → Reader B
  checking : (pos : ℕ) → Reader B
  reading : (pos done : ℕ) (out : Payload B) → Reader B
  delivered : (pos : ℕ) (out : Payload B) → Reader B

module _ {B : Type 0} (capacity words : ℕ) where
  -- A step of the producer. Runs end before position 2^62, where sequence numbers would come near
  -- to wrapping.
  pub data Write (m : ShmRing (Payload B))
      : Producer B → ShmRing (Payload B) → Producer B → Type 0 where
    fetch_add :
        (x : Payload B)
        → m.write_pos < max_positions
        → Write m idle (record m { write_pos = add64 m.write_pos 1 }) (claimed m.write_pos x)
    mark :
        {pos : ℕ} {x : Payload B}
        → Write m
            (claimed pos x)
            (record m { slots = store_sequence m.slots (index capacity pos) (writing_seq pos) })
            (copying pos x 0)
    copy_in :
        {pos : ℕ} {x : Payload B} {done : ℕ}
        → done < words
        → Write m
            (copying pos x done)
            (record m {
              slots =
                  store_item m.slots
                    (index capacity pos)
                    (update (m.slots (index capacity pos)).item done (x done));
            })
            (copying pos x (suc done))
    publish :
        {pos : ℕ} {x : Payload B} {done : ℕ}
        → words ≤ done
        → Write m
            (copying pos x done)
            (record m { slots = store_sequence m.slots (index capacity pos) (ready_seq pos) })
            stored
    beat : (now : ℕ) → Write m stored (record m { last_heartbeat_ns = now }) idle

  -- A step of a consumer, which writes nothing that others see.
  pub data Read (m : ShmRing (Payload B)) : Reader B → Reader B → Type 0 where
    attach : {pos : ℕ} → Read m (between pos) (between m.write_pos)
    nothing_new : {pos : ℕ} → m.write_pos ≤ pos → Read m (between pos) (between pos)
    something_new :
        {pos : ℕ}
        → pos < m.write_pos
        → Read m
            (between pos)
            (checking (if ltb capacity (m.write_pos - pos) then m.write_pos - capacity else pos))
    not_ready :
        {pos : ℕ}
        → (m.slots (index capacity pos)).sequence ≢ ready_seq pos
        → Read m (checking pos) (between pos)
    is_ready :
        {pos : ℕ} (out : Payload B)
        → (m.slots (index capacity pos)).sequence ≡ ready_seq pos
        → Read m (checking pos) (reading pos 0 out)
    copy_out :
        {pos done : ℕ} {out : Payload B}
        → done < words
        → Read m
            (reading pos done out)
            (reading pos (suc done) (update out done ((m.slots (index capacity pos)).item done)))
    torn :
        {pos done : ℕ} {out : Payload B}
        → words ≤ done
        → (m.slots (index capacity pos)).sequence ≢ ready_seq pos
        → Read m (reading pos done out) (between pos)
    whole :
        {pos done : ℕ} {out : Payload B}
        → words ≤ done
        → (m.slots (index capacity pos)).sequence ≡ ready_seq pos
        → Read m (reading pos done out) (delivered pos out)
    give_back : {pos : ℕ} {out : Payload B} → Read m (delivered pos out) (between (add64 pos 1))

-- `pushed` is no part of the program: it records the payload of every position that was claimed.
pub record System (B : Type 0) : Type 0 where
  pub mem : ShmRing (Payload B)
  pub producer : Producer B
  pub readers : ℕ → Reader B
  pub pushed : ℕ → Payload B

module _ {B : Type 0} where
  abbrev pub note : Producer B → (ℕ → Payload B) → ℕ → Payload B
  note (claimed pos x) f = update f pos x
  note _ f = f

  pub data Step (capacity words : ℕ) (s : System B) : System B → Type 0 where
    produce :
        {m : ShmRing (Payload B)} {p : Producer B}
        → Write capacity words s.mem s.producer m p
        → Step capacity words s (record s { mem = m; producer = p; pushed = note p s.pushed })
    consume :
        (i : ℕ) {r : Reader B}
        → Read capacity words s.mem (s.readers i) r
        → Step capacity words s (record s { readers = update s.readers i r })

  -- A segment that was just created; the cursors start at position 0.
  abbrev pub start : Payload B → System B
  start blank = record {
    mem = record {
      write_pos = 0;
      last_heartbeat_ns = 0;
      slots = λ i. record { sequence = 0; item = blank };
    };
    producer = idle;
    readers = λ i. between 0;
    pushed = λ p. blank;
  }

  pub data Reach (capacity words : ℕ) (blank : Payload B) : System B → Type 0 where
    here : Reach capacity words blank (start blank)
    later :
        {s t : System B}
        → Reach capacity words blank s
        → Step capacity words s t
        → Reach capacity words blank t
