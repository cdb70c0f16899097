-- ===== src/Mpmc.antt =====
-- `MpmcRingBuffer` of include/lwipc/mpmc_ring_buffer.hpp, one shared access at a time, with the
-- payload copied word by word. Any number of producers and consumers are interleaved in any order;
-- every access takes effect at once and in program order (sequential consistency).
pub mod Invariant
pub mod Pushing
pub mod Storing
pub mod Popping
pub mod Releasing
pub mod Steps
pub mod Runs
pub mod Delivery
pub mod Answers
mod Tests
use lw_ipc.Base.{
  ℕ, zero, suc, ◌+◌, ◌-◌, ◌%◌, ◌^◌, ◌≤◌, ◌<◌, ◌≡◌, ◌≢◌, Bool, true, false, ltb, leb, ◌==◌,
  if◌then◌else◌,
}
use lw_ipc.Base.Words.{add64, sub64}
use lw_ipc.Ring.{Slot, index, update, store_sequence, store_item}
use lw_ipc.Ring.Concurrent.{Payload}

-- The members. `Capacity` is an argument.
pub record MpmcRing {ℓ} (A : Type ℓ) : Type ℓ where
  pub write_pos : ℕ
  pub read_pos : ℕ
  pub slots : ℕ → Slot A

-- The constructor. `blank` is `T{}`.
abbrev pub new_ring {ℓ} : {A : Type ℓ} → A → MpmcRing A
new_ring blank = record {
  write_pos = 0;
  read_pos = 0;
  slots = λ i. record { sequence = i; item = blank };
}

-- `diff < 0`, where `diff` is the difference of two `uint64_t` cast to `int64_t`.
abbrev pub signed_lt : ℕ → ℕ → Bool
signed_lt seq pos = ltb ((seq + 2 ^ 63) % 2 ^ 64) ((pos + 2 ^ 63) % 2 ^ 64)

-- `approx_size`, from two loads.
unfoldable pub approx_size : ℕ → ℕ → ℕ
approx_size w r = if leb r w then w - r else 0

-- Fewer positions than this are ever used.
abbrev pub max_positions : ℕ
max_positions = 2 ^ 62

-- Where a producer stands in `push`, and a consumer in `pop`, with the locals that are live there.
pub data Pusher (B : Type 0) : Type 0 where
  idle : Pusher B
  loaded : (pos : ℕ) (x : Payload B) → Pusher B
  trying : (pos : ℕ) (x : Payload B) → Pusher B
  stale : (x : Payload B) → Pusher B
  claimed : (pos : ℕ) (x : Payload B) (done : ℕ) → Pusher B

pub data Popper (B : Type 0) : Type 0 where
  waiting : Popper B
  looking : (pos : ℕ) → Popper B
  taking : (pos : ℕ) → Popper B
  behind : Popper B
  reading : (pos done : ℕ) (out : Payload B) → Popper B
  delivered : (pos : ℕ) (out : Payload B) → Popper B

-- The ring, and what happened to each position, which is no part of the program: the payload of the
-- `push` that claimed it, whether that was stored, and whether a `pop` is done with it.
pub record Memory (B : Type 0) : Type 0 where
  pub ring : MpmcRing (Payload B)
  pub pushed : ℕ → Payload B
  pub written : ℕ → Bool
  pub released : ℕ → Bool

module _ {B : Type 0} (capacity words : ℕ) where
  -- The sequence number of a position's slot.
  abbrev pub seq_at : Memory B → ℕ → ℕ
  seq_at m pos = (m.ring.slots (index capacity pos)).sequence

  abbrev pub set_slots : Memory B → (ℕ → Slot (Payload B)) → Memory B
  set_slots m slots = record m { ring = record m.ring { slots = slots } }

  -- A step of a producer. `stale` and `loaded` are before the loads of `write_pos` and of the
  -- slot's sequence number, `trying` before the compare-exchange, which may fail for no reason and
  -- then gives `pos` the value that it found.
  pub data Push (m : Memory B) : Pusher B → Memory B → Pusher B → Type 0 where
    call : (x : Payload B) → Push m idle m (stale x)
    load_pos : {x : Payload B} → Push m (stale x) m (loaded m.ring.write_pos x)
    free : {pos : ℕ} {x : Payload B} → seq_at m pos ≡ pos → Push m (loaded pos x) m (trying pos x)
    full :
        {pos : ℕ} {x : Payload B}
        → seq_at m pos ≢ pos
        → signed_lt (seq_at m pos) pos ≡ true
        → Push m (loaded pos x) m idle
    ahead :
        {pos : ℕ} {x : Payload B}
        → seq_at m pos ≢ pos
        → signed_lt (seq_at m pos) pos ≡ false
        → Push m (loaded pos x) m (stale x)
    win :
        {pos : ℕ} {x : Payload B}
        → m.ring.write_pos ≡ pos
        → pos < max_positions
        → Push m
            (trying pos x)
            (record m {
              ring = record m.ring { write_pos = add64 pos 1 };
              pushed = update m.pushed pos x;
            })
            (claimed pos x 0)
    lose : {pos : ℕ} {x : Payload B} → Push m (trying pos x) m (loaded m.ring.write_pos x)
    copy_in :
        {pos done : ℕ} {x : Payload B}
        → done < words
        → Push m
            (claimed pos x done)
            (set_slots m (
              store_item m.ring.slots
                (index capacity pos)
                (update (m.ring.slots (index capacity pos)).item done (x done))))
            (claimed pos x (suc done))
    publish :
        {pos done : ℕ} {x : Payload B}
        → words ≤ done
        → Push m
            (claimed pos x done)
            (record (set_slots m (store_sequence m.ring.slots (index capacity pos) (add64 pos 1))) {
              written = update m.written pos true;
            })
            idle

  -- A step of a consumer: `behind`, `looking` and `taking` stand as `stale`, `loaded` and `trying`
  -- do.
  pub data Pop (m : Memory B) : Popper B → Memory B → Popper B → Type 0 where
    call_pop : Pop m waiting m behind
    load_read : Pop m behind m (looking m.ring.read_pos)
    ready : {pos : ℕ} → seq_at m pos ≡ add64 pos 1 → Pop m (looking pos) m (taking pos)
    empty :
        {pos : ℕ}
        → seq_at m pos ≢ add64 pos 1
        → signed_lt (seq_at m pos) (add64 pos 1) ≡ true
        → Pop m (looking pos) m waiting
    taken :
        {pos : ℕ}
        → seq_at m pos ≢ add64 pos 1
        → signed_lt (seq_at m pos) (add64 pos 1) ≡ false
        → Pop m (looking pos) m behind
    win_pop :
        {pos : ℕ} (out : Payload B)
        → m.ring.read_pos ≡ pos
        → Pop m
            (taking pos)
            (record m { ring = record m.ring { read_pos = add64 pos 1 } })
            (reading pos 0 out)
    lose_pop : {pos : ℕ} → Pop m (taking pos) m (looking m.ring.read_pos)
    copy_out :
        {pos done : ℕ} {out : Payload B}
        → done < words
        → Pop m (reading pos done out) m (
            reading pos
              (suc done)
              (update out done ((m.ring.slots (index capacity pos)).item done)))
    release :
        {pos done : ℕ} {out : Payload B}
        → words ≤ done
        → Pop m
            (reading pos done out)
            (record (set_slots m
              (store_sequence m.ring.slots (index capacity pos) (add64 pos capacity))) {
                released = update m.released pos true;
              })
            (delivered pos out)
    give_back : {pos : ℕ} {out : Payload B} → Pop m (delivered pos out) m waiting

pub record System (B : Type 0) : Type 0 where
  pub mem : Memory B
  pub pushers : ℕ → Pusher B
  pub poppers : ℕ → Popper B

module _ {B : Type 0} where
  pub data Step (capacity words : ℕ) (s : System B) : System B → Type 0 where
    pushes :
        (i : ℕ) {m : Memory B} {p : Pusher B}
        → Push capacity words s.mem (s.pushers i) m p
        → Step capacity words s (record s { mem = m; pushers = update s.pushers i p })
    pops :
        (i : ℕ) {m : Memory B} {p : Popper B}
        → Pop capacity words s.mem (s.poppers i) m p
        → Step capacity words s (record s { mem = m; poppers = update s.poppers i p })

  abbrev pub start : Payload B → System B
  start blank = record {
    mem = record {
      ring = new_ring blank;
      pushed = λ p. blank;
      written = λ p. false;
      released = λ p. false;
    };
    pushers = λ i. idle;
    poppers = λ i. waiting;
  }

  pub data Reach (capacity words : ℕ) (blank : Payload B) : System B → Type 0 where
    here : Reach capacity words blank (start blank)
    later :
        {s t : System B}
        → Reach capacity words blank s
        → Step capacity words s t
        → Reach capacity words blank t

  -- The run goes on.
  pub data Onward (capacity words : ℕ) (s : System B) : System B → Type 0 where
    still : Onward capacity words s s
    onward :
        {t u : System B}
        → Onward capacity words s t
        → Step capacity words t u
        → Onward capacity words s u
