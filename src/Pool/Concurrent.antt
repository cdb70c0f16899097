-- ===== src/Pool/Concurrent.antt =====
-- `acquire` and `release` of `ObjectPool` in include/lwipc/object_pool.hpp, one shared access at a
-- time. Any number of callers are interleaved in any order; every access takes effect at once and
-- in program order (sequential consistency).
pub mod Invariant
pub mod Kept
pub mod Moves
pub mod Runs
pub mod Lending
mod Tests
use lw_ipc.Base.{ℕ, ◌+◌, ◌^◌, ◌<◌, ◌≡◌, ◌≢◌, Option, none, some}
use lw_ipc.Base.Words.{add64}
use lw_ipc.Ring.{update}
use lw_ipc.Pool.{k_null_index, pack, index_of, tag_of, Pool, new_pool}

-- Where a caller stands: `loaded` and `linking` are within `acquire`, `holding` between the calls,
-- and `returning`, `reloaded` and `linked` within `release`.
pub data Caller : Type 0 where
  idle : Caller
  loaded : (old_head : ℕ) → Caller
  linking : (old_head next_idx : ℕ) → Caller
  holding : (idx : ℕ) → Caller
  returning : (idx : ℕ) → Caller
  reloaded : (idx old_head : ℕ) → Caller
  linked : (idx old_head : ℕ) → Caller

-- The slot that a caller has.
abbrev pub slot_of : Caller → Option ℕ
slot_of (holding idx) = some idx
slot_of (returning idx) = some idx
slot_of (reloaded idx old_head) = some idx
slot_of (linked idx old_head) = some idx
slot_of _ = none

-- The tag has 48 bits. Fewer compare-exchanges than this succeed.
abbrev pub max_tag : ℕ
max_tag = 2 ^ 48

module _ {A : Type 0} where
  -- A step of a caller. A compare-exchange may fail for no reason, and then gives `old_head` the
  -- word that it found.
  pub data Move (p : Pool A) : Caller → Pool A → Caller → Type 0 where
    load_head : Move p idle p (loaded p.head)
    exhausted : {old_head : ℕ} → index_of old_head ≡ k_null_index → Move p (loaded old_head) p idle
    load_next :
        {old_head : ℕ}
        → index_of old_head ≢ k_null_index
        → Move p (loaded old_head) p (linking old_head (p.next (index_of old_head)))
    acquired :
        {old_head next_idx : ℕ}
        → p.head ≡ old_head
        → tag_of old_head + 1 < max_tag
        → Move p
            (linking old_head next_idx)
            (record p { head = pack next_idx (add64 (tag_of old_head) 1) })
            (holding (index_of old_head))
    acquire_fails : {old_head next_idx : ℕ} → Move p (linking old_head next_idx) p (loaded p.head)
    give_back : {idx : ℕ} → Move p (holding idx) p (returning idx)
    reload_head : {idx : ℕ} → Move p (returning idx) p (reloaded idx p.head)
    store_next :
        {idx old_head : ℕ}
        → Move p
            (reloaded idx old_head)
            (record p { next = update p.next idx (index_of old_head) })
            (linked idx old_head)
    released :
        {idx old_head : ℕ}
        → p.head ≡ old_head
        → tag_of old_head + 1 < max_tag
        → Move p
            (linked idx old_head)
            (record p { head = pack idx (add64 (tag_of old_head) 1) })
            idle
    release_fails : {idx old_head : ℕ} → Move p (linked idx old_head) p (reloaded idx p.head)

pub record System (A : Type 0) : Type 0 where
  pub pool : Pool A
  pub callers : ℕ → Caller

module _ {A : Type 0} where
  pub data Step (s : System A) : System A → Type 0 where
    moves :
        (a : ℕ) {p : Pool A} {c : Caller}
        → Move s.pool (s.callers a) p c
        → Step s (record s { pool = p; callers = update s.callers a c })

  abbrev pub start : ℕ → A → System A
  start capacity zeroed = record { pool = new_pool capacity zeroed; callers = λ a. idle }

  pub data Reach (capacity : ℕ) (zeroed : A) : System A → Type 0 where
    here : Reach capacity zeroed (start capacity zeroed)
    later : {s t : System A} → Reach capacity zeroed s → Step s t → Reach capacity zeroed t
