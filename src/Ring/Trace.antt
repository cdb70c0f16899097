-- ===== src/Ring/Trace.antt =====
-- One producer and any number of consumers, each with a cursor of its own, call a shared-memory
-- ring in some order. What they see is what the log of all pushed items gives them.
use lw_ipc.Base.{
  ℕ, subst, ◌↔◌, ◌+◌, ◌-◌, ◌≤◌, ◌<◌, ◌≡◌, refl, sym, ap, ◌∙◌, true, Option, List, [], ◌∷◌, ◌++◌,
  arith, length, get_elem?, length-append,
}
use lw_ipc.Ring.{IsCapacity, update}
use lw_ipc.Ring.Index.{two-le-capacity}
use lw_ipc.Ring.Shm.{ShmRing, push, pop, make_cursor, make_cursor_from_start, producer_alive}
use lw_ipc.Ring.Intra.{forget, forget-push, forget-pop}
use lw_ipc.Ring.Log.{Holds, max_positions, read_log, push-Holds, pop-read_log}

-- The calls: the producer pushes at some time; consumer `i` makes a cursor at the head or at the
-- start, or pops.
pub data Call (A : Type 0) : Type 0 where
  pushes : A → ℕ → Call A
  attaches attaches_from_start pops : ℕ → Call A

module _ {A : Type 0} (capacity : ℕ) where
  -- What each `pop` returns, in order.
  unfoldable pub run : ShmRing A → (ℕ → ℕ) → List (Call A) → List (Option A)
  run r cursors [] = []
  run r cursors (pushes x now ∷ calls) = run (push capacity r x now).1 cursors calls
  run r cursors (attaches i ∷ calls) = run r (update cursors i (make_cursor r)) calls
  run r cursors (attaches_from_start i ∷ calls) =
      run r (update cursors i make_cursor_from_start) calls
  run r cursors (pops i ∷ calls) =
      let (out, pos) = pop capacity r (cursors i) in out ∷ run r (update cursors i pos) calls

  -- The same over the log.
  unfoldable pub run_log : List A → (ℕ → ℕ) → List (Call A) → List (Option A)
  run_log log cursors [] = []
  run_log log cursors (pushes x now ∷ calls) = run_log (log ++ (x ∷ [])) cursors calls
  run_log log cursors (attaches i ∷ calls) = run_log log (update cursors i (length log)) calls
  run_log log cursors (attaches_from_start i ∷ calls) = run_log log (update cursors i 0) calls
  run_log log cursors (pops i ∷ calls) =
      let (out, pos) = read_log capacity log (cursors i) in
      out ∷ run_log log (update cursors i pos) calls

module _ {A : Type 0} {capacity : ℕ} (c : IsCapacity capacity) where
  pub push-forget-Holds :
      (r : ShmRing A) {log : List A} (x : A) (now : ℕ)
      → Holds capacity (forget r) log
      → length log < max_positions
      → Holds capacity (forget (push capacity r x now).1) (log ++ (x ∷ []))
  push-forget-Holds r {log} x now held small =
      subst (λ t. Holds capacity t (log ++ (x ∷ [])))
        (sym (ap (λ t. t.1) (forget-push capacity r x now))) (push-Holds c held x small).1

  -- No sequence of calls tells a ring from the log of what was pushed into it: every `pop` returns
  -- the item at its consumer's position, or the oldest item that the ring still holds if the
  -- consumer fell behind, or nothing at the end; and no consumer disturbs another. Fewer than
  -- `max_positions` items are pushed in all.
  pub run-run_log :
      (calls : List (Call A)) (r : ShmRing A) (log : List A) (cursors : ℕ → ℕ)
      → Holds capacity (forget r) log
      → length log + length calls ≤ max_positions
      → run capacity r cursors calls ≡ run_log capacity log cursors calls
  unfolding run run_log make_cursor
  run-run_log [] r log cursors held small = refl
  run-run_log (pushes x now ∷ calls) r log cursors held small =
      run-run_log calls (push capacity r x now).1 (log ++ (x ∷ [])) cursors
        (push-forget-Holds r x now held (omega arith)) (omega (arith, length-append log (x ∷ [])))
  run-run_log (attaches i ∷ calls) r log cursors held small =
      ap (λ t. run capacity r (update cursors i t) calls) at_end
      ∙ run-run_log calls r log (update cursors i (length log)) held (omega arith)
    where
      at_end : make_cursor r ≡ length log
      at_end = held.end
  run-run_log (attaches_from_start i ∷ calls) r log cursors held small =
      run-run_log calls r log (update cursors i 0) held (omega arith)
  run-run_log (pops i ∷ calls) r log cursors held small =
      ap (λ t. t.0 ∷ run capacity r (update cursors i t.1) calls) same
      ∙ ap (λ t. (read_log capacity log (cursors i)).0 ∷ t)
          (run-run_log calls r log (update cursors i (read_log capacity log (cursors i)).1) held
            (omega arith))
    where
      same : pop capacity r (cursors i) ≡ read_log capacity log (cursors i)
      same = forget-pop capacity r (cursors i) ∙ pop-read_log c held (cursors i)

  -- A consumer that has fallen more than `capacity` items behind goes on with the oldest item that
  -- is still held, and not with the newest.
  pub pop_overrun :
      (r : ShmRing A) (log : List A) (pos : ℕ)
      → Holds capacity (forget r) log
      → pos + capacity < length log
      → (pop capacity r pos ≡ (get_elem? log (length log - capacity), length log - capacity + 1))
        × (length log - capacity + 1 < length log)
  pop_overrun r log pos held behind =
      (forget-pop capacity r pos ∙ pop-read_log c held pos ∙ oldest, omega (arith, two))
    where
      two : 2 ≤ capacity
      two = two-le-capacity c

      oldest :
          read_log capacity log pos
          ≡ (get_elem? log (length log - capacity), length log - capacity + 1)
      oldest = ground arith

-- After a `push` at time `now` the producer counts as alive just as long as the timeout lasts, and
-- never before that time. The clock never reads zero.
pub producer_alive-push :
    {A : Type 0} (capacity : ℕ) (r : ShmRing A) (x : A) (now timeout later : ℕ)
    → 0 < now
    → (producer_alive (push capacity r x now).1 timeout later ≡ true)
      ↔ ((now ≤ later) × (later ≤ now + timeout))
unfolding producer_alive push
producer_alive-push capacity r x now timeout later pos = ground arith
