-- ===== src/PubSub/Intra.antt =====
-- `IntraPublisher` of include/lwipc/publisher.hpp; `IntraSubscriber` and `make_intra_pubsub` of
-- include/lwipc/subscriber.hpp. The ring is shared: the publisher's member stands for it, and it is
-- an argument of the subscriber's operations.
use lw_ipc.Base.{
  ℕ, ◌+◌, ◌<◌, ◌≤◌, ◌≡◌, refl, sym, Option, none, some, List, [], ◌∷◌, ◌++◌, arith, length,
  length-append, append_assoc, append-nil, subst,
}
use lw_ipc.Base.Words.{add64}
use lw_ipc.Message.{MsgType}
use lw_ipc.Ring.{IsCapacity}
use lw_ipc.Ring.Intra.{IntraRing, new_ring, push, pop, make_cursor}
use lw_ipc.Ring.Log.{Holds, max_positions, read_log, new_ring-Holds, push-Holds, pop-read_log}
use lw_ipc.Pool.{Pool, new_pool, acquire}
use lw_ipc.Pool.Chain.{count}
use lw_ipc.Pool.Owns.{Owns, remove, release_lem}
use lw_ipc.Pool.Loan.{LoanedSample, empty_loan, loan_of, do_release}

pub record IntraPublisher (A : Type 0) : Type 0 where
  pub ring : IntraRing A
  pub msg_type : MsgType
  pub sensor_id : ℕ
  pub sequence : ℕ
  pub pool : Pool A

module _ {A : Type 0} where
  -- The publisher that `make_intra_pubsub` returns; its subscriber has the same ring. `blank` is
  -- `T{}` and `zeroed` the bytes of `T` zeroed.
  unfoldable pub make_intra_pubsub : ℕ → A → A → MsgType → ℕ → IntraPublisher A
  make_intra_pubsub capacity blank zeroed msg_type sensor_id = record {
    ring = new_ring blank;
    msg_type = msg_type;
    sensor_id = sensor_id;
    sequence = 0;
    pool = new_pool capacity zeroed;
  }

  unfoldable pub loan : IntraPublisher A → LoanedSample × IntraPublisher A
  loan p = elim (acquire p.pool).0 [
    | none ↦ (empty_loan, record p { pool = (acquire p.pool).1 })
    | some i ↦ (loan_of i, record p { pool = (acquire p.pool).1 })
  ]

  unfoldable pub publish : ℕ → IntraPublisher A → A → IntraPublisher A
  publish capacity p item = record p {
    ring = (push capacity p.ring item).1;
    sequence = add64 p.sequence 1;
  }

  unfoldable pub publish_loan :
      ℕ → LoanedSample → IntraPublisher A → LoanedSample × IntraPublisher A
  publish_loan capacity l p = elim l.ptr [
    | none ↦ (l, p)
    | some i ↦
        let (spent, pool) = do_release l p.pool in
        (
          spent,
          record p {
            ring = (push capacity p.ring (p.pool.storage i)).1;
            sequence = add64 p.sequence 1;
            pool = pool;
          },
        )
  ]

  -- `IntraSubscriber::make_cursor` and `try_receive`.
  unfoldable pub intra_cursor : IntraRing A → ℕ
  intra_cursor ring = make_cursor ring

  unfoldable pub try_receive : ℕ → IntraRing A → ℕ → Option A × ℕ
  try_receive capacity ring pos = pop capacity ring pos

  -- The items of a list published in turn.
  abbrev pub publish_all : ℕ → IntraPublisher A → List A → IntraPublisher A
  publish_all capacity p [] = p
  publish_all capacity p (item ∷ items) = publish_all capacity (publish capacity p item) items

module _ {A : Type 0} (capacity : ℕ) (c : IsCapacity capacity) where
  -- `log` is everything that this publisher published.
  record IsLog (p : IntraPublisher A) (log : List A) : Type 0 where
    held : Holds capacity p.ring log
    counted : p.sequence ≡ length log

  publish-IsLog :
      (p : IntraPublisher A) (log : List A) (item : A)
      → IsLog p log
      → length log < max_positions
      → IsLog (publish capacity p item) (log ++ (item ∷ []))
  unfolding publish
  publish-IsLog p log item o room = record {
    held = (push-Holds c o.held item room).1;
    counted = omega (arith, o.counted, length-append log (item ∷ []), room);
  }

  publish_all-IsLog :
      (items : List A) (p : IntraPublisher A) (log : List A)
      → IsLog p log
      → length log + length items ≤ max_positions
      → IsLog (publish_all capacity p items) (log ++ items)
  publish_all-IsLog [] p log o room = subst (IsLog p) (sym (append-nil log)) o
  publish_all-IsLog (item ∷ items) p log o room =
      subst (IsLog (publish_all capacity (publish capacity p item) items))
        (append_assoc log (item ∷ []) items)
        (publish_all-IsLog items (publish capacity p item) (log ++ (item ∷ []))
          (publish-IsLog p log item o (omega arith)) (omega (arith, length-append log (item ∷ []))))

  make_intra_pubsub-IsLog :
      (blank zeroed : A) (type : MsgType) (id : ℕ)
      → IsLog (make_intra_pubsub capacity blank zeroed type id) []
  unfolding make_intra_pubsub
  make_intra_pubsub-IsLog blank zeroed type id = record {
    held = new_ring-Holds capacity blank;
    counted = refl;
  }

  -- After a list of items was published on a new pair, `published()` is their number, a new cursor
  -- stands behind them, and `try_receive` at any cursor gives the item of that position, or the
  -- oldest that the ring still holds if the cursor lies before it, or nothing at the end; the
  -- cursor moves behind the item. At most `max_positions` items are published.
  pub publish_all-try_receive :
      (blank zeroed : A) (type : MsgType) (id : ℕ) (items : List A) (pos : ℕ)
      → length items ≤ max_positions
      → let p = publish_all capacity (make_intra_pubsub capacity blank zeroed type id) items in
        (p.sequence ≡ length items)
        × (intra_cursor p.ring ≡ length items)
        × (try_receive capacity p.ring pos ≡ read_log capacity items pos)
  unfolding intra_cursor try_receive make_cursor
  publish_all-try_receive blank zeroed type id items pos room =
      (after.counted, after.held.end, pop-read_log c after.held pos)
    where
      after :
          IsLog (publish_all capacity (make_intra_pubsub capacity blank zeroed type id) items) items
      after =
          publish_all-IsLog items (make_intra_pubsub capacity blank zeroed type id) []
            (make_intra_pubsub-IsLog blank zeroed type id) (omega arith)

-- Publishing the loan of a slot has the effect of `publish` of the object in that slot on the ring
-- and on `published()`, leaves the loan empty and gives the slot back to the pool. Publishing an
-- empty loan changes nothing.
pub publish_loan-publish :
    {A : Type 0} (capacity : ℕ) (p : IntraPublisher A) {free loaned : List ℕ} (x : ℕ)
    → Owns capacity p.pool free loaned
    → 0 < count x loaned
    → let (spent, p') = publish_loan capacity (loan_of x) p in
      (spent ≡ empty_loan)
      × (record p' { pool = p.pool } ≡ publish capacity p (p.pool.storage x))
      × Owns capacity p'.pool (x ∷ free) (remove x loaned)
      × (publish_loan capacity empty_loan p ≡ (empty_loan, p))
unfolding publish_loan publish do_release
publish_loan-publish capacity p x owns held = (refl, refl, release_lem x owns held, refl)
