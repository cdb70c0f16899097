-- ===== src/PubSub/Spin/Stop.antt =====
-- `stop` returns: once it has set the flag, the worker leaves its loop within a few steps.
use lw_ipc.Base.{ℕ, ◌+◌, ◌≤◌, ◌≡◌, ◌⊎◌, inl, inr, refl, sym, subst, arith, true, Option, none, some}
use lw_ipc.PubSub.Spin.{
  Channel, Worker, absent, started, testing, polling, calling, ended, joinable, Owner, between,
  joining, terminated, Shared, Work, begin, go_on, leave, receive, sleep, call_back, Own,
  start_async, start_again, stop_joins, stop_alone, joins, System, Serve, works, publishes, serves,
  owns, Reach, here, later,
}

-- How many more steps the worker takes once the flag is set.
abbrev left : {M : Type 0} → Worker M → ℕ
left absent = 0
left started = 2
left (testing pos) = 1
left (polling pos) = 3
left (calling message pos) = 2
left ended = 0

-- While the owner joins, the flag is set and there is a thread.
abbrev Stopping : {S M : Type 0} → System S M → Owner → Type 0
Stopping s between = Unit
Stopping s joining = (s.shared.stop_flag ≡ true) × (joinable s.worker ≡ true)
Stopping s terminated = Unit

module _ {S M : Type 0} (c : Channel S M) (Publish : S → S → Type 0) where
  -- The worker and others go on, and the worker takes `n` steps.
  pub data Run (s : System S M) : ℕ → System S M → Type 0 where
    halted : Run s 0 s
    goes_on : {n m : ℕ} {t u : System S M} → Run s n t → Serve c Publish t m u → Run s (n + m) u

module _ {S M : Type 0} {c : Channel S M} where
  Work-left :
      {x x' : Shared S M} {w w' : Worker M}
      → Work c x w x' w'
      → x.stop_flag ≡ true
      → joinable w ≡ true
      → (left w' + 1 ≤ left w) × (x'.stop_flag ≡ true) × (joinable w' ≡ true)
  Work-left begin f j = (omega arith, f, refl)
  Work-left (go_on off) f j = absurd (ground (arith, off, f))
  Work-left (leave on) f j = (omega arith, f, refl)
  Work-left (receive now next message channel e) f j = (omega arith, f, refl)
  Work-left (sleep now next channel e) f j = (omega arith, f, refl)
  Work-left call_back f j = (omega arith, f, refl)

  -- A worker that has not left the loop can go on.
  progress :
      (x : Shared S M) (w : Worker M)
      → x.stop_flag ≡ true
      → joinable w ≡ true
      → (w ≡ ended) ⊎ ((x' : Shared S M) × (w' : Worker M) × Work c x w x' w')
  progress x absent f j = absurd (ground (arith, j))
  progress x started f j = inr (_, _, begin)
  progress x (testing pos) f j = inr (_, _, leave f)
  progress x (polling pos) f j = polled (c.try_receive x.channel pos 0) refl
    where
      polled :
          (r : Option M × ℕ × S)
          → c.try_receive x.channel pos 0 ≡ r
          → (◌≡◌ {A = Worker M} (polling pos) ended)
            ⊎ ((x' : Shared S M) × (w' : Worker M) × Work c x (polling pos) x' w')
      polled (none, next, channel) e = inr (_, _, sleep 0 next channel e)
      polled (some message, next, channel) e = inr (_, _, receive 0 next message channel e)
  progress x (calling message pos) f j = inr (_, _, call_back)
  progress x ended f j = inl refl

left-le : {M : Type 0} (w : Worker M) → left w ≤ 3
left-le absent = omega arith
left-le started = omega arith
left-le (testing pos) = omega arith
left-le (polling pos) = omega arith
left-le (calling message pos) = omega arith
left-le ended = omega arith

Own-Stopping :
    {S M : Type 0} {x x' : Shared S M} {o o' : Owner} {w w' : Worker M}
    → Own x o w x' o' w'
    → Stopping (record { shared = x'; owner = o'; worker = w' }) o'
Own-Stopping start_async = tt
Own-Stopping (start_again j) = tt
Own-Stopping (stop_joins j) = (refl, j)
Own-Stopping stop_alone = tt
Own-Stopping joins = tt

module _ {S M : Type 0} {c : Channel S M} {Publish : S → S → Type 0} where
  -- A step of the worker or of others while the owner joins.
  Serve-left :
      {s t : System S M} {n : ℕ}
      → Serve c Publish s n t
      → s.shared.stop_flag ≡ true
      → joinable s.worker ≡ true
      → (left t.worker + n ≤ left s.worker)
        × (t.shared.stop_flag ≡ true)
        × (joinable t.worker ≡ true)
  Serve-left (works w) f j = Work-left w f j
  Serve-left (publishes p) f j = (omega arith, f, j)

  Serve-owner : {s t : System S M} {n : ℕ} → Serve c Publish s n t → t.owner ≡ s.owner
  Serve-owner (works w) = refl
  Serve-owner (publishes p) = refl

  Serve-Stopping :
      {s t : System S M} {n : ℕ} (o : Owner) → Serve c Publish s n t → Stopping s o → Stopping t o
  Serve-Stopping between st h = tt
  Serve-Stopping joining st h = let l = Serve-left st h.0 h.1 in (l.1, l.2)
  Serve-Stopping terminated st h = tt

  Reach-Stopping : {channel : S} {s : System S M} → Reach c Publish channel s → Stopping s s.owner
  Reach-Stopping here = tt
  Reach-Stopping (later {s = s} {t = t} r (serves st)) =
      subst (Stopping t) (sym (Serve-owner st)) (Serve-Stopping s.owner st (Reach-Stopping r))
  Reach-Stopping (later r (owns st)) = Own-Stopping st

  Run-left :
      {s t : System S M} {n : ℕ}
      → Run c Publish s n t
      → s.shared.stop_flag ≡ true
      → joinable s.worker ≡ true
      → (left t.worker + n ≤ left s.worker)
        × (t.shared.stop_flag ≡ true)
        × (joinable t.worker ≡ true)
  Run-left halted f j = (omega arith, f, j)
  Run-left (goes_on r st) f j =
      let before = Run-left r f j in
      let after = Serve-left st before.1 before.2 in
      (omega (arith, before.0, after.0), after.1, after.2)

  -- `stop` returns. While its caller joins the worker, the worker takes at most three steps,
  -- however others change the channel meanwhile; and after any number of steps it has either left
  -- `spin`, so that the join ends, or can take one more. This holds wherever the worker stood when
  -- `stop` was called, also before it had begun.
  pub stop_lem :
      {channel : S} {s t : System S M} {n : ℕ}
      → Reach c Publish channel s
      → s.owner ≡ joining
      → Run c Publish s n t
      → (n ≤ 3)
        × ((t.worker ≡ ended) ⊎ ((x : Shared S M) × (w : Worker M) × Work c t.shared t.worker x w))
  stop_lem {s = s} {t = t} r e run =
      let h = subst (Stopping s) e (Reach-Stopping r) in
      let l = Run-left run h.0 h.1 in
      (omega (arith, l.0, left-le s.worker), progress t.shared t.worker l.1 l.2)
