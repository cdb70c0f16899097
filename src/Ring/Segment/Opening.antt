-- ===== src/Ring/Segment/Opening.antt =====
-- The constructor of a ring, by what its system calls return.
use lw_ipc.Base.{ℕ, ◌≡◌, refl, sym, ◌∙◌, subst, arith, Bool, true, false, Option, none, some}
use lw_ipc.Ring.Segment.{Posix, threw, map_segment, size_segment, construct, shm_exists}
use lw_ipc.Ring.Segment.Resources.{
  Same, Documented, Leaks, Outcome, not_opened, not_sized, before, map_segment-Outcome, Same-trans,
  put_back,
}

module _ {W : Type 0} (os : Posix W) (is_open is_mapped : W → ℕ → Bool)
    (d : Documented os is_open is_mapped) where
  Leaks-Same :
      (w w₁ w' : W) (n : ℕ)
      → Leaks is_open is_mapped w w₁ n
      → Same is_open is_mapped w₁ w'
      → Leaks is_open is_mapped w w' n
  Leaks-Same w w₁ w' n l s = (l.0, λ k. s.opened k ∙ l.1 k, λ k. s.mapped k ∙ l.2 k)

  module _ (w₁ : W) (n : ℕ) where
    size_segment-attach : size_segment os false n w₁ ≡ map_segment os false n w₁
    unfolding size_segment
    size_segment-attach = refl

    size_segment-sized :
        (w' : W)
        → os.ftruncate n w₁ ≡ (true, w')
        → size_segment os true n w₁ ≡ map_segment os true n w'
    unfolding size_segment
    size_segment-sized w' e = ground (arith, e)

    size_segment-failed :
        (w' : W)
        → os.ftruncate n w₁ ≡ (false, w')
        → size_segment os true n w₁
          ≡ (threw (record { is_owner = true; fd = some n; ctrl = none }), w')
    unfolding size_segment
    size_segment-failed w' e = ground (arith, e)

  size_segment-Outcome :
      (create : Bool) (w w₁ : W) (n : ℕ)
      → os.shm_open create (before os create w) ≡ (some n, w₁)
      → Leaks is_open is_mapped w w₁ n
      → Outcome is_open is_mapped os create w (size_segment os create n w₁)
  size_segment-Outcome false w w₁ n opened l =
      subst (Outcome is_open is_mapped os false w) (sym (size_segment-attach w₁ n))
        (map_segment-Outcome os is_open is_mapped d false w w₁ w₁ n opened refl l)
  size_segment-Outcome true w w₁ n opened l = by_result (os.ftruncate n w₁) refl
    where
      by_result :
          (m : Bool × W)
          → os.ftruncate n w₁ ≡ m
          → Outcome is_open is_mapped os true w (size_segment os true n w₁)
      by_result (true, w') e =
          subst (Outcome is_open is_mapped os true w) (sym (size_segment-sized w₁ n w' e)) (
            map_segment-Outcome os is_open is_mapped d true w w₁ w' n opened e
              (Leaks-Same w w₁ w' n l (d.sizes n w₁ w' true e)))
      by_result (false, w') e =
          not_sized w₁ w' n refl opened e (size_segment-failed w₁ n w' e)
            (Leaks-Same w w₁ w' n l (d.sizes n w₁ w' false e))

  before-Same : (create : Bool) (w : W) → Same is_open is_mapped w (before os create w)
  before-Same true w = d.unlinks w
  before-Same false w = record { opened = λ k. refl; mapped = λ k. refl }

  construct-opened :
      (create : Bool) (w w₁ : W) (n : ℕ)
      → os.shm_open create (before os create w) ≡ (some n, w₁)
      → construct os create w ≡ size_segment os create n w₁
  unfolding construct
  construct-opened create w w₁ n e = ground (arith, e)

  construct-failed :
      (create : Bool) (w w₁ : W)
      → os.shm_open create (before os create w) ≡ (none, w₁)
      → construct os create w ≡ (threw (record { is_owner = create; fd = none; ctrl = none }), w₁)
  unfolding construct
  construct-failed create w w₁ e = ground (arith, e)

  -- The constructor of a `ShmRingBuffer`, as a creator or attaching. If `shm_open`, a creator's
  -- `ftruncate` and `mmap` succeed, then it returns, and the destructor of the ring gives back the
  -- descriptor and the mapping, with all others as before. If `shm_open` fails, then it throws and
  -- nothing is left behind. If `ftruncate` or `mmap` fails, then it throws and the descriptor that
  -- `shm_open` gave stays open: the destructor of a ring whose constructor threw does not run. The
  -- system's calls behave as `Documented` says.
  pub construct_lem :
      (create : Bool) (w : W) → Outcome is_open is_mapped os create w (construct os create w)
  construct_lem create w = by_result (os.shm_open create (before os create w)) refl
    where
      by_result :
          (m : Option ℕ × W)
          → os.shm_open create (before os create w) ≡ m
          → Outcome is_open is_mapped os create w (construct os create w)
      by_result (none, w₁) e = not_opened w₁ e (construct-failed create w w₁ e) (
          Same-trans is_open is_mapped w (before os create w) w₁ (before-Same create w)
            (d.open_fails create (before os create w) w₁ e))
      by_result (some n, w₁) e =
          let o = d.opens create (before os create w) w₁ n e in
          let s = before-Same create w in
          subst (Outcome is_open is_mapped os create w) (sym (construct-opened create w w₁ n e)) (
            size_segment-Outcome create w w₁ n e (
              sym (s.opened n) ∙ o.0,
              λ k. o.1 k ∙ ground (arith, s.opened k),
              λ k. o.2 k ∙ s.mapped k,
            ))

  exists-found :
      (w w₁ : W) (n : ℕ) → os.shm_probe w ≡ (some n, w₁) → shm_exists os w ≡ (true, os.close n w₁)
  unfolding shm_exists
  exists-found w w₁ n e = ground (arith, e)

  exists-missing : (w w₁ : W) → os.shm_probe w ≡ (none, w₁) → shm_exists os w ≡ (false, w₁)
  unfolding shm_exists
  exists-missing w w₁ e = ground (arith, e)

  -- `shm_exists` leaves nothing open behind.
  pub shm_exists-Same : (w : W) → Same is_open is_mapped w (shm_exists os w).1
  shm_exists-Same w = by_result (os.shm_probe w) refl
    where
      by_result :
          (m : Option ℕ × W) → os.shm_probe w ≡ m → Same is_open is_mapped w (shm_exists os w).1
      by_result (none, w₁) e =
          subst (λ r. Same is_open is_mapped w r.1) (sym (exists-missing w w₁ e))
            (d.probe_fails w w₁ e)
      by_result (some n, w₁) e =
          let o = d.probes w w₁ n e in
          let v = d.closes n w₁ (o.1 n ∙ ground arith) in
          subst (λ r. Same is_open is_mapped w r.1) (sym (exists-found w w₁ n e))
            (record {
              opened = λ k. v.0 k ∙ put_back (is_open w) (is_open w₁) n o.0 o.1 k;
              mapped = λ k. v.1 k ∙ o.2 k;
            })
