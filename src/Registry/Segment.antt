-- ===== src/Registry/Segment.antt =====
-- `open_or_create` and the destructor of `ChannelRegistry` in include/lwipc/channel_registry.hpp,
-- over the calls of POSIX. `header` of the record ChannelRegistry says whether `header_` is set
-- here.
use lw_ipc.Base.{
  ℕ, ◌≡◌, refl, sym, ◌∙◌, subst, arith, Bool, true, false, Option, none, some, if◌then◌else◌,
}
use lw_ipc.Ring.Segment.{Posix, if_set}
use lw_ipc.Ring.Segment.Resources.{Same, Documented, Leaks, put_back, closed_again}

-- `fd_` and `header_` where they are not -1 and null.
pub record Members : Type 0 where
  pub fd : Option ℕ
  pub header : Option ℕ

abbrev pub unset : Members
unset = record { fd = none; header = none }

module _ {W : Type 0} (os : Posix W) where
  -- `open_or_create` from `mmap` on.
  unfoldable pub map_table : ℕ → W → Members × W
  map_table fd w =
      let (mem, w₁) = os.mmap fd w in
      elim mem [
        | none ↦ (unset, os.close fd w₁)
        | some a ↦ (record { fd = some fd; header = some a }, w₁)
      ]

  -- The constructor, which calls `open_or_create`.
  unfoldable pub open_or_create : W → Members × W
  open_or_create w =
      let (fd, w₁) = os.shm_open true w in
      elim fd [
        | none ↦ (unset, w₁)
        | some n ↦
            let (sized, w₂) = os.ftruncate n w₁ in
            if sized then map_table n w₂ else (unset, os.close n w₂)
      ]

  -- The destructor.
  unfoldable pub close_registry : Members → W → W
  close_registry m w = if_set m.fd os.close (if_set m.header os.munmap w)

module _ {W : Type 0} (is_open is_mapped : W → ℕ → Bool) where
  -- How the constructor ends, by the first of its calls that failed, and what it keeps.
  pub data Opened (os : Posix W) (w : W) (r : Members × W) : Type 0 where
    usable :
        (w₁ w₂ w' : W) (n a : ℕ)
        → os.shm_open true w ≡ (some n, w₁)
        → os.ftruncate n w₁ ≡ (true, w₂)
        → os.mmap n w₂ ≡ (some a, w')
        → r ≡ (record { fd = some n; header = some a }, w')
        → Same is_open is_mapped w (close_registry os (record { fd = some n; header = some a }) w')
        → Opened os w r
    not_opened :
        (w' : W)
        → os.shm_open true w ≡ (none, w')
        → r ≡ (unset, w')
        → Same is_open is_mapped w w'
        → Opened os w r
    not_sized :
        (w₁ w₂ : W) (n : ℕ)
        → os.shm_open true w ≡ (some n, w₁)
        → os.ftruncate n w₁ ≡ (false, w₂)
        → r ≡ (unset, os.close n w₂)
        → Same is_open is_mapped w (os.close n w₂)
        → Opened os w r
    not_mapped :
        (w₁ w₂ w₃ : W) (n : ℕ)
        → os.shm_open true w ≡ (some n, w₁)
        → os.ftruncate n w₁ ≡ (true, w₂)
        → os.mmap n w₂ ≡ (none, w₃)
        → r ≡ (unset, os.close n w₃)
        → Same is_open is_mapped w (os.close n w₃)
        → Opened os w r

module _ {W : Type 0} (os : Posix W) (is_open is_mapped : W → ℕ → Bool)
    (d : Documented os is_open is_mapped) where
  -- The descriptor is closed after a call that failed.
  closed_after :
      (w w₁ w₂ : W) (n : ℕ)
      → Leaks is_open is_mapped w w₁ n
      → Same is_open is_mapped w₁ w₂
      → Same is_open is_mapped w (os.close n w₂)
  closed_after w w₁ w₂ n l s =
      let v = d.closes n w₂ (s.opened n ∙ l.1 n ∙ ground arith) in
      record {
        opened = λ k. v.0 k ∙ put_back (is_open w) (is_open w₂) n l.0 (λ i. s.opened i ∙ l.1 i) k;
        mapped = λ k. v.1 k ∙ s.mapped k ∙ l.2 k;
      }

  map_table-failed :
      (n : ℕ) (w w' : W) → os.mmap n w ≡ (none, w') → map_table os n w ≡ (unset, os.close n w')
  unfolding map_table
  map_table-failed n w w' e = ground (arith, e)

  map_table-mapped :
      (n a : ℕ) (w w' : W)
      → os.mmap n w ≡ (some a, w')
      → map_table os n w ≡ (record { fd = some n; header = some a }, w')
  unfolding map_table
  map_table-mapped n a w w' e = ground (arith, e)

  close_registry-both :
      (n a : ℕ) (w : W)
      → close_registry os (record { fd = some n; header = some a }) w ≡ os.close n (os.munmap a w)
  unfolding close_registry
  close_registry-both n a w = refl

  map_table-Opened :
      (w w₁ w₂ : W) (n : ℕ)
      → os.shm_open true w ≡ (some n, w₁)
      → os.ftruncate n w₁ ≡ (true, w₂)
      → Leaks is_open is_mapped w w₂ n
      → Opened is_open is_mapped os w (map_table os n w₂)
  map_table-Opened w w₁ w₂ n opened sized l = by_result (os.mmap n w₂) refl
    where
      by_result :
          (m : Option ℕ × W) → os.mmap n w₂ ≡ m → Opened is_open is_mapped os w (map_table os n w₂)
      by_result (none, w') e =
          not_mapped w₁ w₂ w' n opened sized e (map_table-failed n w₂ w' e)
            (closed_after w w₂ w' n l (d.map_fails n w₂ w' e))
      by_result (some a, w') e =
          let m = d.maps n w₂ w' a e in
          usable w₁ w₂ w' n a opened sized e (map_table-mapped n a w₂ w' e) (
            subst (Same is_open is_mapped w) (sym (close_registry-both n a w'))
              (closed_again os is_open is_mapped d w w₂ w' n a l m.0 m.1 m.2))

  open_or_create-failed :
      (w w₁ : W) → os.shm_open true w ≡ (none, w₁) → open_or_create os w ≡ (unset, w₁)
  unfolding open_or_create
  open_or_create-failed w w₁ e = ground (arith, e)

  open_or_create-unsized :
      (w w₁ w₂ : W) (n : ℕ)
      → os.shm_open true w ≡ (some n, w₁)
      → os.ftruncate n w₁ ≡ (false, w₂)
      → open_or_create os w ≡ (unset, os.close n w₂)
  unfolding open_or_create
  open_or_create-unsized w w₁ w₂ n e f = ground (arith, e, f)

  open_or_create-sized :
      (w w₁ w₂ : W) (n : ℕ)
      → os.shm_open true w ≡ (some n, w₁)
      → os.ftruncate n w₁ ≡ (true, w₂)
      → open_or_create os w ≡ map_table os n w₂
  unfolding open_or_create
  open_or_create-sized w w₁ w₂ n e f = ground (arith, e, f)

  sized-Opened :
      (w w₁ : W) (n : ℕ)
      → os.shm_open true w ≡ (some n, w₁)
      → Opened is_open is_mapped os w (open_or_create os w)
  sized-Opened w w₁ n e = by_result (os.ftruncate n w₁) refl
    where
      by_result :
          (m : Bool × W)
          → os.ftruncate n w₁ ≡ m
          → Opened is_open is_mapped os w (open_or_create os w)
      by_result (false, w₂) f =
          not_sized w₁ w₂ n e f (open_or_create-unsized w w₁ w₂ n e f)
            (closed_after w w₁ w₂ n (d.opens true w w₁ n e) (d.sizes n w₁ w₂ false f))
      by_result (true, w₂) f =
          let l = d.opens true w w₁ n e in
          let s = d.sizes n w₁ w₂ true f in
          subst (Opened is_open is_mapped os w) (sym (open_or_create-sized w w₁ w₂ n e f))
            (map_table-Opened w w₁ w₂ n e f (l.0, λ k. s.opened k ∙ l.1 k, λ k. s.mapped k ∙ l.2 k))

  -- The constructor of a `ChannelRegistry` never loses a descriptor or a mapping. If `shm_open`,
  -- `ftruncate` or `mmap` fails, then both members stay unset, and no descriptor or mapping is
  -- left behind; if all three succeed, then the members are what they gave, and the destructor
  -- gives both back. The calls behave as `Documented` of Ring.Segment says.
  pub open_or_create_lem : (w : W) → Opened is_open is_mapped os w (open_or_create os w)
  open_or_create_lem w = by_result (os.shm_open true w) refl
    where
      by_result :
          (m : Option ℕ × W)
          → os.shm_open true w ≡ m
          → Opened is_open is_mapped os w (open_or_create os w)
      by_result (none, w₁) e =
          not_opened w₁ e (open_or_create-failed w w₁ e) (d.open_fails true w w₁ e)
      by_result (some n, w₁) e = sized-Opened w w₁ n e
