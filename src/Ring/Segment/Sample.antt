-- ===== src/Ring/Segment/Sample.antt =====
-- A system with one descriptor and one address, for test runs.
use lw_ipc.Base.{
  ℕ, ◌≡◌, inl, inr, refl, sym, ap, subst, arith, Bool, true, false, Option, none, some,
  if◌then◌else◌, Bool-cases,
}
use lw_ipc.Ring.{update}
use lw_ipc.Ring.Segment.{Posix}
use lw_ipc.Ring.Segment.Resources.{Same, Documented}

pub record Tables : Type 0 where
  pub opened : ℕ → Bool
  pub mapped : ℕ → Bool

abbrev pub opening : Tables → Option ℕ × Tables
opening w = if w.opened 3 then (none, w) else (some 3, record w { opened = update w.opened 3 true })

-- `room`: whether there is address space.
abbrev pub mapping : Bool → Tables → Option ℕ × Tables
mapping room w =
    if room
    then (if w.mapped 4096
        then (none, w)
        else (some 4096, record w { mapped = update w.mapped 4096 true }))
    else (none, w)

abbrev pub system : Bool → Posix Tables
system room = record {
  shm_open = λ create w. opening w;
  shm_probe = λ w. opening w;
  ftruncate = λ n w. (true, w);
  mmap = λ n w. mapping room w;
  munmap = λ a w. record w { mapped = update w.mapped a false };
  close = λ n w. record w { opened = update w.opened n false };
  shm_unlink = λ w. w;
}

abbrev pub opened_in : Tables → ℕ → Bool
opened_in w = w.opened

abbrev pub mapped_in : Tables → ℕ → Bool
mapped_in w = w.mapped

unchanged : (w : Tables) → Same opened_in mapped_in w w
unchanged w = record { opened = λ k. refl; mapped = λ k. refl }

abbrev Opens : Tables → Option ℕ × Tables → Type 0
Opens w (none, w') = Same opened_in mapped_in w w'
Opens w (some n, w') =
    (w.opened n ≡ false)
    × ((k : ℕ) → w'.opened k ≡ update w.opened n true k)
    × ((k : ℕ) → w'.mapped k ≡ w.mapped k)

abbrev Maps : Tables → Option ℕ × Tables → Type 0
Maps w (none, w') = Same opened_in mapped_in w w'
Maps w (some a, w') =
    (w.mapped a ≡ false)
    × ((k : ℕ) → w'.mapped k ≡ update w.mapped a true k)
    × ((k : ℕ) → w'.opened k ≡ w.opened k)

opening-Opens : (w : Tables) → Opens w (opening w)
opening-Opens w = elim (Bool-cases (w.opened 3)) [
  | inl on ↦ subst (Opens w) (sym (used on)) (unchanged w)
  | inr off ↦ subst (Opens w) (sym (unused off)) (off, λ k. refl, λ k. refl)
]
  where
    used : w.opened 3 ≡ true → opening w ≡ (none, w)
    used on = ground (arith, on)

    unused : w.opened 3 ≡ false → opening w ≡ (some 3, record w { opened = update w.opened 3 true })
    unused off = ground (arith, off)

mapping-Maps : (room : Bool) (w : Tables) → Maps w (mapping room w)
mapping-Maps false w = unchanged w
mapping-Maps true w = elim (Bool-cases (w.mapped 4096)) [
  | inl on ↦ subst (Maps w) (sym (used on)) (unchanged w)
  | inr off ↦ subst (Maps w) (sym (unused off)) (off, λ k. refl, λ k. refl)
]
  where
    used : w.mapped 4096 ≡ true → mapping true w ≡ (none, w)
    used on = ground (arith, on)

    unused :
        w.mapped 4096 ≡ false
        → mapping true w ≡ (some 4096, record w { mapped = update w.mapped 4096 true })
    unused off = ground (arith, off)

pub system-Documented : (room : Bool) → Documented (system room) opened_in mapped_in
system-Documented room = record {
  opens = λ create w w' n e. subst (Opens w) e (opening-Opens w);
  open_fails = λ create w w' e. subst (Opens w) e (opening-Opens w);
  probes = λ w w' n e. subst (Opens w) e (opening-Opens w);
  probe_fails = λ w w' e. subst (Opens w) e (opening-Opens w);
  sizes = λ n w w' ok e. subst (Same opened_in mapped_in w) (ap (λ r. r.1) e) (unchanged w);
  maps = λ n w w' a e. subst (Maps w) e (mapping-Maps room w);
  map_fails = λ n w w' e. subst (Maps w) e (mapping-Maps room w);
  unmaps = λ a w h. (λ k. refl, λ k. refl);
  closes = λ n w h. (λ k. refl, λ k. refl);
  unlinks = unchanged;
}

abbrev pub boot : Tables
boot = record { opened = λ k. false; mapped = λ k. false }
