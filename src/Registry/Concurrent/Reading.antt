-- ===== src/Registry/Concurrent/Reading.antt =====
-- `contains`, which looks at the table without the lock.
use lw_ipc.Base.{
  ℕ, suc, ◌≤◌, ◌<◌, ◌≡◌, ◌≢◌, refl, sym, ap, ◌∙◌, subst, arith, true, false, List, ℕ_discrete,
}
use lw_ipc.Ring.{update}
use lw_ipc.Registry.{ChannelEntry, k_max_channels, matches}
use lw_ipc.Registry.Concurrent.{
  Caller, idle, reading, answered, Memory, Move, contains_call, contains_next, contains_found,
  contains_missing, answer, System, Step, moves,
}
use lw_ipc.Registry.Concurrent.Runs.{updated, kept}

-- What every caller does from the moment when caller `a`, which was idle, calls `contains(name)`
-- until the call returns, while entry `p` has the name.
pub data During (a : ℕ) (name : List ℕ) (p : ℕ) : System → Type 0 where
  asks :
      (s : System) {m : Memory} (i : ℕ)
      → s.callers a ≡ idle
      → Move s.mem idle m (reading name i)
      → matches name (m.table p) ≡ true
      → During a name p (record s { mem = m; callers = update s.callers a (reading name i) })
  goes_on :
      {s t : System}
      → During a name p s
      → Step s t
      → t.callers a ≢ idle
      → matches name (t.mem.table p) ≡ true
      → During a name p t

-- The entry is not behind the search.
data Ahead (name : List ℕ) (p : ℕ) : Caller → Type 0 where
  searching : {j : ℕ} → j ≤ p → Ahead name p (reading name j)
  has_it : Ahead name p (answered true)

During-matches :
    {a : ℕ} {name : List ℕ} {p : ℕ} {s : System}
    → During a name p s
    → matches name (s.mem.table p) ≡ true
During-matches (asks s i e mv h) = h
During-matches (goes_on d st busy h) = h

-- An entry that was passed has another name.
not_passed :
    (name : List ℕ) (f : ℕ → ChannelEntry) (j p : ℕ)
    → j ≤ p
    → matches name (f j) ≡ false
    → matches name (f p) ≡ true
    → suc j ≤ p
not_passed name f j p le off on = elim (ℕ_discrete j p) [
  | yes e ↦ absurd (ground (arith, on, off, ap (λ t. matches name (f t)) e))
  | no ne ↦ omega arith
]

Move-Ahead :
    {name : List ℕ} {p : ℕ} {m m' : Memory} {c c' : Caller}
    → p < k_max_channels
    → matches name (m.table p) ≡ true
    → Ahead name p c
    → Move m c m' c'
    → c' ≢ idle
    → Ahead name p c'
Move-Ahead {name} {p} {m} lt at (searching {j = j} le) (contains_next l e) busy =
    searching (not_passed name m.table j p le e at)
Move-Ahead lt at (searching le) (contains_found l e) busy = has_it
Move-Ahead lt at (searching le) contains_missing busy = absurd (omega arith)
Move-Ahead lt at has_it answer busy = absurd (busy refl)

module _ (a : ℕ) (name : List ℕ) (p : ℕ) (lt : p < k_max_channels) where
  -- The search of a call starts at the first entry.
  starts : {m m' : Memory} {i : ℕ} → Move m idle m' (reading name i) → i ≤ p
  starts (contains_call n) = omega arith

  During-Ahead : {s : System} → During a name p s → Ahead name p (s.callers a)
  During-Ahead (asks s i e mv h) =
      subst (Ahead name p) (sym (updated s.callers a (reading name i) a refl))
        (searching (starts mv))
  During-Ahead (goes_on {s = s} d (moves b {m = m} {c = c} st) busy h) = elim (ℕ_discrete b a) [
    | yes e ↦ subst (Ahead name p) (sym (updated s.callers b c a e)) (
        Move-Ahead lt (During-matches d)
          (subst (λ t. Ahead name p (s.callers t)) (sym e) (During-Ahead d)) st
          (λ i. busy (updated s.callers b c a e ∙ i)))
    | no ne ↦ subst (Ahead name p) (sym (kept s.callers b c a ne)) (During-Ahead d)
  ]

  -- `contains` never misses a channel: if one entry, of the 64, has the name from the start of the
  -- call to its end, the call does not return false, whatever the callers do meanwhile.
  pub contains_lem : {s : System} → During a name p s → s.callers a ≢ answered false
  contains_lem {s} d e = not_false (During-Ahead d) e
    where
      not_false : {c : Caller} → Ahead name p c → c ≢ answered false
      not_false (searching le) e = ground (arith, e)
      not_false has_it e = ground (arith, e)
