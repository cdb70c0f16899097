-- ===== src/Registry/Concurrent/Effects.antt =====
-- What each step does to what holds between the steps.
use lw_ipc.Base.{
  ℕ, suc, ◌<◌, ◌≡◌, refl, ◌∙◌, subst, arith, true, false, ℕ_discrete, ◌==◌, if◌then◌else◌,
}
use lw_ipc.Ring.{update}
use lw_ipc.Registry.{ChannelEntry, active, matches, beat, blank_entry}
use lw_ipc.Registry.Concurrent.{
  name_of, Caller, Memory, Move, call, acquire, spin, next, known, beats, unknown, used, free, fill,
  filled_all, full, found, clear, missing, leave, touch_call, touch_next, touch_found, touch_beats,
  touch_missing, contains_call, contains_next, contains_found, contains_missing, answer,
}
use lw_ipc.Registry.Concurrent.Calls.{
  registry_of, new_entry, apply-known, apply-free, apply-full, apply-found, apply-missing,
}
use lw_ipc.Registry.Concurrent.Invariant.{
  Sequential, one_more, Agree, Filled, Working, holds, Agree-matches, Agree-active, Agree-update,
  beat-still,
}
use lw_ipc.Registry.Concurrent.Filling.{beat-Working, Filled-suc, Filled-new, Agree-filled}

-- What a step does: of a caller outside the lock, of one that takes it, has it, or gives it back.
pub data Effect (m : Memory) (c : Caller) (m' : Memory) (c' : Caller) : Type 0 where
  outside :
      holds c ≡ false
      → holds c' ≡ false
      → m'.lock ≡ m.lock
      → m'.calls ≡ m.calls
      → ((g : ℕ → ChannelEntry) (w : Caller) → Working m.table g w → Working m'.table g w)
      → Effect m c m' c'
  enters :
      holds c ≡ false
      → holds c' ≡ true
      → m.lock ≡ 0
      → m'.lock ≡ 1
      → m'.calls ≡ m.calls
      → ((g : ℕ → ChannelEntry) → Agree m.table g → Working m'.table g c')
      → Effect m c m' c'
  inside :
      holds c ≡ true
      → holds c' ≡ true
      → m'.lock ≡ m.lock
      → m'.calls ≡ m.calls
      → ((g : ℕ → ChannelEntry) → Working m.table g c → Working m'.table g c')
      → Effect m c m' c'
  leaves :
      holds c ≡ true
      → holds c' ≡ false
      → m'.lock ≡ 0
      → ((g : ℕ → ChannelEntry)
          → Sequential m.calls (registry_of g)
          → Working m.table g c
          → (g' : ℕ → ChannelEntry) × Sequential m'.calls (registry_of g') × Agree m'.table g')
      → Effect m c m' c'

-- One more entry was looked at.
until_suc : (P : ℕ → Type 0) (i : ℕ) → ((j : ℕ) → j < i → P j) → P i → (j : ℕ) → j < suc i → P j
until_suc P i h at j l = elim (ℕ_discrete i j) [ yes e ↦ subst P e at | no ne ↦ h j (omega arith) ]

pub Move-Effect : {m m' : Memory} {c c' : Caller} → Move m c m' c' → Effect m c m' c'
Move-Effect (call op) = outside refl refl refl refl (λ g w h. h)
Move-Effect spin = outside refl refl refl refl (λ g w h. h)
Move-Effect (touch_call name) = outside refl refl refl refl (λ g w h. h)
Move-Effect (touch_next lt e) = outside refl refl refl refl (λ g w h. h)
Move-Effect (touch_found lt e) = outside refl refl refl refl (λ g w h. h)
Move-Effect touch_missing = outside refl refl refl refl (λ g w h. h)
Move-Effect (contains_call name) = outside refl refl refl refl (λ g w h. h)
Move-Effect (contains_next lt e) = outside refl refl refl refl (λ g w h. h)
Move-Effect (contains_found lt e) = outside refl refl refl refl (λ g w h. h)
Move-Effect contains_missing = outside refl refl refl refl (λ g w h. h)
Move-Effect answer = outside refl refl refl refl (λ g w h. h)
Move-Effect {m} (touch_beats {i = i} now) =
    outside refl refl refl refl (λ g w h. beat-Working m.table _ g (beat-still m.table i now) w h)
Move-Effect (acquire e) = enters refl refl e refl refl (λ g s. (s, λ j l. absurd (omega arith)))
Move-Effect {m} (next {op = op} {i = i} lt e) = inside refl refl refl refl (λ g h. (
  h.0,
  until_suc (λ j. matches (name_of op) (g j) ≡ false) i h.1
      (Agree-matches m.table g h.0 (name_of op) i ∙ e),
))
Move-Effect {m} (known {a = a} {i = i} lt e) =
    inside refl refl refl refl (λ g h. (h.0, h.1, lt, Agree-matches m.table g h.0 a.name i ∙ e))
Move-Effect {m} (found {name = name} {i = i} lt e) =
    inside refl refl refl refl (λ g h. (h.0, h.1, lt, Agree-matches m.table g h.0 name i ∙ e))
Move-Effect {m} (beats {a = a} {i = i} now) = inside refl refl refl refl (λ g h. (
  update g i (beat now (g i)),
  Agree-update m.table g h.0 i (beat now (m.table i)) (beat now (g i)) (h.0 i),
  apply-known a now g i h.2 h.1 h.3,
))
Move-Effect unknown = inside refl refl refl refl (λ g h. (h.0, h.1, λ j l. absurd (omega arith)))
Move-Effect {m} (used {i = i} lt e) = inside refl refl refl refl (λ g h.
    (h.0, h.1, until_suc (λ j. active (g j) ≡ true) i h.2 (Agree-active m.table g h.0 i ∙ e)))
Move-Effect {m} (free {i = i} lt e) = inside refl refl refl refl (λ g h. (
  λ j ne. h.0 j,
  h.1,
  h.2,
  lt,
  Agree-active m.table g h.0 i ∙ e,
  record {
    named = λ l. absurd (omega arith);
    typed = λ l. absurd (omega arith);
    from = λ l. absurd (omega arith);
    owned = λ l. absurd (omega arith);
    created = λ l. absurd (omega arith);
  },
))
Move-Effect {m} (fill {a = a} {i = i} {k = k} {now = now} t lt) = inside refl refl refl refl (λ g h.
    (
      λ j ne. ground (arith, ne, h.0 j ne),
      h.1,
      h.2,
      h.3,
      h.4,
      subst (Filled a (suc k) (if k == 4 then t else now)) (ground arith)
          (Filled-suc a k now t (m.table i) h.5),
    ))
Move-Effect {m} (filled_all {a = a} {i = i} {now = now}) = inside refl refl refl refl (λ g h. (
  update g i (new_entry a now),
  Agree-filled m.table g i (new_entry a now) h.0 (Filled-new a now (m.table i) h.5),
  apply-free a now g i h.3 h.1 h.2 h.4,
))
Move-Effect (full {a = a}) = inside refl refl refl refl (λ g h. (g, h.0, apply-full a 0 g h.1 h.2))
Move-Effect {m} (clear {name = name} {i = i}) = inside refl refl refl refl (λ g h. (
  update g i blank_entry,
  Agree-update m.table g h.0 i blank_entry blank_entry refl,
  apply-found name g 0 i h.2 h.1 h.3,
))
Move-Effect (missing {name = name}) =
    inside refl refl refl refl (λ g h. (g, h.0, apply-missing name g 0 h.1))
Move-Effect (leave {op = op} {result = result} {now = now}) =
    leaves refl refl refl (λ g s h. (h.0, one_more op result now s h.2, h.1))
