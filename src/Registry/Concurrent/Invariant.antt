-- ===== src/Registry/Concurrent/Invariant.antt =====
-- What holds between the steps: the calls that are over make up a sequence, and but for heartbeats
-- the table is what that sequence left, changed by the caller that has the lock.
use lw_ipc.Base.{
  ℕ, ◌<◌, ◌≡◌, ◌≢◌, refl, sym, ap, ◌∙◌, arith, Bool, true, false, Option, none, some, List, [], ◌∷◌,
  ◌++◌, ℕ_discrete,
}
use lw_ipc.Message.{msg_type_value}
use lw_ipc.Ring.{update}
use lw_ipc.Registry.{
  ChannelEntry, ChannelRegistry, k_max_channels, active, matches, beat, strncpy, new_registry,
}
use lw_ipc.Registry.Concurrent.{
  Args, Op, name_of, Caller, idle, scanning, beating, seeking, filling, clearing, leaving, System,
  apply,
}
use lw_ipc.Registry.Concurrent.Calls.{registry_of, Absent, Used}

-- The calls of a history, the last first, made one after another on a new registry.
pub data Sequential : List (Op × Bool × ℕ) → ChannelRegistry → Type 0 where
  none_yet : Sequential [] new_registry
  one_more :
      {calls : List (Op × Bool × ℕ)} {r r' : ChannelRegistry} (op : Op) (result : Bool) (now : ℕ)
      → Sequential calls r
      → apply op now r ≡ (result, r')
      → Sequential ((op, result, now) ∷ calls) r'

-- An entry without its heartbeat, which `touch` changes at any time.
abbrev pub still : ChannelEntry → ChannelEntry
still e = record e { heartbeat_ns = 0 }

abbrev pub Agree : (ℕ → ChannelEntry) → (ℕ → ChannelEntry) → Type 0
Agree f g = (j : ℕ) → still (f j) ≡ still (g j)

-- The first `k` assignments to an entry are done.
pub record Filled (a : Args) (k now : ℕ) (e : ChannelEntry) : Type 0 where
  pub named : 0 < k → e.name ≡ strncpy 63 a.name ++ (0 ∷ [])
  pub typed : 1 < k → e.msg_type ≡ msg_type_value a.msg_type
  pub from : 2 < k → e.sensor_id ≡ a.sensor_id
  pub owned : 3 < k → e.producer_pid ≡ a.pid
  pub created : 4 < k → e.created_ns ≡ now

-- The table `f`, while the caller with the lock stands here and the calls that are over left `g`.
abbrev pub Working : (ℕ → ChannelEntry) → (ℕ → ChannelEntry) → Caller → Type 0
Working f g (scanning op i) = Agree f g × Absent (name_of op) g i
Working f g (beating a i) =
    Agree f g × Absent a.name g i × (i < k_max_channels) × (matches a.name (g i) ≡ true)
Working f g (seeking a i) = Agree f g × Absent a.name g k_max_channels × Used g i
Working f g (filling a i k now) =
    ((j : ℕ) → i ≢ j → still (f j) ≡ still (g j))
    × Absent a.name g k_max_channels
    × Used g i
    × (i < k_max_channels)
    × (active (g i) ≡ false)
    × Filled a k now (f i)
Working f g (clearing name i) =
    Agree f g × Absent name g i × (i < k_max_channels) × (matches name (g i) ≡ true)
Working f g (leaving op result now) =
    (g' : ℕ → ChannelEntry) × Agree f g' × (apply op now (registry_of g) ≡ (result, registry_of g'))
Working f g _ = Agree f g

-- The callers between taking and releasing the lock.
abbrev pub holds : Caller → Bool
holds (scanning op i) = true
holds (beating a i) = true
holds (seeking a i) = true
holds (filling a i k now) = true
holds (clearing name i) = true
holds (leaving op result now) = true
holds _ = false

-- The owner's place; `idle` if the lock is free.
abbrev pub at_work : Option ℕ → (ℕ → Caller) → Caller
at_work none callers = idle
at_work (some a) callers = callers a

pub record Inv (s : System) : Type 0 where
  pub spec : ℕ → ChannelEntry
  pub owner : Option ℕ
  pub sequential : Sequential s.mem.calls (registry_of spec)
  pub working : Working s.mem.table spec (at_work owner s.callers)
  pub holders : (b : ℕ) → holds (s.callers b) ≡ true → owner ≡ some b
  pub owned : (a : ℕ) → owner ≡ some a → (holds (s.callers a) ≡ true) × (s.mem.lock ≡ 1)
  pub unowned : owner ≡ none → s.mem.lock ≡ 0

-- Looking at an entry does not see its heartbeat.
matches-still : (name : List ℕ) (e : ChannelEntry) → matches name e ≡ matches name (still e)
unfolding matches active
matches-still name e = refl

active-still : (e : ChannelEntry) → active e ≡ active (still e)
unfolding active
active-still e = refl

module _ (f g : ℕ → ChannelEntry) (same : Agree f g) where
  pub Agree-matches : (name : List ℕ) (j : ℕ) → matches name (g j) ≡ matches name (f j)
  Agree-matches name j =
      matches-still name (g j) ∙ ap (matches name) (sym (same j)) ∙ sym (matches-still name (f j))

  pub Agree-active : (j : ℕ) → active (g j) ≡ active (f j)
  Agree-active j = active-still (g j) ∙ ap active (sym (same j)) ∙ sym (active-still (f j))

  -- The same entry is stored in both.
  pub Agree-update :
      (i : ℕ) (x y : ChannelEntry) → still x ≡ still y → Agree (update f i x) (update g i y)
  Agree-update i x y e j = elim (ℕ_discrete i j) [
    | yes at ↦ ground (arith, at, e)
    | no off ↦ ground (arith, off, same j)
  ]

-- `touch` changes nothing but a heartbeat.
module _ (f : ℕ → ChannelEntry) (i now : ℕ) where
  pub beat-still : (j : ℕ) → still (update f i (beat now (f i)) j) ≡ still (f j)
  beat-still j = elim (ℕ_discrete i j) [
    | yes at ↦ ground (arith, at)
    | no off ↦ ground (arith, off)
  ]
