-- ===== src/Registry/Concurrent/Calls.antt =====
-- The calls on a table, when one knows what their loops find.
use lw_ipc.Base.{ℕ, ◌<◌, ◌≡◌, refl, ap, ◌∙◌, arith, Bool, true, false, List, not}
use lw_ipc.Ring.{update}
use lw_ipc.Registry.{
  ChannelEntry, ChannelRegistry, change_first, k_max_channels, blank_entry, active, matches, beat,
  filled, unregister_channel, new_registry,
}
use lw_ipc.Registry.Table.{register_channel-known, register_channel-free, register_channel-full}
use lw_ipc.Registry.Concurrent.{Args, registering, unregistering, apply}
use lw_ipc.Registry.Concurrent.Entries.{
  entries, change_first-entries, change_first-none, entries-blank,
}

-- The registry with this table.
abbrev pub registry_of : (ℕ → ChannelEntry) → ChannelRegistry
registry_of f = record { header = true; table = entries f 0 k_max_channels }

-- No entry before `n` has the name.
abbrev pub Absent : List ℕ → (ℕ → ChannelEntry) → ℕ → Type 0
Absent name f n = (j : ℕ) → j < n → matches name (f j) ≡ false

-- Every entry before `n` is in use.
abbrev pub Used : (ℕ → ChannelEntry) → ℕ → Type 0
Used f n = (j : ℕ) → j < n → active (f j) ≡ true

-- What `register_channel` makes of an entry.
abbrev pub new_entry : Args → ℕ → ChannelEntry
new_entry a now = filled a.name a.msg_type a.sensor_id a.pid now

module _ (a : Args) (now : ℕ) (f : ℕ → ChannelEntry) where
  pub apply-known :
      (i : ℕ)
      → i < k_max_channels
      → Absent a.name f i
      → matches a.name (f i) ≡ true
      → apply (registering a) now (registry_of f)
        ≡ (true, registry_of (update f i (beat now (f i))))
  apply-known i lt before h =
      let e =
        change_first-entries (matches a.name) (beat now) f k_max_channels 0 i (omega arith)
          (omega arith) (λ j k l. before j l) h in
      register_channel-known a.name a.name a.msg_type a.sensor_id a.pid now (registry_of f) refl
        (ap (λ r. r.0) e)
      ∙ ap (λ r. (true, record { header = true; table = r.1 })) e

  known_none :
      Absent a.name f k_max_channels
      → change_first (matches a.name) (beat now) (entries f 0 k_max_channels)
        ≡ (false, entries f 0 k_max_channels)
  known_none h =
      change_first-none (matches a.name) (beat now) f k_max_channels 0 (λ j k l. h j (omega arith))

  pub apply-free :
      (i : ℕ)
      → i < k_max_channels
      → Absent a.name f k_max_channels
      → Used f i
      → active (f i) ≡ false
      → apply (registering a) now (registry_of f)
        ≡ (true, registry_of (update f i (new_entry a now)))
  apply-free i lt none before h =
      let e =
        change_first-entries (λ t. not (active t)) (λ t. new_entry a now) f k_max_channels 0 i
          (omega arith) (omega arith) (λ j k l. ap not (before j l)) (ap not h) in
      register_channel-free a.name a.name a.msg_type a.sensor_id a.pid now (registry_of f) refl
        (ap (λ r. r.0) (known_none none)) (ap (λ r. r.0) e)
      ∙ ap (λ r. (true, record { header = true; table = r.1 })) e

  pub apply-full :
      Absent a.name f k_max_channels
      → Used f k_max_channels
      → apply (registering a) now (registry_of f) ≡ (false, registry_of f)
  apply-full none all =
      let e =
        change_first-none (λ t. not (active t)) (λ t. new_entry a now) f k_max_channels 0
          (λ j k l. ap not (all j (omega arith))) in
      register_channel-full a.name a.name a.msg_type a.sensor_id a.pid now (registry_of f) refl
        (ap (λ r. r.0) (known_none none)) (ap (λ r. r.0) e)

module _ (name : List ℕ) (f : ℕ → ChannelEntry) where
  unregister-table :
      (b : Bool) (t : List ChannelEntry)
      → change_first (matches name) (λ e. blank_entry) (entries f 0 k_max_channels) ≡ (b, t)
      → unregister_channel name (registry_of f) ≡ record { header = true; table = t }
  unfolding unregister_channel
  unregister-table b t e = ap (λ r. record { header = true; table = r.1 }) e

  pub apply-found :
      (now i : ℕ)
      → i < k_max_channels
      → Absent name f i
      → matches name (f i) ≡ true
      → apply (unregistering name) now (registry_of f)
        ≡ (true, registry_of (update f i blank_entry))
  apply-found now i lt before h =
      ap (λ r. (true, r))
        (unregister-table true (entries (update f i blank_entry) 0 k_max_channels) (
          change_first-entries (matches name) (λ e. blank_entry) f k_max_channels 0 i (omega arith)
            (omega arith) (λ j k l. before j l) h))

  pub apply-missing :
      (now : ℕ)
      → Absent name f k_max_channels
      → apply (unregistering name) now (registry_of f) ≡ (true, registry_of f)
  apply-missing now none =
      ap (λ r. (true, r))
        (unregister-table false (entries f 0 k_max_channels) (
          change_first-none (matches name) (λ e. blank_entry) f k_max_channels 0
            (λ j k l. none j (omega arith))))

pub registry_of-blank : registry_of (λ i. blank_entry) ≡ new_registry
registry_of-blank = ap (λ t. record { header = true; table = t }) (entries-blank 0 k_max_channels)
