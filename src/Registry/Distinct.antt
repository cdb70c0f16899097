-- ===== src/Registry/Distinct.antt =====
-- No name has two entries in the table, and what removing one does.
use lw_ipc.Base.{
  ℕ, zero, suc, ◌+◌, ◌<◌, ◌≤◌, ◌≡◌, ◌≢◌, ◌↔◌, ◌⊎◌, inl, inr, refl, sym, ◌∙◌, true, false, Bool,
  List, [], ◌∷◌, arith, if◌then◌else◌, not, Bool-cases, subst, replicate,
}
use mathlib.Core.Bool.{true≢false}
use lw_ipc.Message.{MsgType}
use lw_ipc.Registry.{
  ChannelEntry, ChannelRegistry, matches, active, change_first, any_matches, filled, beat,
  blank_entry, strncmp_equal, register_channel, unregister_channel, contains, new_registry,
}
use lw_ipc.Registry.Names.{key, strncmp_equal-key}
use lw_ipc.Registry.Table.{
  IsNamed, matches-filled, matches-key, contains-mapped, change_first-matches,
  register_channel-known, register_channel-free, register_channel-full,
}

-- The number of entries of a name.
unfoldable pub count_matches : List ℕ → List ChannelEntry → ℕ
count_matches name [] = 0
count_matches name (e ∷ entries) = (if matches name e then 1 else 0) + count_matches name entries

-- No name has two entries.
pub record Distinct (entries : List ChannelEntry) : Type 0 where
  pub once : (name : List ℕ) → count_matches name entries ≤ 1

any_matches-count :
    (name : List ℕ) (entries : List ChannelEntry)
    → (any_matches name entries ≡ true) ↔ (0 < count_matches name entries)
unfolding any_matches count_matches
any_matches-count name [] = ground arith
any_matches-count name (e ∷ entries) = ground (arith, any_matches-count name entries)

-- An entry of two names: they agree.
matches-both :
    (name other : List ℕ) (e : ChannelEntry)
    → matches name e ≡ true
    → matches other e ≡ true
    → key 63 name ≡ key 63 other
unfolding matches
matches-both name other e h k =
    ground (arith, h, k, strncmp_equal-key 63 e.name name, strncmp_equal-key 63 e.name other)

matches-blank : (name : List ℕ) → matches name blank_entry ≡ false
unfolding matches active
matches-blank name = refl

count-cleared_less :
    (name other : List ℕ) (entries : List ChannelEntry)
    → key 63 name ≡ key 63 other
    → 0 < count_matches other entries
    → count_matches other (change_first (matches name) (λ e. blank_entry) entries).1 + 1
      ≡ count_matches other entries
unfolding change_first count_matches
count-cleared_less name other [] same some = ground arith
count-cleared_less name other (e ∷ entries) same some = ground (
  arith,
  count-cleared_less name other entries same,
  matches-key name other e same,
  matches-blank other,
)

count-cleared_le :
    (name other : List ℕ) (entries : List ChannelEntry)
    → count_matches other (change_first (matches name) (λ e. blank_entry) entries).1
      ≤ count_matches other entries
unfolding change_first count_matches
count-cleared_le name other [] = ground arith
count-cleared_le name other (e ∷ entries) =
    ground (arith, count-cleared_le name other entries, matches-blank other)

count-cleared_other :
    (name other : List ℕ) (entries : List ChannelEntry)
    → key 63 name ≢ key 63 other
    → count_matches other (change_first (matches name) (λ e. blank_entry) entries).1
      ≡ count_matches other entries
unfolding change_first count_matches
count-cleared_other name other [] differ = refl
count-cleared_other name other (e ∷ entries) differ = ground (
  arith,
  count-cleared_other name other entries differ,
  matches-both name other e,
  matches-blank other,
)

pub count-blanks : (name : List ℕ) (n : ℕ) → count_matches name (replicate n blank_entry) ≡ 0
unfolding count_matches
count-blanks name zero = refl
count-blanks name (suc n) = ground (arith, matches-blank name, count-blanks name n)

-- A heartbeat counts nothing anew.
count-beat :
    (name other : List ℕ) (now : ℕ) (entries : List ChannelEntry)
    → count_matches other (change_first (matches name) (beat now) entries).1
      ≡ count_matches other entries
unfolding change_first count_matches matches active
count-beat name other now [] = refl
count-beat name other now (e ∷ entries) = ground (arith, count-beat name other now entries)

count-added :
    (other : List ℕ) (new : ChannelEntry) (entries : List ChannelEntry)
    → count_matches other (change_first (λ e. not (active e)) (λ e. new) entries).1
      ≤ count_matches other entries + (if matches other new then 1 else 0)
unfolding change_first count_matches matches
count-added other new [] = ground arith
count-added other new (e ∷ entries) = ground (arith, count-added other new entries)

agree : (n : ℕ) (name other : List ℕ) → (key n name ≡ key n other) ⊎ (key n name ≢ key n other)
agree n name other = elim (Bool-cases (strncmp_equal n name other)) [
  | inl h ↦ inl ((strncmp_equal-key n name other).0 h)
  | inr h ↦ inr (λ e. true≢false (sym ((strncmp_equal-key n name other).1 e) ∙ h))
]

module _ (name : List ℕ) (r : ChannelRegistry) (mapped : r.header ≡ true)
    (o : Distinct r.table) where
  abbrev cleared : List ChannelEntry
  cleared = (change_first (matches name) (λ e. blank_entry) r.table).1

  unregister-mapped : unregister_channel name r ≡ record r { table = cleared }
  unfolding unregister_channel
  unregister-mapped = ground (arith, mapped)

  cleared-Distinct : Distinct cleared
  cleared-Distinct = record {
    once = λ other. omega (arith, o.once other, count-cleared_le name other r.table);
  }

  cleared-same : (other : List ℕ) → key 63 name ≡ key 63 other → any_matches other cleared ≡ false
  cleared-same other same = ground (
    arith,
    o.once other,
    count-cleared_le name other r.table,
    count-cleared_less name other r.table same,
    any_matches-count other cleared,
  )

  cleared-other :
      (other : List ℕ)
      → key 63 name ≢ key 63 other
      → any_matches other cleared ≡ any_matches other r.table
  cleared-other other differ = ground (
    arith,
    count-cleared_other name other r.table differ,
    any_matches-count other cleared,
    any_matches-count other r.table,
  )

  cleared-contains :
      (other : List ℕ)
      → (contains other (record r { table = cleared }) ≡ true)
        ↔ ((contains other r ≡ true) × (key 63 name ≢ key 63 other))
  cleared-contains other = elim (agree 63 name other) [
    | inl same ↦ (
      λ h. absurd (
          true≢false (
            sym h
            ∙ contains-mapped other (record r { table = cleared }) mapped
            ∙ cleared-same other same)),
      λ h. absurd (h.1 same),
    )
    | inr differ ↦ (λ h. (same_contains differ ∙ h, differ), λ h. sym (same_contains differ) ∙ h.0)
  ]
    where
      same_contains :
          key 63 name ≢ key 63 other
          → contains other r ≡ contains other (record r { table = cleared })
      same_contains differ =
          contains-mapped other r mapped
          ∙ sym (cleared-other other differ)
          ∙ sym (contains-mapped other (record r { table = cleared }) mapped)

  -- After `unregister_channel` on a mapped registry, whose names have one entry each, it contains
  -- just the names that it contained before and that differ from the removed one in their first 63
  -- characters; names still have one entry each.
  pub unregister_channel_lem :
      (other : List ℕ)
      → ((contains other (unregister_channel name r) ≡ true)
          ↔ ((contains other r ≡ true) × (key 63 name ≢ key 63 other)))
        × Distinct (unregister_channel name r).table
  unregister_channel_lem other =
      subst
        (λ t.
          ((contains other t ≡ true) ↔ ((contains other r ≡ true) × (key 63 name ≢ key 63 other)))
          × Distinct t.table)
        (sym unregister-mapped) (cleared-contains other, cleared-Distinct)

count-key :
    (name other : List ℕ) (entries : List ChannelEntry)
    → key 63 name ≡ key 63 other
    → count_matches name entries ≡ count_matches other entries
unfolding count_matches
count-key name other [] same = refl
count-key name other (e ∷ entries) same =
    ground (arith, matches-key name other e same, count-key name other entries same)

module _ (name : List ℕ) (type : MsgType) (id pid now : ℕ) (r : ChannelRegistry)
    (mapped : r.header ≡ true) (o : Distinct r.table) (named : IsNamed name) where
  abbrev beaten : Bool × List ChannelEntry
  beaten = change_first (matches name) (beat now) r.table

  abbrev added : Bool × List ChannelEntry
  added = change_first (λ e. not (active e)) (λ e. filled name type id pid now) r.table

  none_yet : beaten.0 ≡ false → count_matches name r.table ≡ 0
  none_yet new =
      ground (arith, change_first-matches name name now r.table, any_matches-count name r.table)

  added-once : (other : List ℕ) → beaten.0 ≡ false → count_matches other added.1 ≤ 1
  added-once other new = elim (Bool-cases (matches other (filled name type id pid now))) [
    | inl h ↦ ground (
      arith,
      count-added other (filled name type id pid now) r.table,
      h,
      none_yet new,
      count-key name other r.table ((matches-filled name other type id pid now named).0 h),
    )
    | inr h ↦
        ground (arith, count-added other (filled name type id pid now) r.table, h, o.once other)
  ]

  -- `register_channel` of a name that is not empty, on a mapped registry, leaves every name with
  -- one entry, whether it finds the name, takes a free entry or finds the table full.
  pub register_channel-Distinct : Distinct (register_channel name type id pid now r).1.table
  register_channel-Distinct = elim (Bool-cases beaten.0) [
    | inl h ↦
        subst (λ t. Distinct t.1.table)
          (sym (register_channel-known name name type id pid now r mapped h))
          (record {
            once = λ other. omega (arith, count-beat name other now r.table, o.once other);
          })
    | inr h ↦ elim (Bool-cases added.0) [
      | inl k ↦
          subst (λ t. Distinct t.1.table)
            (sym (register_channel-free name name type id pid now r mapped h k))
            (record { once = λ other. added-once other h })
      | inr k ↦
          subst (λ t. Distinct t.1.table)
            (sym (register_channel-full name name type id pid now r mapped h k)) o
    ]
  ]

-- A new registry.
pub new_registry-Distinct : Distinct new_registry.table
new_registry-Distinct = record { once = λ name. omega (arith, count-blanks name 64) }
