-- ===== src/Registry/Table.antt =====
-- What the loops over the table do to the channels in it.
use lw_ipc.Base.{
  ℕ, zero, suc, ◌≡◌, ◌≢◌, ◌↔◌, ◌⊎◌, inl, inr, refl, sym, ◌∙◌, subst, true, false, Bool, List, [],
  ◌∷◌, ◌++◌, arith, not, ◌==◌, Bool-cases, ◌&&◌, get_or,
}
use lw_ipc.Message.{MsgType}
use lw_ipc.Registry.{
  ChannelEntry, ChannelRegistry, matches, active, change_first, any_matches, keep, filled, beat,
  strncmp_equal, strncpy, c_string, register_channel, contains, list,
}
use lw_ipc.Registry.Names.{key, strncmp_equal-key, key-strncpy}

-- A name with a first character.
abbrev pub IsNamed : List ℕ → Type 0
IsNamed name = c_string name ≢ []

filled-active :
    (name : List ℕ) (type : MsgType) (id pid now : ℕ)
    → IsNamed name
    → active (filled name type id pid now) ≡ true
unfolding active strncpy c_string
filled-active [] type id pid now named = absurd (named refl)
filled-active (zero ∷ name) type id pid now named = absurd (named refl)
filled-active (suc c ∷ name) type id pid now named = ground arith

pub matches-filled :
    (name other : List ℕ) (type : MsgType) (id pid now : ℕ)
    → IsNamed name
    → (matches other (filled name type id pid now) ≡ true) ↔ (key 63 name ≡ key 63 other)
unfolding matches
matches-filled name other type id pid now named = ground (
  arith,
  filled-active name type id pid now named,
  strncmp_equal-key 63 (strncpy 63 name ++ (0 ∷ [])) other,
  key-strncpy 63 name,
)

pub matches-key :
    (name other : List ℕ) (e : ChannelEntry)
    → key 63 name ≡ key 63 other
    → matches name e ≡ matches other e
unfolding matches
matches-key name other e same =
    ground (arith, strncmp_equal-key 63 e.name name, strncmp_equal-key 63 e.name other)

pub any_matches-key :
    (name other : List ℕ) (entries : List ChannelEntry)
    → key 63 name ≡ key 63 other
    → any_matches name entries ≡ any_matches other entries
unfolding any_matches
any_matches-key name other [] same = refl
any_matches-key name other (e ∷ entries) same =
    ground (arith, matches-key name other e same, any_matches-key name other entries same)

-- A loop that searches for a name tells whether it is there, and a heartbeat changes no name.
pub change_first-matches :
    (name other : List ℕ) (now : ℕ) (entries : List ChannelEntry)
    → let (found, beaten) = change_first (matches name) (beat now) entries in
      (found ≡ any_matches name entries) × (any_matches other beaten ≡ any_matches other entries)
unfolding change_first any_matches matches active
change_first-matches name other now [] = (refl, refl)
change_first-matches name other now (e ∷ entries) =
    ground (arith, change_first-matches name other now entries)

-- The first free entry is taken.
change_first-free :
    (other : List ℕ) (new : ChannelEntry) (entries : List ChannelEntry)
    → let (found, added) = change_first (λ e. not (active e)) (λ e. new) entries in
      ((found ≡ true)
        × ((any_matches other added ≡ true)
            ↔ ((any_matches other entries ≡ true) ⊎ (matches other new ≡ true))))
      ⊎ ((found ≡ false) × (keep active entries ≡ entries))
unfolding change_first any_matches matches keep
change_first-free other new [] = inr (refl, refl)
change_first-free other new (e ∷ entries) = ground (arith, change_first-free other new entries)

pub contains-mapped :
    (name : List ℕ) (r : ChannelRegistry)
    → r.header ≡ true
    → contains name r ≡ any_matches name r.table
unfolding contains
contains-mapped name r mapped = ground (arith, mapped)

-- The outcome of a registration: `other` is any name.
abbrev pub Registered : List ℕ → List ℕ → ChannelRegistry → Bool × ChannelRegistry → Type 0
Registered name other r t =
    ((t.0 ≡ true)
      × ((contains other t.1 ≡ true) ↔ ((contains other r ≡ true) ⊎ (key 63 name ≡ key 63 other))))
    ⊎ ((t.0 ≡ false) × (t.1 ≡ r) × (contains name r ≡ false) × (list r ≡ r.table))

module _ (name other : List ℕ) (type : MsgType) (id pid now : ℕ) (r : ChannelRegistry)
    (mapped : r.header ≡ true) where
  abbrev pub known : Bool × List ChannelEntry
  known = change_first (matches name) (beat now) r.table

  abbrev pub free : Bool × List ChannelEntry
  free = change_first (λ e. not (active e)) (λ e. filled name type id pid now) r.table

  pub register_channel-known :
      known.0 ≡ true
      → register_channel name type id pid now r ≡ (true, record r { table = known.1 })
  unfolding register_channel
  register_channel-known h = ground (arith, mapped, h)

  pub register_channel-free :
      known.0 ≡ false
      → free.0 ≡ true
      → register_channel name type id pid now r ≡ (true, record r { table = free.1 })
  unfolding register_channel
  register_channel-free h k = ground (arith, mapped, h, k)

  pub register_channel-full :
      known.0 ≡ false → free.0 ≡ false → register_channel name type id pid now r ≡ (false, r)
  unfolding register_channel
  register_channel-full h k = ground (arith, mapped, h, k)

  Registered-known : known.0 ≡ true → Registered name other r (true, record r { table = known.1 })
  Registered-known h = inl (
    refl,
    ground (
      arith,
      contains-mapped other r mapped,
      contains-mapped other (record r { table = known.1 }) mapped,
      change_first-matches name other now r.table,
      any_matches-key name other r.table,
      h,
    ),
  )

  Registered-free :
      IsNamed name
      → free.0 ≡ true
      → ((any_matches other free.1 ≡ true) ↔ (
          (any_matches other r.table ≡ true)
          ⊎ (matches other (filled name type id pid now) ≡ true)))
      → Registered name other r (true, record r { table = free.1 })
  Registered-free named h e = inl (
    refl,
    ground (
      arith,
      contains-mapped other r mapped,
      contains-mapped other (record r { table = free.1 }) mapped,
      e,
      matches-filled name other type id pid now named,
    ),
  )

  Registered-full :
      known.0 ≡ false → keep active r.table ≡ r.table → Registered name other r (false, r)
  unfolding list
  Registered-full h all = inr (
    refl,
    refl,
    ground (arith, contains-mapped name r mapped, change_first-matches name other now r.table, h),
    ground (arith, mapped, all),
  )

  -- After a `register_channel` on a mapped registry that returned true, the registry contains a
  -- name just when it did before or when the name agrees with the registered one in its first 63
  -- characters. It returns false only if it does not contain the name and every entry is active,
  -- and then nothing changed. The registered name is not empty.
  pub register_channel_lem :
      IsNamed name → Registered name other r (register_channel name type id pid now r)
  register_channel_lem named = elim (Bool-cases known.0) [
    | inl h ↦ subst (Registered name other r) (sym (register_channel-known h)) (Registered-known h)
    | inr h ↦ elim (change_first-free other (filled name type id pid now) r.table) [
      | inl (k, added) ↦
          subst (Registered name other r) (sym (register_channel-free h k))
            (Registered-free named k added)
      | inr (k, all) ↦
          subst (Registered name other r) (sym (register_channel-full h k)) (Registered-full h all)
    ]
  ]

unmatched-empty :
    (n : ℕ) (stored name : List ℕ)
    → c_string name ≡ []
    → (not (get_or stored 0 0 == 0) && strncmp_equal (suc n) stored name) ≡ false
unfolding strncmp_equal c_string
unmatched-empty n [] name empty = refl
unmatched-empty n (zero ∷ stored) name empty = refl
unmatched-empty n (suc c ∷ stored) [] empty = ground arith
unmatched-empty n (suc c ∷ stored) (zero ∷ name) empty = ground arith
unmatched-empty n (suc c ∷ stored) (suc d ∷ name) empty = ground arith

matches-empty : (name : List ℕ) (e : ChannelEntry) → c_string name ≡ [] → matches name e ≡ false
unfolding matches active
matches-empty name e empty = unmatched-empty 62 e.name name empty

any_matches-empty :
    (name : List ℕ) (entries : List ChannelEntry)
    → c_string name ≡ []
    → any_matches name entries ≡ false
unfolding any_matches
any_matches-empty name [] empty = refl
any_matches-empty name (e ∷ entries) empty =
    ground (arith, matches-empty name e empty, any_matches-empty name entries empty)

-- The registration of an empty name, on a mapped registry with a free entry, returns true, but the
-- registry does not contain the name afterwards.
pub register_channel-empty :
    (name : List ℕ) (type : MsgType) (id pid now : ℕ) (r : ChannelRegistry)
    → r.header ≡ true
    → c_string name ≡ []
    → keep active r.table ≢ r.table
    → let (ok, r') = register_channel name type id pid now r in
      (ok ≡ true) × (contains name r' ≡ false)
register_channel-empty name type id pid now r mapped empty room =
    elim (change_first-free name (filled name type id pid now) r.table) [
      | inl (k, added) ↦
          subst (λ t. (t.0 ≡ true) × (contains name t.1 ≡ false))
            (sym (register_channel-free name name type id pid now r mapped unknown_name k))
            (refl, contains-mapped name _ mapped ∙ any_matches-empty name _ empty)
      | inr (k, all) ↦ absurd (room all)
    ]
  where
    unknown_name : (change_first (matches name) (beat now) r.table).0 ≡ false
    unknown_name =
        (change_first-matches name name now r.table).0 ∙ any_matches-empty name r.table empty
