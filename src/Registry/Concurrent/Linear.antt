-- ===== src/Registry/Concurrent/Linear.antt =====
-- What the lock guarantees.
use lw_ipc.Base.{
  ℕ, zero, suc, ◌≤◌, ◌≡◌, refl, sym, ap, ◌∙◌, subst, arith, Bool, true, none, List, [], ◌∷◌,
  Option-cases, inl, inr,
}
use lw_ipc.Registry.{
  ChannelEntry, ChannelRegistry, k_max_channels, register_channel, unregister_channel,
}
use lw_ipc.Registry.Table.{IsNamed}
use lw_ipc.Registry.Distinct.{
  count_matches, Distinct, count-blanks, register_channel-Distinct, unregister_channel_lem,
}
use lw_ipc.Registry.Concurrent.{Op, registering, unregistering, name_of, System, Reach, apply}
use lw_ipc.Registry.Concurrent.Entries.{entries}
use lw_ipc.Registry.Concurrent.Calls.{registry_of}
use lw_ipc.Registry.Concurrent.Invariant.{
  Sequential, none_yet, one_more, Agree, Agree-matches, Working, holds, at_work, Inv,
}
use lw_ipc.Registry.Concurrent.Runs.{Reach-Inv, some_inj}

-- No two callers are between taking and releasing the lock at the same time.
pub mutual_exclusion :
    {s : System}
    → Reach s
    → (a b : ℕ) → holds (s.callers a) ≡ true
    → holds (s.callers b) ≡ true
    → a ≡ b
mutual_exclusion r a b h k =
    let inv = Reach-Inv r in some_inj a b (sym (inv.holders a h) ∙ inv.holders b k)

-- While the lock is free, nobody is at work.
quiet : {s : System} (inv : Inv s) → s.mem.lock ≡ 0 → inv.owner ≡ none
quiet inv open_lock = elim (Option-cases inv.owner) [
  | inl e ↦ e
  | inr (a, e) ↦ absurd (omega (arith, (inv.owned a e).1, open_lock))
]

-- `register_channel` and `unregister_channel` take effect one after another: whenever the lock is
-- free, the calls that are over, made in this order on a new registry without interference, return
-- what they returned and leave the table that is there, but for heartbeats, which `touch` writes
-- at any time.
pub linear_lem :
    {s : System}
    → Reach s
    → s.mem.lock ≡ 0
    → (spec : ℕ → ChannelEntry) × Sequential s.mem.calls (registry_of spec) × Agree s.mem.table spec
linear_lem {s} r open_lock =
    let inv = Reach-Inv r in
    (
      inv.spec,
      inv.sequential,
      subst (Working s.mem.table inv.spec) (ap (λ o. at_work o s.callers) (quiet inv open_lock))
          inv.working,
    )

-- The names of all calls have a first character.
abbrev pub AllNamed : List (Op × Bool × ℕ) → Type 0
AllNamed [] = Unit
AllNamed (x ∷ calls) = IsNamed (name_of x.0) × AllNamed calls

apply-mapped :
    (op : Op) (now : ℕ) (r : ChannelRegistry) → r.header ≡ true → (apply op now r).1.header ≡ true
unfolding register_channel unregister_channel
apply-mapped (registering a) now r mapped = ground (arith, mapped)
apply-mapped (unregistering name) now r mapped = ground (arith, mapped)

apply-Distinct :
    (op : Op) (now : ℕ) (r : ChannelRegistry)
    → IsNamed (name_of op)
    → r.header ≡ true
    → Distinct r.table
    → Distinct (apply op now r).1.table
apply-Distinct (registering a) now r named mapped d =
    register_channel-Distinct a.name a.msg_type a.sensor_id a.pid now r mapped d named
apply-Distinct (unregistering name) now r named mapped d =
    (unregister_channel_lem name r mapped d name).1

Sequential-Distinct :
    {calls : List (Op × Bool × ℕ)} {r : ChannelRegistry}
    → Sequential calls r
    → AllNamed calls
    → (r.header ≡ true) × Distinct r.table
Sequential-Distinct none_yet named =
    (refl, record { once = λ name. omega (arith, count-blanks name k_max_channels) })
Sequential-Distinct (one_more {r = r} op result now s e) (n, named) =
    let (mapped, d) = Sequential-Distinct s named in
    (
      ap (λ t. t.1.header) (sym e) ∙ apply-mapped op now r mapped,
      subst (λ t. Distinct t.1.table) e (apply-Distinct op now r n mapped d),
    )

count-Agree :
    (name : List ℕ) (f g : ℕ → ChannelEntry) (a n : ℕ)
    → Agree f g
    → count_matches name (entries f a n) ≡ count_matches name (entries g a n)
unfolding entries count_matches
count-Agree name f g a zero s = refl
count-Agree name f g a (suc n) s =
    ground (arith, Agree-matches f g s name a, count-Agree name f g (suc a) n s)

-- Whenever the lock is free, no name has two entries, if the names of all calls have a first
-- character.
pub distinct_lem :
    {s : System}
    → Reach s
    → s.mem.lock ≡ 0
    → AllNamed s.mem.calls
    → Distinct (entries s.mem.table 0 k_max_channels)
distinct_lem {s} r open_lock named =
    let (g, seq, agree) = linear_lem r open_lock in
    let d = (Sequential-Distinct seq named).1 in
    record {
      once = λ name.
          subst (λ n. n ≤ 1) (sym (count-Agree name s.mem.table g 0 k_max_channels agree))
            (d.once name);
    }
