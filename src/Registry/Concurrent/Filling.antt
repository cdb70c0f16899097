-- ===== src/Registry/Concurrent/Filling.antt =====
-- What the assignments to an entry, and heartbeats, do to what holds between the steps.
use lw_ipc.Base.{
  ℕ, zero, suc, ◌≡◌, ◌≢◌, refl, ap, ◌∙◌, subst, arith, ℕ_discrete, ◌==◌, if◌then◌else◌,
}
use lw_ipc.Ring.{update}
use lw_ipc.Registry.{ChannelEntry}
use lw_ipc.Registry.Concurrent.{
  Args, stored, Caller, idle, spinning, scanning, beating, seeking, filling, clearing, leaving,
  touching, touched, reading, answered,
}
use lw_ipc.Registry.Concurrent.Calls.{new_entry}
use lw_ipc.Registry.Concurrent.Invariant.{still, Agree, Filled, Working}

Filled-still :
    (a : Args) (k now : ℕ) (e e' : ChannelEntry)
    → still e' ≡ still e
    → Filled a k now e
    → Filled a k now e'
Filled-still a k now e e' s h = record {
  named = λ l. ap (λ t. t.name) s ∙ h.named l;
  typed = λ l. ap (λ t. t.msg_type) s ∙ h.typed l;
  from = λ l. ap (λ t. t.sensor_id) s ∙ h.from l;
  owned = λ l. ap (λ t. t.producer_pid) s ∙ h.owned l;
  created = λ l. ap (λ t. t.created_ns) s ∙ h.created l;
}

-- A heartbeat of any entry is no obstacle to the caller at work.
pub beat-Working :
    (f f' g : ℕ → ChannelEntry) → Agree f' f → (c : Caller) → Working f g c → Working f' g c
beat-Working f f' g s idle h = λ j. s j ∙ h j
beat-Working f f' g s (spinning op) h = λ j. s j ∙ h j
beat-Working f f' g s (scanning op i) h = (λ j. s j ∙ h.0 j, h.1)
beat-Working f f' g s (beating a i) h = (λ j. s j ∙ h.0 j, h.1, h.2, h.3)
beat-Working f f' g s (seeking a i) h = (λ j. s j ∙ h.0 j, h.1, h.2)
beat-Working f f' g s (filling a i k now) h =
    (λ j ne. s j ∙ h.0 j ne, h.1, h.2, h.3, h.4, Filled-still a k now (f i) (f' i) (s i) h.5)
beat-Working f f' g s (clearing name i) h = (λ j. s j ∙ h.0 j, h.1, h.2, h.3)
beat-Working f f' g s (leaving op result now) h = (h.0, λ j. s j ∙ h.1 j, h.2)
beat-Working f f' g s (touching name i) h = λ j. s j ∙ h j
beat-Working f f' g s (touched i) h = λ j. s j ∙ h j
beat-Working f f' g s (reading name i) h = λ j. s j ∙ h j
beat-Working f f' g s (answered result) h = λ j. s j ∙ h j

-- One more assignment.
pub Filled-suc :
    (a : Args) (k now t : ℕ) (e : ChannelEntry)
    → Filled a k now e
    → Filled a (suc k) (if k == 4 then t else now) (stored a t k e)
Filled-suc a zero now t e h = record {
  named = λ l. refl;
  typed = λ l. absurd (omega arith);
  from = λ l. absurd (omega arith);
  owned = λ l. absurd (omega arith);
  created = λ l. absurd (omega arith);
}
Filled-suc a (suc zero) now t e h = record {
  named = λ l. h.named (omega arith);
  typed = λ l. refl;
  from = λ l. absurd (omega arith);
  owned = λ l. absurd (omega arith);
  created = λ l. absurd (omega arith);
}
Filled-suc a (suc (suc zero)) now t e h = record {
  named = λ l. h.named (omega arith);
  typed = λ l. h.typed (omega arith);
  from = λ l. refl;
  owned = λ l. absurd (omega arith);
  created = λ l. absurd (omega arith);
}
Filled-suc a (suc (suc (suc zero))) now t e h = record {
  named = λ l. h.named (omega arith);
  typed = λ l. h.typed (omega arith);
  from = λ l. h.from (omega arith);
  owned = λ l. refl;
  created = λ l. absurd (omega arith);
}
Filled-suc a (suc (suc (suc (suc zero)))) now t e h = record {
  named = λ l. h.named (omega arith);
  typed = λ l. h.typed (omega arith);
  from = λ l. h.from (omega arith);
  owned = λ l. h.owned (omega arith);
  created = λ l. refl;
}
Filled-suc a (suc (suc (suc (suc (suc k))))) now t e h = record {
  named = λ l. h.named (omega arith);
  typed = λ l. h.typed (omega arith);
  from = λ l. h.from (omega arith);
  owned = λ l. h.owned (omega arith);
  created = λ l. h.created (omega arith) ∙ ground arith;
}

-- A filled entry is the one that the call makes.
pub Filled-new :
    (a : Args) (now : ℕ) (e : ChannelEntry) → Filled a 6 now e → still e ≡ still (new_entry a now)
Filled-new a now e h = λ i. record {
  name = h.named (omega arith) i;
  msg_type = h.typed (omega arith) i;
  sensor_id = h.from (omega arith) i;
  producer_pid = h.owned (omega arith) i;
  created_ns = h.created (omega arith) i;
  heartbeat_ns = 0;
}

-- The filled entry is the only one that differs.
pub Agree-filled :
    (f g : ℕ → ChannelEntry) (i : ℕ) (x : ChannelEntry)
    → ((j : ℕ) → i ≢ j → still (f j) ≡ still (g j))
    → still (f i) ≡ still x
    → Agree f (update g i x)
Agree-filled f g i x others at j = elim (ℕ_discrete i j) [
  | yes e ↦ subst (λ t. still (f t) ≡ still (update g i x t)) e (ground (arith, at))
  | no ne ↦ ground (arith, ne, others j ne)
]
