-- ===== src/Ring/Tests.antt =====
-- Runs of the rings, and their theorems at concrete rings.
use lw_ipc.Base.{ℕ, ◌≡◌, refl, none, some, List, [], ◌∷◌, arith}
use lw_ipc.Ring.{IsCapacity}
use lw_ipc.Ring.Shm.{ShmRing, open_create, push, pop, pop_slot, make_cursor}
use lw_ipc.Ring.Intra
use lw_ipc.Ring.Intra.{IntraRing, new_ring, forget}
use lw_ipc.Ring.Log.{Holds, new_ring-Holds, push-Holds}
use lw_ipc.Ring.Trace.{Call, pushes, attaches, pops, run, run_log, run-run_log}

two-IsCapacity : IsCapacity 2
two-IsCapacity = record { log2 = 1; pos = omega arith; power = refl }

abbrev fresh : ShmRing ℕ
fresh = open_create 0

fresh-Holds : Holds 2 (forget fresh) []
unfolding open_create new_ring
fresh-Holds = new_ring-Holds 2 0

-- Consumer 0 attaches at the start and falls behind; consumer 1 attaches late.
abbrev script : List (Call ℕ)
script =
    pushes 10 1
    ∷ pops 0
    ∷ pops 0
    ∷ pushes 11 2
    ∷ pushes 12 3
    ∷ attaches 1
    ∷ pushes 13 4
    ∷ pops 0
    ∷ pops 1
    ∷ pops 0
    ∷ pops 1
    ∷ []

script_runs : run 2 fresh (λ i. 0) script ≡ some 10 ∷ none ∷ some 12 ∷ some 13 ∷ some 13 ∷ none ∷ []
unfolding run open_create push pop pop_slot make_cursor
script_runs = refl

run-run_log_example : run 2 fresh (λ i. 0) script ≡ run_log 2 [] (λ i. 0) script
run-run_log_example = run-run_log two-IsCapacity script fresh [] (λ i. 0) fresh-Holds (omega arith)

-- A ring of two slots after three pushes.
abbrev once : IntraRing ℕ
once = (Intra.push 2 (new_ring 0) 5).1

abbrev twice : IntraRing ℕ
twice = (Intra.push 2 once 6).1

once-Holds : Holds 2 once (5 ∷ [])
once-Holds = (push-Holds two-IsCapacity (new_ring-Holds 2 0) 5 (omega arith)).1

twice-Holds : Holds 2 twice (5 ∷ 6 ∷ [])
twice-Holds = (push-Holds two-IsCapacity once-Holds 6 (omega arith)).1

-- The same in shared memory, for the theorem on a consumer that fell behind.
abbrev thrice : ShmRing ℕ
thrice = (push 2 (push 2 (push 2 fresh 5 1).1 6 2).1 7 3).1

thrice-Holds : Holds 2 (forget thrice) (5 ∷ 6 ∷ 7 ∷ [])
unfolding push Intra.push open_create new_ring
thrice-Holds = (push-Holds two-IsCapacity twice-Holds 7 (omega arith)).1
