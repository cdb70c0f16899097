-- ===== src/Socket/Clients.antt =====
-- The server's list of clients: its limit, and its threads.
use lw_ipc.Base.{
  ℕ, ◌+◌, ◌≤◌, ◌<◌, ◌≡◌, refl, sym, subst, true, false, List, [], ◌∷◌, ◌++◌, arith, length,
  length-append, if◌then◌else◌, dec_le,
}
use lw_ipc.Socket.Server.{
  Thread, SocketServer, reap_done_threads, accept_client, erase_fd, leave, client_count,
  keep_joinable,
}

-- What happens to a running server: a connection arrives, or a client's handler comes to its end.
pub data Event : Type 0 where
  arrives leaves : ℕ → Event

-- The server after some events, and how many connections it accepted.
unfoldable pub run : SocketServer → ℕ → List Event → ℕ × SocketServer
run s accepted [] = (accepted, s)
run s accepted (arrives cfd ∷ events) =
    let (ok, s') = accept_client cfd s in run s' (if ok then accepted + 1 else accepted) events
run s accepted (leaves cfd ∷ events) = run (leave cfd s) accepted events

abbrev pub AllJoinable : List Thread → Type 0
AllJoinable [] = Unit
AllJoinable (t ∷ ts) = (t.joinable ≡ true) × AllJoinable ts

-- The clients are within the limit, and there is a joinable thread for every accepted connection.
pub record Holds (s : SocketServer) (accepted : ℕ) : Type 0 where
  pub limit : client_count s ≤ s.max_clients
  pub threads : length s.client_threads ≡ accepted
  pub joinable : AllJoinable s.client_threads

keep_joinable-all : (ts : List Thread) → AllJoinable ts → keep_joinable ts ≡ ts
unfolding keep_joinable
keep_joinable-all [] all = refl
keep_joinable-all (t ∷ ts) all = ground (arith, all.0, keep_joinable-all ts all.1)

AllJoinable-append :
    (ts : List Thread) → AllJoinable ts → AllJoinable (ts ++ (record { joinable = true } ∷ []))
AllJoinable-append [] all = (refl, tt)
AllJoinable-append (t ∷ ts) all = (all.0, AllJoinable-append ts all.1)

erase_fd-le : (cfd : ℕ) (fds : List ℕ) → length (erase_fd cfd fds) ≤ length fds
unfolding erase_fd
erase_fd-le cfd [] = omega arith
erase_fd-le cfd (fd ∷ fds) = ground (arith, erase_fd-le cfd fds)

-- The two outcomes for a connection.
accept_client-refused :
    (cfd : ℕ) (s : SocketServer)
    → s.max_clients ≤ length s.client_fds
    → accept_client cfd s ≡ (false, record s { closed = cfd ∷ s.closed })
unfolding accept_client
accept_client-refused cfd s full = ground (arith, full)

accept_client-accepted :
    (cfd : ℕ) (s : SocketServer)
    → length s.client_fds < s.max_clients
    → AllJoinable s.client_threads
    → accept_client cfd s ≡ (
      true,
      record s {
        client_fds = s.client_fds ++ (cfd ∷ []);
        client_threads = s.client_threads ++ (record { joinable = true } ∷ []);
      },
    )
unfolding accept_client reap_done_threads
accept_client-accepted cfd s room all = ground (arith, room, keep_joinable-all s.client_threads all)

leave-Holds : (cfd : ℕ) (s : SocketServer) (n : ℕ) → Holds s n → Holds (leave cfd s) n
unfolding leave
leave-Holds cfd s n h = record {
  limit = omega (arith, h.limit, erase_fd-le cfd s.client_fds);
  threads = h.threads;
  joinable = h.joinable;
}

-- Whatever connections arrive at a running server and whenever clients leave: it never has more
-- clients than its limit. But it keeps a joinable thread for every connection that it ever
-- accepted, also for the clients that have left: `reap_done_threads` removes none of them.
pub run-Holds :
    (events : List Event) (s : SocketServer) (n : ℕ)
    → Holds s n
    → let (accepted, s') = run s n events in Holds s' accepted × (s'.max_clients ≡ s.max_clients)
unfolding run leave
run-Holds [] s n h = (h, refl)
run-Holds (arrives cfd ∷ events) s n h = elim (dec_le s.max_clients (length s.client_fds)) [
  | yes full ↦
      subst
        (λ t.
          let (accepted, s') = run t.1 (if t.0 then n + 1 else n) events in
          Holds s' accepted × (s'.max_clients ≡ s.max_clients))
        (sym (accept_client-refused cfd s full))
        (run-Holds events (record s { closed = cfd ∷ s.closed }) n
          (record { limit = h.limit; threads = h.threads; joinable = h.joinable }))
  | no room ↦
      subst
        (λ t.
          let (accepted, s') = run t.1 (if t.0 then n + 1 else n) events in
          Holds s' accepted × (s'.max_clients ≡ s.max_clients))
        (sym (accept_client-accepted cfd s (omega arith) h.joinable))
        (run-Holds events _ (n + 1) (record {
          limit = omega (arith, length-append s.client_fds (cfd ∷ []));
          threads =
              omega (
                arith,
                h.threads,
                length-append s.client_threads (record { joinable = true } ∷ []),
              );
          joinable = AllJoinable-append s.client_threads h.joinable;
        }))
]
run-Holds (leaves cfd ∷ events) s n h = run-Holds events (leave cfd s) n (leave-Holds cfd s n h)
