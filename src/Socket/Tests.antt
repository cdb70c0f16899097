-- ===== src/Socket/Tests.antt =====
-- A system that moves a few bytes in each call, and the theorems at it.
use lw_ipc.Base.{
  ℕ, ◌+◌, ◌<◌, ◌≡◌, ◌⊎◌, refl, ap, true, false, List, [], ◌∷◌, ◌++◌, arith, append-nil, length,
  take, drop, take-append-drop, length-take, min, ◌==◌, if◌then◌else◌,
}
use lw_ipc.Base.Bytes.{to_le}
use lw_ipc.Message.{imu, tensor, IpcMessage, make}
use lw_ipc.Message.Checksum.{make-IsMessage, bytes-make}
use lw_ipc.Message.RoundTrip.{length-to_buffer}
use lw_ipc.Ring.{update}
use lw_ipc.Socket.{System, k_max_message_size, recv_ipc_message}
use lw_ipc.Socket.Calls.{Receives, Sends}
use lw_ipc.Socket.Frame.{Received, recv_ipc_message_lem}
use lw_ipc.Socket.Server.{
  SocketServer, new_server, start, accept_client, erase_fd, leave, handle_loop, broadcast,
  reap_done_threads,
}
use lw_ipc.Socket.Session.{Fits}
use lw_ipc.Socket.Delivery.{send_each, send_each-handle_loop}
use lw_ipc.Socket.Clients.{Event, arrives, leaves, run, Holds, run-Holds}
use lw_ipc.Socket.Broadcast.{Streams, Broadcasts, broadcast-Broadcasts}

-- The bytes that are on their way in and out, by descriptor.
record Pipes : Type 0 where
  inbox : ℕ → List ℕ
  outbox : ℕ → List ℕ

-- At most seven bytes in a call; the connection of descriptor 9 is broken.
abbrev pipes : System Pipes
pipes = record {
  recv = λ fd n w. (
    take (min n 7) (w.inbox fd),
    record w { inbox = update w.inbox fd (drop (min n 7) (w.inbox fd)) },
  );
  send = λ fd buf w.
      if fd == 9
      then (0, w)
      else (7, record w { outbox = update w.outbox fd (w.outbox fd ++ take 7 buf) });
}

pipes-Receives : (fd : ℕ) → Receives pipes fd (λ w. w.inbox fd)
pipes-Receives fd = record {
  in_order = λ n w. ground (arith, take-append-drop (min n 7) (w.inbox fd));
  bounded = λ n w. omega (arith, length-take (min n 7) (w.inbox fd));
  blocks = λ n w pos more. omega (arith, length-take (min n 7) (w.inbox fd));
}

pipes-Sends : (fd : ℕ) → Sends pipes fd (λ w. w.outbox fd)
pipes-Sends fd = record { in_order = λ buf w. ground (arith, append-nil (w.outbox fd)) }

pipes-Streams : Streams pipes (λ fd w. w.outbox fd)
pipes-Streams = record { each = pipes-Sends; apart = λ fd other buf w ne. ground arith }

abbrev no_gap : List ℕ
no_gap = 0 ∷ 0 ∷ 0 ∷ 0 ∷ []

abbrev hello : IpcMessage
hello = make no_gap imu 7 1000 1 (1 ∷ 2 ∷ 3 ∷ [])

abbrev bye : IpcMessage
bye = make no_gap tensor 8 2000 2 (4 ∷ [])

two-Fits : Fits (hello ∷ bye ∷ [])
two-Fits = (
  (
    make-IsMessage no_gap imu 7 1000 1 (1 ∷ 2 ∷ 3 ∷ []) refl (omega arith) (omega arith)
        (omega arith) (omega arith),
    omega (
      arith,
      ap length (
          bytes-make no_gap imu 7 1000 1 (1 ∷ 2 ∷ 3 ∷ []) refl (omega arith) (omega arith)
            (omega arith) (omega arith)),
    ),
  ),
  (
    (
      make-IsMessage no_gap tensor 8 2000 2 (4 ∷ []) refl (omega arith) (omega arith) (omega arith)
          (omega arith),
      omega (
        arith,
        ap length (
            bytes-make no_gap tensor 8 2000 2 (4 ∷ []) refl (omega arith) (omega arith)
              (omega arith) (omega arith)),
      ),
    ),
    tt,
  ),
)

abbrev quiet : Pipes
quiet = record { inbox = λ fd. []; outbox = λ fd. [] }

-- What the client sent on descriptor 3 arrives at the server's descriptor 5.
abbrev arrived : Pipes
arrived = record {
  inbox = λ fd. (send_each pipes 3 (hello ∷ bye ∷ []) quiet).1.outbox 3;
  outbox = λ fd. [];
}

send_each-handle_loop_example :
    (((send_each pipes 3 (hello ∷ bye ∷ []) quiet).0 ≡ true)
      × ((handle_loop pipes 4 (λ w. true) 5 arrived).0 ≡ hello ∷ bye ∷ []))
    ⊎ (((send_each pipes 3 (hello ∷ bye ∷ []) quiet).0 ≡ false)
        × (got lost : List IpcMessage) × (hello ∷ bye ∷ [] ≡ got ++ lost)
        × (0 < length lost)
        × ((handle_loop pipes 4 (λ w. true) 5 arrived).0 ≡ got))
send_each-handle_loop_example =
    send_each-handle_loop pipes pipes 3 5 (λ w. true) 4 (hello ∷ bye ∷ []) quiet arrived
      (pipes-Sends 3) (pipes-Receives 5) (λ s. refl) two-Fits (omega arith) refl refl

-- A length just above the limit, with one byte behind it.
abbrev too_long : Pipes
too_long = record { inbox = λ fd. to_le 4 (k_max_message_size + 1) ++ (7 ∷ []); outbox = λ fd. [] }

recv_ipc_message_lem_example :
    Received pipes 5
      (pipes-Receives 5)
      (k_max_message_size + 1)
      (7 ∷ [])
      (recv_ipc_message pipes 5 too_long)
recv_ipc_message_lem_example =
    recv_ipc_message_lem pipes 5 (pipes-Receives 5) (k_max_message_size + 1) (7 ∷ []) too_long
      (omega arith) refl

abbrev small_server : SocketServer
small_server = start (new_server 7788 2)

small_server-Holds : Holds small_server 0
unfolding start
small_server-Holds = record { limit = omega arith; threads = refl; joinable = tt }

-- The third connection is refused, and the one after a client left is accepted.
abbrev script : List Event
script = arrives 4 ∷ arrives 5 ∷ arrives 6 ∷ leaves 4 ∷ arrives 7 ∷ []

script_runs :
    let (accepted, s) = run small_server 0 script in
    (accepted ≡ 3) × (s.client_fds ≡ 5 ∷ 7 ∷ []) × (s.closed ≡ 4 ∷ 6 ∷ [])
unfolding run start accept_client leave erase_fd reap_done_threads
script_runs = (refl, refl, refl)

run-Holds_example :
    Holds (run small_server 0 script).1 (run small_server 0 script).0
    × ((run small_server 0 script).1.max_clients ≡ small_server.max_clients)
run-Holds_example = run-Holds script small_server 0 small_server-Holds

-- Three clients, of which the second's connection is broken.
abbrev three : SocketServer
three = record small_server { client_fds = 4 ∷ 9 ∷ 6 ∷ [] }

broadcast-Broadcasts_example :
    Broadcasts pipes pipes-Streams hello
      (4 ∷ 9 ∷ 6 ∷ [])
      0
      quiet
      (broadcast pipes hello three quiet)
broadcast-Broadcasts_example =
    broadcast-Broadcasts pipes pipes-Streams hello
      (omega (arith, length-to_buffer two-Fits.0.0, two-Fits.0.1)) three quiet (omega arith)
