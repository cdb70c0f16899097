-- ===== src/Socket/Server.antt =====
-- `SocketServer` of include/lwipc/socket_transport.hpp. The descriptors that the system hands out,
-- and whether its calls succeed, are arguments. The callback is not stored: its calls are results.
use lw_ipc.Base.{
  ℕ, zero, suc, ◌+◌, Bool, true, false, Option, none, some, List, [], ◌∷◌, ◌++◌, leb, ◌==◌,
  if◌then◌else◌, length,
}
use lw_ipc.Message.{IpcMessage}
use lw_ipc.Socket.{System, send_ipc_message, recv_ipc_message}

-- A member of `client_threads_`: `std::thread` stays joinable until it is joined, also when its
-- function has returned.
pub record Thread : Type 0 where
  pub joinable : Bool

-- `listen_fd_` is `none` for -1; `accept_thread` says whether that thread is joinable. `closed` is
-- no member: it lists the descriptors that the server closed, the last one first.
pub record SocketServer : Type 0 where
  pub port : ℕ
  pub max_clients : ℕ
  pub listen_fd : Option ℕ
  pub running : Bool
  pub accept_thread : Bool
  pub client_fds : List ℕ
  pub client_threads : List Thread
  pub closed : List ℕ

abbrev pub k_default_max_clients : ℕ
k_default_max_clients = 8

abbrev pub new_server : ℕ → ℕ → SocketServer
new_server port max_clients = record {
  port = port;
  max_clients = max_clients;
  listen_fd = none;
  running = false;
  accept_thread = false;
  client_fds = [];
  client_threads = [];
  closed = [];
}

unfoldable pub start : SocketServer → SocketServer
start s = if s.running then s else record s { running = true; accept_thread = true }

-- The start of `accept_loop`: what `socket` returned, and whether `bind` and `listen` succeeded.
unfoldable pub open_listener : Option ℕ → Bool → Bool → SocketServer → SocketServer
open_listener none bound listening s = record s { listen_fd = none }
open_listener (some fd) bound listening s =
    if bound
    then (if listening
        then record s { listen_fd = some fd }
        else record s { listen_fd = none; closed = fd ∷ s.closed })
    else record s { listen_fd = none; closed = fd ∷ s.closed }

-- `reap_done_threads`
unfoldable pub keep_joinable : List Thread → List Thread
keep_joinable [] = []
keep_joinable (t ∷ threads) =
    let rest = keep_joinable threads in if t.joinable then t ∷ rest else rest

unfoldable pub reap_done_threads : SocketServer → SocketServer
unfolding keep_joinable
reap_done_threads s = record s { client_threads = keep_joinable s.client_threads }

-- What `accept_loop` does with a connection; also whether it was accepted.
unfoldable pub accept_client : ℕ → SocketServer → Bool × SocketServer
accept_client cfd s =
    if leb s.max_clients (length s.client_fds)
    then (false, record s { closed = cfd ∷ s.closed })
    else (
      true,
      let reaped = reap_done_threads (record s { client_fds = s.client_fds ++ (cfd ∷ []) }) in
          record reaped {
            client_threads = reaped.client_threads ++ (record { joinable = true } ∷ []);
          },
    )

-- `erase(find(...))`
unfoldable pub erase_fd : ℕ → List ℕ → List ℕ
erase_fd cfd [] = []
erase_fd cfd (fd ∷ fds) = let rest = erase_fd cfd fds in if fd == cfd then fds else fd ∷ rest

-- The end of `handle_client`.
unfoldable pub leave : ℕ → SocketServer → SocketServer
leave cfd s = record s { client_fds = erase_fd cfd s.client_fds; closed = cfd ∷ s.closed }

abbrev pub client_count : SocketServer → ℕ
client_count s = length s.client_fds

-- `stop`: it joins the accept thread and then the clients' threads, so that these have come to
-- their ends by then, where each takes its descriptor off the list and closes it; the state is that
-- after the last join. In which order the handlers close is the system's matter; here the list
-- keeps its order.
unfoldable pub stop : SocketServer → SocketServer
stop s = elim s.listen_fd [
  | none ↦ record s {
    running = false;
    accept_thread = false;
    client_threads = [];
    client_fds = [];
    closed = s.client_fds ++ s.closed;
  }
  | some fd ↦ record s {
    running = false;
    accept_thread = false;
    client_threads = [];
    client_fds = [];
    listen_fd = none;
    closed = s.client_fds ++ (fd ∷ s.closed);
  }
]

module _ {W : Type 0} (os : System W) where
  -- The loop of `broadcast`.
  unfoldable pub broadcast_loop : IpcMessage → List ℕ → ℕ → W → ℕ × W
  broadcast_loop msg [] sent w = (sent, w)
  broadcast_loop msg (fd ∷ fds) sent w =
      let (ok, w') = send_ipc_message os fd msg w in
      broadcast_loop msg fds (if ok then sent + 1 else sent) w'

  unfoldable pub broadcast : IpcMessage → SocketServer → W → ℕ × W
  unfolding broadcast_loop
  broadcast msg s w = broadcast_loop msg s.client_fds 0 w

  -- The loop of `handle_client`, in `fuel` rounds at most: the messages that the callback gets.
  -- `running` is what the flag says at a state of the system.
  unfoldable pub handle_loop : ℕ → (W → Bool) → ℕ → W → List IpcMessage × W
  handle_loop zero running cfd w = ([], w)
  handle_loop (suc fuel) running cfd w =
      let (msg, w') = recv_ipc_message os cfd w in
      let (rest, last) = handle_loop fuel running cfd w' in
      if running w then (if msg.valid then (msg ∷ rest, last) else ([], w')) else ([], w)

-- `SocketClient`: `fd` is `none` for -1.
pub record SocketClient : Type 0 where
  pub host : List ℕ
  pub port : ℕ
  pub fd : Option ℕ

-- How `connect` ends: it returns, or it throws.
pub data Outcome : Type 0 where
  returned : Outcome
  socket_failed getaddrinfo_failed connect_failed : Outcome

-- `connect`: what `socket` returns, and whether the address is found and the connection made; also
-- the descriptors that it closed.
unfoldable pub connect : Option ℕ → Bool → Bool → SocketClient → Outcome × SocketClient × List ℕ
connect made resolved connected c = elim c.fd [
  | some fd ↦ (returned, c, [])
  | none ↦ elim made [
    | none ↦ (socket_failed, c, [])
    | some fd ↦
        if resolved
        then (if connected
            then (returned, record c { fd = some fd }, [])
            else (connect_failed, record c { fd = none }, fd ∷ []))
        else (getaddrinfo_failed, record c { fd = none }, fd ∷ [])
  ]
]

unfoldable pub disconnect : SocketClient → SocketClient × List ℕ
disconnect c = elim c.fd [ none ↦ (c, []) | some fd ↦ (record c { fd = none }, fd ∷ []) ]

abbrev pub connected : SocketClient → Bool
connected c = elim c.fd [ none ↦ false | some fd ↦ true ]

-- `SocketClient::send`
unfoldable pub send : {W : Type 0} → System W → SocketClient → IpcMessage → W → Bool × W
send os c msg w = elim c.fd [ none ↦ (false, w) | some fd ↦ send_ipc_message os fd msg w ]
