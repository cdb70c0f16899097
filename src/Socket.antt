-- ===== src/Socket.antt =====
-- The framing of include/lwipc/socket_transport.hpp: the functions of `detail`, over the calls
-- `recv` and `send` of the system, which are parameters.
pub mod Calls
pub mod Frame
pub mod Server
pub mod Session
pub mod Delivery
pub mod Clients
pub mod Broadcast
mod Tests
use lw_ipc.Base.{
  ℕ, zero, suc, ◌+◌, ◌-◌, ◌*◌, Bool, true, false, ◌||◌, Option, none, some, List, [], ◌++◌, ltb,
  ◌==◌, if◌then◌else◌, length, drop,
}
use lw_ipc.Base.Words.{u32}
use lw_ipc.Base.Bytes.{to_le, from_le}
use lw_ipc.Message.{IpcMessage, no_message, header_size, from_buffer, to_buffer}

-- A call of `recv` for at most `n` bytes gives the bytes that it stored, none if it returned zero
-- or an error; a call of `send` gives the number of bytes that it took, zero for an error. `W` is
-- the state of the system.
pub record System (W : Type 0) : Type 0 where
  pub recv : ℕ → ℕ → W → List ℕ × W
  pub send : ℕ → List ℕ → W → ℕ × W

-- `kMaxMessageSize`
abbrev pub k_max_message_size : ℕ
k_max_message_size = 64 * 1024 * 1024

module _ {W : Type 0} (os : System W) (fd : ℕ) where
  -- The loop of `recv_all`; `got` is what stands in the buffer, `done` its length. Each round but
  -- the last stores a byte or more, so that `n + 1` rounds are enough.
  unfoldable pub recv_loop : ℕ → ℕ → List ℕ → W → Option (List ℕ) × W
  recv_loop zero n got w = (none, w)
  recv_loop (suc fuel) n got w =
      let (chunk, w') = os.recv fd (n - length got) w in
      let rest = recv_loop fuel n (got ++ chunk) w' in
      if ltb (length got) n then (if length chunk == 0 then (none, w') else rest) else (some got, w)

  unfoldable pub recv_all : ℕ → W → Option (List ℕ) × W
  recv_all n w = recv_loop (n + 1) n [] w

  -- The loop of `send_all`; `buf` is what is left to send.
  unfoldable pub send_loop : ℕ → List ℕ → W → Bool × W
  send_loop zero buf w = (false, w)
  send_loop (suc fuel) buf w =
      let (taken, w') = os.send fd buf w in
      let rest = send_loop fuel (drop taken buf) w' in
      if ltb 0 (length buf) then (if taken == 0 then (false, w') else rest) else (true, w)

  unfoldable pub send_all : List ℕ → W → Bool × W
  send_all buf w = send_loop (length buf + 1) buf w

  unfoldable pub send_ipc_message : IpcMessage → W → Bool × W
  send_ipc_message msg w =
      let buf = to_buffer msg in
      let (prefixed, w₁) = send_all (to_le 4 (u32 (length buf))) w in
      let (sent, w₂) = send_all buf w₁ in
      if prefixed then (if sent then (true, w₂) else (false, w₂)) else (false, w₁)

  -- The part of `recv_ipc_message` behind the length.
  unfoldable pub recv_body : ℕ → W → IpcMessage × W
  recv_body total w =
      let (body, w') = recv_all total w in
      if ltb total header_size || ltb k_max_message_size total
      then (no_message, w)
      else elim body [ none ↦ (no_message, w') | some buf ↦ (from_buffer buf, w') ]

  unfoldable pub recv_ipc_message : W → IpcMessage × W
  recv_ipc_message w =
      let (prefix, w') = recv_all 4 w in
      elim prefix [ none ↦ (no_message, w') | some bytes ↦ recv_body (from_le bytes) w' ]
