-- ===== src/Socket/Broadcast.antt =====
-- `broadcast`: one message to every client.
use lw_ipc.Base.{
  ℕ, zero, suc, ◌+◌, ◌^◌, ◌<◌, ◌≡◌, ◌≢◌, inl, inr, refl, sym, ap, ◌∙◌, Bool, List, [], ◌∷◌, ◌++◌,
  arith, length, if◌then◌else◌, drop,
}
use lw_ipc.Base.Words.{u32}
use lw_ipc.Base.Bytes.{to_le}
use lw_ipc.Message.{IpcMessage, to_buffer}
use lw_ipc.Socket.{System, send_loop, send_all, send_ipc_message}
use lw_ipc.Socket.Calls.{Sends, Sent}
use lw_ipc.Socket.Frame.{frame, send_ipc_message-Sent}
use lw_ipc.Socket.Server.{SocketServer, broadcast_loop, broadcast}

-- The streams of several descriptors: `sent fd` is what that of `fd` took over, and a call for one
-- descriptor changes no other's.
pub record Streams {W : Type 0} (os : System W) (sent : ℕ → W → List ℕ) : Type 0 where
  pub each : (fd : ℕ) → Sends os fd (sent fd)
  pub apart :
      (fd other : ℕ) (buf : List ℕ) (w : W)
      → fd ≢ other
      → sent other (os.send fd buf w).1 ≡ sent other w

abbrev pub IsNoneOf : ℕ → List ℕ → Type 0
IsNoneOf fd [] = Unit
IsNoneOf fd (x ∷ xs) = (x ≢ fd) × IsNoneOf fd xs

abbrev pub AllDistinct : List ℕ → Type 0
AllDistinct [] = Unit
AllDistinct (x ∷ xs) = IsNoneOf x xs × AllDistinct xs

abbrev pub count_true : List Bool → ℕ
count_true [] = 0
count_true (ok ∷ oks) = (if ok then 1 else 0) + count_true oks

module _ {W : Type 0} (os : System W) {sent : ℕ → W → List ℕ} (net : Streams os sent) where
  send_loop-apart :
      (fuel : ℕ) (fd other : ℕ) (buf : List ℕ) (w : W)
      → fd ≢ other
      → sent other (send_loop os fd fuel buf w).1 ≡ sent other w
  unfolding send_loop
  send_loop-apart zero fd other buf w ne = refl
  send_loop-apart (suc fuel) fd other buf w ne = ground (
    arith,
    net.apart fd other buf w ne,
    send_loop-apart fuel fd other (drop (os.send fd buf w).0 buf) (os.send fd buf w).1 ne,
  )

  send_all-apart :
      (fd other : ℕ) (buf : List ℕ) (w : W)
      → fd ≢ other
      → sent other (send_all os fd buf w).1 ≡ sent other w
  unfolding send_all
  send_all-apart fd other buf w ne = send_loop-apart (length buf + 1) fd other buf w ne

  send_ipc_message-apart :
      (fd other : ℕ) (m : IpcMessage) (w : W)
      → fd ≢ other
      → sent other (send_ipc_message os fd m w).1 ≡ sent other w
  unfolding send_ipc_message
  send_ipc_message-apart fd other m w ne = ground (
    arith,
    send_all-apart fd other (to_le 4 (u32 (length (to_buffer m)))) w ne,
    send_all-apart fd other (to_buffer m)
        (send_all os fd (to_le 4 (u32 (length (to_buffer m)))) w).1 ne,
  )

  -- What each client's stream got between two states, `oks` saying to which of them the whole frame
  -- went.
  abbrev pub Outcomes : IpcMessage → W → W → List ℕ → List Bool → Type 0
  Outcomes m w w' [] [] = Unit
  Outcomes m w w' (fd ∷ fds) (ok ∷ oks) =
      Sent os fd (net.each fd) (frame m) w (ok, w') × Outcomes m w w' fds oks
  Outcomes m w w' _ _ = ⊥

  -- Only the streams' contents count for an outcome.
  Sent-same :
      (fd : ℕ) (buf : List ℕ) (w₁ w₂ w₃ w₄ : W) (ok : Bool)
      → sent fd w₁ ≡ sent fd w₂
      → sent fd w₃ ≡ sent fd w₄
      → Sent os fd (net.each fd) buf w₁ (ok, w₃)
      → Sent os fd (net.each fd) buf w₂ (ok, w₄)
  Sent-same fd buf w₁ w₂ w₃ w₄ ok e f (inl (o, all)) = inl (o, sym f ∙ all ∙ ap (λ t. t ++ buf) e)
  Sent-same fd buf w₁ w₂ w₃ w₄ ok e f (inr (o, front, back, parts, more, some_sent)) =
      inr (o, front, back, parts, more, sym f ∙ some_sent ∙ ap (λ t. t ++ front) e)

  Outcomes-same :
      (m : IpcMessage) (fd : ℕ) (w w₁ w' : W) (fds : List ℕ) (oks : List Bool)
      → ((other : ℕ) → fd ≢ other → sent other w₁ ≡ sent other w)
      → IsNoneOf fd fds
      → Outcomes m w₁ w' fds oks
      → Outcomes m w w' fds oks
  Outcomes-same m fd w w₁ w' [] [] same apart h = tt
  Outcomes-same m fd w w₁ w' (x ∷ fds) [] same apart h = elim h [ ]
  Outcomes-same m fd w w₁ w' [] (ok ∷ oks) same apart h = elim h [ ]
  Outcomes-same m fd w w₁ w' (x ∷ fds) (ok ∷ oks) same apart h = (
    Sent-same x (frame m) w₁ w w' w' ok (same x (λ e. apart.0 (sym e))) refl h.0,
    Outcomes-same m fd w w₁ w' fds oks same apart.1 h.1,
  )

  -- `r` is what a loop over some clients returned that started with the count `n`.
  pub record Broadcasts (m : IpcMessage) (fds : List ℕ) (n : ℕ) (w : W) (r : ℕ × W) : Type 0 where
    pub oks : List Bool
    pub outcomes : Outcomes m w r.1 fds oks
    pub counted : r.0 ≡ n + count_true oks
    pub others : (fd : ℕ) → IsNoneOf fd fds → sent fd r.1 ≡ sent fd w

  module _ (m : IpcMessage) (small : length (to_buffer m) < 2 ^ 32) where
    broadcast_loop-Broadcasts :
        (fds : List ℕ) (n : ℕ) (w : W)
        → AllDistinct fds
        → Broadcasts m fds n w (broadcast_loop os m fds n w)
    unfolding broadcast_loop
    broadcast_loop-Broadcasts [] n w distinct = record {
      oks = [];
      outcomes = tt;
      counted = omega arith;
      others = λ fd h. refl;
    }
    broadcast_loop-Broadcasts (fd ∷ fds) n w distinct =
        let ok = (send_ipc_message os fd m w).0 in
        let w₁ = (send_ipc_message os fd m w).1 in
        let rest = broadcast_loop-Broadcasts fds (if ok then n + 1 else n) w₁ distinct.1 in
        record {
          oks = ok ∷ rest.oks;
          outcomes = (
            Sent-same fd (frame m) w w w₁ _ ok refl (sym (rest.others fd distinct.0))
                (send_ipc_message-Sent os fd (net.each fd) m w small),
            Outcomes-same m fd w w₁ _ fds rest.oks
                (λ other ne. send_ipc_message-apart fd other m w ne) distinct.0 rest.outcomes,
          );
          counted = ground (arith, rest.counted);
          others = λ other h. rest.others other h.1 ∙ send_ipc_message-apart fd other m w h.0;
        }

    -- `broadcast` returns the number of clients into whose streams the whole frame of the message
    -- went. Every other client's stream got less of it, and no other descriptor's stream changed.
    -- The clients have different descriptors, and the message has less than 2^32 bytes.
    pub broadcast-Broadcasts :
        (s : SocketServer) (w : W)
        → AllDistinct s.client_fds
        → Broadcasts m s.client_fds 0 w (broadcast os m s w)
    unfolding broadcast
    broadcast-Broadcasts s w distinct = broadcast_loop-Broadcasts s.client_fds 0 w distinct
