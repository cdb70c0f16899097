-- ===== src/Socket/Delivery.antt =====
-- A client's messages on their way to the server's callback.
use lw_ipc.Base.{
  ℕ, ◌≤◌, ◌<◌, ◌≡◌, ◌⊎◌, inl, inr, refl, sym, ap, ◌∙◌, subst, Bool, true, false, List, [], ◌∷◌,
  ◌++◌, arith, length, length-append, append_assoc, append-nil, if◌then◌else◌,
}
use lw_ipc.Message.{IpcMessage}
use lw_ipc.Message.RoundTrip.{length-to_buffer}
use lw_ipc.Socket.{System, send_ipc_message}
use lw_ipc.Socket.Calls.{Receives, Sends, Sent, Sent-append}
use lw_ipc.Socket.Frame.{frame, send_ipc_message-Sent}
use lw_ipc.Socket.Server.{handle_loop}
use lw_ipc.Socket.Session.{Fits, frames, Cut, handle_loop-frames, handle_loop-Cut}

module _ {W : Type 0} (os : System W) where
  -- A client that sends messages in turn, until one fails.
  unfoldable pub send_each : ℕ → List IpcMessage → W → Bool × W
  send_each fd [] w = (true, w)
  send_each fd (m ∷ ms) w =
      let (ok, w') = send_ipc_message os fd m w in
      let rest = send_each fd ms w' in if ok then rest else (false, w')

module _ {W : Type 0} (os : System W) (fd : ℕ) {sent : W → List ℕ} (net : Sends os fd sent) where
  send_each-next :
      (m : IpcMessage) (ms : List IpcMessage) (w : W)
      → (send_ipc_message os fd m w).0 ≡ true
      → send_each os fd (m ∷ ms) w ≡ send_each os fd ms (send_ipc_message os fd m w).1
  unfolding send_each
  send_each-next m ms w h = ground (arith, h)

  send_each-failed :
      (m : IpcMessage) (ms : List IpcMessage) (w : W)
      → (send_ipc_message os fd m w).0 ≡ false
      → send_each os fd (m ∷ ms) w ≡ (false, (send_ipc_message os fd m w).1)
  unfolding send_each
  send_each-failed m ms w h = ground (arith, h)

  send_each-Sent :
      (ms : List IpcMessage) (w : W) → Fits ms → Sent os fd net (frames ms) w (send_each os fd ms w)
  unfolding send_each
  send_each-Sent [] w fit = inl (refl, sym (append-nil (sent w)))
  send_each-Sent (m ∷ ms) w fit =
      elim (send_ipc_message-Sent os fd net m w
        (omega (arith, length-to_buffer fit.0.0, fit.0.1))) [
          | inl (ok, all) ↦
              subst (Sent os fd net (frame m ++ frames ms) w) (sym (send_each-next m ms w ok)) (
                Sent-append os fd net (frame m) (frames ms) w (send_ipc_message os fd m w).1 _ all
                  (send_each-Sent ms (send_ipc_message os fd m w).1 fit.1))
          | inr (failed, front, back, parts, more, some_sent) ↦
              subst (Sent os fd net (frame m ++ frames ms) w) (sym (send_each-failed m ms w failed))
                (inr (
                  refl,
                  front,
                  back ++ frames ms,
                  ap (λ t. t ++ frames ms) parts ∙ append_assoc front back (frames ms),
                  omega (arith, more, length-append back (frames ms)),
                  some_sent,
                ))
        ]

-- A client sends messages in turn over a connection on which nothing was sent before, and then
-- closes it. Whatever the two systems do to cut the stream up: if every send returned true, then
-- the server's callback gets just these messages, in order, each once; if one returned false, then
-- it gets the messages up to one of them, and not all. Every message is as `IsMessage` says:
-- valid, with this protocol's magic and version, members in range and the length of its payload in
-- its header, so neither a default message nor one made from a null pointer with a length; and
-- with its header it has at most `kMaxMessageSize` bytes. The server is running, and its loop has
-- a round for each message.
pub send_each-handle_loop :
    {W V : Type 0} (client : System W) (server : System V) (fd cfd : ℕ) {sent : W → List ℕ}
    {pending : V → List ℕ} (running : V → Bool) (fuel : ℕ) (ms : List IpcMessage) (w : W) (v : V)
    → Sends client fd sent
    → Receives server cfd pending
    → ((s : V) → running s ≡ true)
    → Fits ms
    → length ms ≤ fuel
    → sent w ≡ []
    → pending v ≡ sent (send_each client fd ms w).1
    → let calls = (handle_loop server fuel running cfd v).0 in
      (((send_each client fd ms w).0 ≡ true) × (calls ≡ ms))
      ⊎ (((send_each client fd ms w).0 ≡ false)
          × (got lost : List IpcMessage) × (ms ≡ got ++ lost)
          × (0 < length lost)
          × (calls ≡ got))
send_each-handle_loop client server fd cfd {sent} {pending} running fuel ms w v out into up fit
      enough first link =
    elim (send_each-Sent client fd out ms w fit) [
      | inl (ok, all) ↦ inl (
        ok,
        handle_loop-frames server cfd into running up fuel ms v fit enough
            (link ∙ all ∙ ap (λ t. t ++ frames ms) first),
      )
      | inr (failed, front, back, parts, more, some_sent) ↦
          let arrived : pending v ≡ front = link ∙ some_sent ∙ ap (λ t. t ++ front) first in
          let (got, lost, part, split_up, whole, cut, calls) =
            handle_loop-Cut server cfd into running up fuel ms back v fit enough
              (ap (λ t. t ++ back) arrived ∙ sym parts) in
          inr (
            failed,
            got,
            lost,
            split_up,
            some_lost got lost part front back split_up (sym arrived ∙ whole) parts more cut,
            calls,
          )
    ]
  where
    some_lost :
        (got lost : List IpcMessage) (part front back : List ℕ)
        → ms ≡ got ++ lost
        → front ≡ frames got ++ part
        → frames ms ≡ front ++ back
        → 0 < length back
        → Cut server cfd into running up part lost
        → 0 < length lost
    some_lost got [] part front back e f g more cut = absurd (
        omega (
          arith,
          ap length g,
          length-append front back,
          ap length f,
          length-append (frames got) part,
          ap length cut,
          ap (λ t. length (frames t)) (e ∙ append-nil got),
          more,
        ))
    some_lost got (m ∷ lost) part front back e f g more cut = omega arith
