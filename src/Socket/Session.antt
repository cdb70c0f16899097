-- ===== src/Socket/Session.antt =====
-- A server's handler and the frames that arrive at it.
use lw_ipc.Base.{
  ℕ, zero, suc, ◌+◌, ◌≤◌, ◌<◌, ◌≡◌, inl, inr, refl, sym, ap, ◌∙◌, Bool, true, List, [], ◌∷◌, ◌++◌,
  arith, length, length-append, length-drop, append_assoc, drop, dec_lt,
}
use lw_ipc.Base.Bytes.{to_le, length-to_le}
use lw_ipc.Message.{IpcMessage, header_size, no_message, to_buffer}
use lw_ipc.Message.RoundTrip.{IsMessage, length-to_buffer}
use lw_ipc.Socket.{System, k_max_message_size, recv_ipc_message}
use lw_ipc.Socket.Calls.{Receives, split}
use lw_ipc.Socket.Frame.{
  frame, recv_ipc_message_lem, recv_ipc_message-closed, recv_ipc_message-frame,
}
use lw_ipc.Socket.Server.{handle_loop}

-- The messages that the transport is made for.
abbrev pub Fits : List IpcMessage → Type 0
Fits [] = Unit
Fits (m ∷ ms) = (IsMessage m × (header_size + length m.bytes ≤ k_max_message_size)) × Fits ms

abbrev pub frames : List IpcMessage → List ℕ
frames [] = []
frames (m ∷ ms) = frame m ++ frames ms

module _ {W : Type 0} (os : System W) (fd : ℕ) {pending : W → List ℕ} (net : Receives os fd pending)
    (running : W → Bool) (up : (w : W) → running w ≡ true) where
  handle_loop-valid :
      (fuel : ℕ) (w : W) (m : IpcMessage)
      → (recv_ipc_message os fd w).0 ≡ m
      → m.valid ≡ true
      → (handle_loop os (suc fuel) running fd w).0
        ≡ m ∷ (handle_loop os fuel running fd (recv_ipc_message os fd w).1).0
  unfolding handle_loop
  handle_loop-valid fuel w m e ok = ground (arith, up w, e, ok)

  handle_loop-invalid :
      (fuel : ℕ) (w : W)
      → (recv_ipc_message os fd w).0 ≡ no_message
      → (handle_loop os fuel running fd w).0 ≡ []
  unfolding handle_loop
  handle_loop-invalid zero w e = refl
  handle_loop-invalid (suc fuel) w e = ground (arith, up w, e)

  -- A whole frame at the front of the stream.
  handle_loop-frame :
      (fuel : ℕ) (w : W) (m : IpcMessage) (rest : List ℕ)
      → IsMessage m
      → header_size + length m.bytes ≤ k_max_message_size
      → pending w ≡ frame m ++ rest
      → let w' = (recv_ipc_message os fd w).1 in
        (pending w' ≡ rest)
        × ((handle_loop os (suc fuel) running fd w).0 ≡ m ∷ (handle_loop os fuel running fd w').0)
  handle_loop-frame fuel w m rest ok small e =
      let (got, left) = recv_ipc_message-frame os fd net m rest w ok small e in
      (left, handle_loop-valid fuel w m got ok.valid)

  -- All the frames of some messages arrive, and then the stream ends: the callback gets just these
  -- messages, in order.
  pub handle_loop-frames :
      (fuel : ℕ) (ms : List IpcMessage) (w : W)
      → Fits ms
      → length ms ≤ fuel
      → pending w ≡ frames ms
      → (handle_loop os fuel running fd w).0 ≡ ms
  handle_loop-frames fuel [] w fit enough e =
      handle_loop-invalid fuel w (recv_ipc_message-closed os fd net w (omega (arith, ap length e)))
  handle_loop-frames zero (m ∷ ms) w fit enough e = absurd (omega arith)
  handle_loop-frames (suc fuel) (m ∷ ms) w fit enough e =
      let (left, step) = handle_loop-frame fuel w m (frames ms) fit.0.0 fit.0.1 e in
      step ∙ ap (λ t. m ∷ t) (handle_loop-frames fuel ms _ fit.1 (omega arith) left)

  -- Only a part of a frame arrives.
  recv_ipc_message-part :
      (m : IpcMessage) (part back : List ℕ) (w : W)
      → IsMessage m
      → header_size + length m.bytes ≤ k_max_message_size
      → pending w ≡ part
      → part ++ back ≡ frame m
      → 0 < length back
      → (recv_ipc_message os fd w).0 ≡ no_message
  unfolding frame
  recv_ipc_message-part m part back w ok small e parts cut = elim (dec_lt (length part) 4) [
    | yes short ↦ recv_ipc_message-closed os fd net w (omega (arith, ap length e))
    | no long ↦
        let n = length (to_buffer m) in
        let (whole, left) =
          split (to_le 4 n) (to_buffer m) part back (sym parts) (omega (arith, length-to_le 4 n)) in
        let arrived = drop (length (to_le 4 n)) part in
        elim (recv_ipc_message_lem os fd net n arrived w (omega (arith, length-to_buffer ok))
          (e ∙ whole)) [
            | inl (_, invalid, _) ↦ invalid
            | inr (inl (_, _, _, invalid)) ↦ invalid
            | inr (inr (_, _, enough, _, _)) ↦
                absurd (omega (arith, enough, ap length left, length-append arrived back))
          ]
  ]

  -- `got` and `lost` are the messages before and from the cut on: `part` is what arrived of the
  -- first lost one's frame.
  abbrev pub Cut : List ℕ → List IpcMessage → Type 0
  Cut part [] = part ≡ []
  Cut part (m ∷ lost) = length part < length (frame m)

  pub handle_loop-Cut :
      (fuel : ℕ) (ms : List IpcMessage) (back : List ℕ) (w : W)
      → Fits ms
      → length ms ≤ fuel
      → pending w ++ back ≡ frames ms
      → (got lost : List IpcMessage) × (part : List ℕ) × (ms ≡ got ++ lost)
        × (pending w ≡ frames got ++ part)
        × Cut part lost
        × ((handle_loop os fuel running fd w).0 ≡ got)
  handle_loop-Cut fuel [] back w fit enough e = (
    [],
    [],
    pending w,
    refl,
    refl,
    nothing (pending w) back e,
    handle_loop-invalid fuel w (
        recv_ipc_message-closed os fd net w
          (omega (arith, ap length e, length-append (pending w) back))),
  )
    where
      nothing : (xs ys : List ℕ) → xs ++ ys ≡ [] → xs ≡ []
      nothing [] ys e = refl
      nothing (x ∷ xs) ys e = absurd (omega (arith, ap length e))
  handle_loop-Cut zero (m ∷ ms) back w fit enough e = absurd (omega arith)
  handle_loop-Cut (suc fuel) (m ∷ ms) back w fit enough e =
      elim (dec_lt (length (pending w)) (length (frame m))) [
        | yes short ↦
            let (whole, left) = split (pending w) back (frame m) (frames ms) e (omega arith) in
            (
              [],
              m ∷ ms,
              pending w,
              refl,
              refl,
              short,
              handle_loop-invalid (suc fuel) w (
                  recv_ipc_message-part m (pending w) (drop (length (pending w)) (frame m)) w
                    fit.0.0 fit.0.1 refl (sym whole)
                    (omega (arith, short, length-drop (length (pending w)) (frame m)))),
            )
        | no long ↦
            let (whole, left) =
              split (frame m) (frames ms) (pending w) back (sym e) (omega arith) in
            let rest = drop (length (frame m)) (pending w) in
            let w' = (recv_ipc_message os fd w).1 in
            let (after, step) = handle_loop-frame fuel w m rest fit.0.0 fit.0.1 whole in
            let (got, lost, part, parts, arrived, cut, calls) =
              handle_loop-Cut fuel ms back w' fit.1 (omega arith)
                (ap (λ t. t ++ back) after ∙ sym left) in
            (
              m ∷ got,
              lost,
              part,
              ap (λ t. m ∷ t) parts,
              whole
                  ∙ ap (λ t. frame m ++ t) (sym after ∙ arrived)
                  ∙ sym (append_assoc (frame m) (frames got) part),
              cut,
              step ∙ ap (λ t. m ∷ t) calls,
            )
      ]
