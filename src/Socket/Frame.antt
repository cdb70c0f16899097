-- ===== src/Socket/Frame.antt =====
-- A message on a connection: its size in four bytes, then the message's own bytes.
use lw_ipc.Base.{
  ℕ, ◌+◌, ◌^◌, ◌≤◌, ◌<◌, ◌≡◌, ◌⊎◌, inl, inr, refl, sym, ap, ◌∙◌, subst, true, false, none, some,
  List, [], ◌++◌, arith, length, take, drop, length-append, append_assoc, append-nil, dec_le,
  take-append-drop, length-take,
}
use lw_ipc.Base.Words.{u32}
use lw_ipc.Base.Bytes.{to_le, from_le, from_le-to_le, length-to_le, take-append, drop-append}
use lw_ipc.Message.{IpcMessage, header_size, no_message, from_buffer, to_buffer}
use lw_ipc.Message.RoundTrip.{IsMessage, length-to_buffer, from_buffer-to_buffer}
use lw_ipc.Socket.{
  System, k_max_message_size, recv_all, send_all, send_ipc_message, recv_body, recv_ipc_message,
}
use lw_ipc.Socket.Calls.{
  Receives, Sends, Sent, Sent-append, send_all-Sent, recv_all-some, recv_all-none,
}

-- The bytes of a message on the wire.
unfoldable pub frame : IpcMessage → List ℕ
frame m = to_le 4 (length (to_buffer m)) ++ to_buffer m

module _ {W : Type 0} (os : System W) (fd : ℕ) {sent : W → List ℕ} (net : Sends os fd sent) where
  module _ (m : IpcMessage) (w : W) where
    abbrev prefix : List ℕ
    prefix = to_le 4 (u32 (length (to_buffer m)))

    send_ipc_message-prefixed :
        (send_all os fd prefix w).0 ≡ true
        → send_ipc_message os fd m w ≡ send_all os fd (to_buffer m) (send_all os fd prefix w).1
    unfolding send_ipc_message
    send_ipc_message-prefixed h = ground (arith, h)

    send_ipc_message-failed :
        (send_all os fd prefix w).0 ≡ false
        → send_ipc_message os fd m w ≡ (false, (send_all os fd prefix w).1)
    unfolding send_ipc_message
    send_ipc_message-failed h = ground (arith, h)

    -- `send_ipc_message` returns true just when the whole frame went into the stream; if it returns
    -- false, then less, from the frame's front, did. The message has less than 2^32 bytes.
    pub send_ipc_message-Sent :
        length (to_buffer m) < 2 ^ 32 → Sent os fd net (frame m) w (send_ipc_message os fd m w)
    unfolding frame
    send_ipc_message-Sent small = elim (send_all-Sent os fd net prefix w) [
      | inl (ok, all) ↦
          subst (λ t. Sent os fd net (t ++ to_buffer m) w (send_ipc_message os fd m w)) size
            (subst (Sent os fd net (prefix ++ to_buffer m) w) (sym (send_ipc_message-prefixed ok)) (
              Sent-append os fd net prefix (to_buffer m) w (send_all os fd prefix w).1 _ all
                (send_all-Sent os fd net (to_buffer m) (send_all os fd prefix w).1)))
      | inr (failed, front, back, parts, more, some_sent) ↦
          subst (Sent os fd net (to_le 4 (length (to_buffer m)) ++ to_buffer m) w)
            (sym (send_ipc_message-failed failed))
            (inr (
              refl,
              front,
              back ++ to_buffer m,
              ap (λ t. t ++ to_buffer m) (sym size ∙ parts) ∙ append_assoc front back (to_buffer m),
              omega (arith, more, length-append back (to_buffer m)),
              some_sent,
            ))
    ]
      where
        size : prefix ≡ to_le 4 (length (to_buffer m))
        size = ap (to_le 4) (omega arith)

module _ {W : Type 0} (os : System W) (fd : ℕ) {pending : W → List ℕ}
    (net : Receives os fd pending) where
  -- What `recv_ipc_message` makes of a length and what comes behind it.
  abbrev pub Received : ℕ → List ℕ → IpcMessage × W → Type 0
  Received total rest t =
      (((total < header_size) ⊎ (k_max_message_size < total))
        × (t.0 ≡ no_message)
        × (pending t.1 ≡ rest))
      ⊎ ((header_size ≤ total)
          × (total ≤ k_max_message_size)
          × (length rest < total)
          × (t.0 ≡ no_message))
      ⊎ ((header_size ≤ total)
          × (total ≤ k_max_message_size)
          × (total ≤ length rest)
          × (t.0 ≡ from_buffer (take total rest))
          × (pending t.1 ≡ drop total rest))

  module _ (total : ℕ) (w : W) where
    recv_body-refused :
        (total < header_size) ⊎ (k_max_message_size < total)
        → recv_body os fd total w ≡ (no_message, w)
    unfolding recv_body
    recv_body-refused h = ground (arith, h)

    recv_body-some :
        (buf : List ℕ)
        → header_size ≤ total
        → total ≤ k_max_message_size
        → (recv_all os fd total w).0 ≡ some buf
        → recv_body os fd total w ≡ (from_buffer buf, (recv_all os fd total w).1)
    unfolding recv_body
    recv_body-some buf low high h = ground (arith, low, high, h)

    recv_body-none :
        header_size ≤ total
        → total ≤ k_max_message_size
        → (recv_all os fd total w).0 ≡ none
        → recv_body os fd total w ≡ (no_message, (recv_all os fd total w).1)
    unfolding recv_body
    recv_body-none low high h = ground (arith, low, high, h)

  recv_body-Received :
      (total : ℕ) (rest : List ℕ) (w : W)
      → pending w ≡ rest
      → Received total rest (recv_body os fd total w)
  recv_body-Received total rest w e = elim (dec_le header_size total) [
    | no low ↦
        subst (Received total rest) (sym (recv_body-refused total w (inl (omega arith))))
          (inl (inl (omega arith), refl, e))
    | yes low ↦ elim (dec_le total k_max_message_size) [
      | no high ↦
          subst (Received total rest) (sym (recv_body-refused total w (inr (omega arith))))
            (inl (inr (omega arith), refl, e))
      | yes high ↦ elim (dec_le total (length rest)) [
        | no short ↦
            subst (Received total rest)
              (sym (
                recv_body-none total w low high
                  (recv_all-none os fd net total w (omega (arith, ap length e)))))
              (inr (inl (low, high, omega arith, refl)))
        | yes enough ↦
            let (got, left) =
              recv_all-some os fd net total (take total rest) (drop total rest) w
                (e ∙ sym (take-append-drop total rest)) (omega (arith, length-take total rest)) in
            subst (Received total rest)
              (sym (recv_body-some total w (take total rest) low high got))
              (inr (inr (low, high, enough, refl, left)))
      ]
    ]
  ]

  recv_ipc_message-prefixed :
      (bytes : List ℕ) (w : W)
      → (recv_all os fd 4 w).0 ≡ some bytes
      → recv_ipc_message os fd w ≡ recv_body os fd (from_le bytes) (recv_all os fd 4 w).1
  unfolding recv_ipc_message
  recv_ipc_message-prefixed bytes w h = ground (arith, h)

  -- `recv_ipc_message`, when the stream holds the four bytes of a length and `rest` behind it. A
  -- length below the header's size or above `kMaxMessageSize`, which bounds header and payload
  -- together, gives the invalid message and consumes these four bytes only. Of another length, if
  -- the stream ends before that many bytes, the message is invalid too. Otherwise it is what
  -- `from_buffer` makes of exactly that many bytes, and the stream goes on behind them.
  pub recv_ipc_message_lem :
      (total : ℕ) (rest : List ℕ) (w : W)
      → total < 2 ^ 32
      → pending w ≡ to_le 4 total ++ rest
      → Received total rest (recv_ipc_message os fd w)
  recv_ipc_message_lem total rest w small e =
      let (got, left) = recv_all-some os fd net 4 (to_le 4 total) rest w e (length-to_le 4 total) in
      let stepped : recv_ipc_message os fd w ≡ recv_body os fd total (recv_all os fd 4 w).1 =
        recv_ipc_message-prefixed (to_le 4 total) w got
        ∙ ap (λ t. recv_body os fd t (recv_all os fd 4 w).1) (from_le-to_le 4 total small) in
      subst (Received total rest) (sym stepped)
        (recv_body-Received total rest (recv_all os fd 4 w).1 left)

  -- The stream ends where a length is due.
  pub recv_ipc_message-closed :
      (w : W) → length (pending w) < 4 → (recv_ipc_message os fd w).0 ≡ no_message
  unfolding recv_ipc_message
  recv_ipc_message-closed w short = ground (arith, recv_all-none os fd net 4 w short)

  -- A frame that arrives is read as the message that was sent, and the stream goes on behind it.
  -- With its header the message has at most `kMaxMessageSize` bytes.
  pub recv_ipc_message-frame :
      (m : IpcMessage) (rest : List ℕ) (w : W)
      → IsMessage m
      → header_size + length m.bytes ≤ k_max_message_size
      → pending w ≡ frame m ++ rest
      → ((recv_ipc_message os fd w).0 ≡ m) × (pending (recv_ipc_message os fd w).1 ≡ rest)
  unfolding frame
  recv_ipc_message-frame m rest w ok small e =
      elim (recv_ipc_message_lem total (to_buffer m ++ rest) w (omega (arith, size))
        (e ∙ append_assoc (to_le 4 total) (to_buffer m) rest)) [
          | inl (inl low, _, _) ↦ absurd (omega (arith, size))
          | inl (inr high, _, _) ↦ absurd (omega (arith, size))
          | inr (inl (_, _, short, _)) ↦ absurd (omega (arith, length-append (to_buffer m) rest))
          | inr (inr (_, _, _, got, left)) ↦ (
            got
                ∙ ap from_buffer
                    (take-append total (to_buffer m) rest refl ∙ sym (append-nil (to_buffer m)))
                ∙ from_buffer-to_buffer m [] ok,
            left ∙ drop-append total (to_buffer m) rest refl,
          )
        ]
    where
      total : ℕ
      total = length (to_buffer m)

      size : total ≡ header_size + length m.bytes
      size = length-to_buffer ok
