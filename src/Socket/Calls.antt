-- ===== src/Socket/Calls.antt =====
-- What the system's calls are relied on to do for one connected stream socket, and the loops
-- `recv_all` and `send_all` on top of them.
use lw_ipc.Base.{
  ℕ, zero, suc, ◌+◌, ◌-◌, ◌≤◌, ◌<◌, ◌≡◌, ◌⊎◌, inl, inr, refl, sym, ap, ap₂, ◌∙◌, subst, Bool, true,
  false, none, some, List, [], ◌∷◌, ◌++◌, arith, length, take, drop, length-append, length-drop,
  append_assoc, append-nil, dec_lt, take-append-drop,
}
use lw_ipc.Socket.{System, recv_loop, recv_all, send_loop, send_all}

-- `pending` is the bytes that are still to arrive before the stream ends. `recv` takes bytes from
-- their front, at most as many as it was asked for, and one at least while there are any: it blocks
-- until then.
pub record Receives {W : Type 0} (os : System W) (fd : ℕ) (pending : W → List ℕ) : Type 0 where
  pub in_order : (n : ℕ) (w : W) → (os.recv fd n w).0 ++ pending (os.recv fd n w).1 ≡ pending w
  pub bounded : (n : ℕ) (w : W) → length (os.recv fd n w).0 ≤ n
  pub blocks : (n : ℕ) (w : W) → 0 < n → 0 < length (pending w) → 0 < length (os.recv fd n w).0

-- `sent` is the bytes that the stream took over so far. `send` takes bytes from the front of the
-- buffer.
pub record Sends {W : Type 0} (os : System W) (fd : ℕ) (sent : W → List ℕ) : Type 0 where
  pub in_order :
      (buf : List ℕ) (w : W) → sent (os.send fd buf w).1 ≡ sent w ++ take (os.send fd buf w).0 buf

-- If one list is split in two ways, then the longer first part goes on with the other second part.
tail-eq : {A : Type 0} {x y : A} {xs ys : List A} → x ∷ xs ≡ y ∷ ys → (x ≡ y) × (xs ≡ ys)
tail-eq e = ground (arith, e)

pub split :
    {A : Type 0} (front back xs ys : List A)
    → front ++ back ≡ xs ++ ys
    → length front ≤ length xs
    → (xs ≡ front ++ drop (length front) xs) × (back ≡ drop (length front) xs ++ ys)
split [] back xs ys e h = (refl, e)
split (a ∷ front) back [] ys e h = absurd (omega arith)
split (a ∷ front) back (x ∷ xs) ys e h =
    let (first, others) = tail-eq e in
    let (whole, left) = split front back xs ys others (omega arith) in
    (ap₂ ◌∷◌ (sym first) whole, left)

module _ {W : Type 0} (os : System W) (fd : ℕ) {pending : W → List ℕ}
    (net : Receives os fd pending) where
  module _ (fuel n : ℕ) (got : List ℕ) (w : W) where
    recv_loop-done : length got ≡ n → recv_loop os fd (suc fuel) n got w ≡ (some got, w)
    unfolding recv_loop
    recv_loop-done h = ground (arith, h)

    recv_loop-next :
        length got < n
        → 0 < length (os.recv fd (n - length got) w).0
        → let (chunk, w') = os.recv fd (n - length got) w in
          recv_loop os fd (suc fuel) n got w ≡ recv_loop os fd fuel n (got ++ chunk) w'
    unfolding recv_loop
    recv_loop-next h k = ground (arith, h, k)

    recv_loop-closed :
        length got < n
        → length (os.recv fd (n - length got) w).0 ≡ 0
        → recv_loop os fd (suc fuel) n got w ≡ (none, (os.recv fd (n - length got) w).1)
    unfolding recv_loop
    recv_loop-closed h k = ground (arith, h, k)

  -- `recv_all` with enough bytes to come: `got` were read, `xs` are missing and `ys` come behind
  -- them.
  recv_loop-some :
      (fuel n : ℕ) (got xs ys : List ℕ) (w : W)
      → pending w ≡ xs ++ ys
      → length got + length xs ≡ n
      → length xs < fuel
      → ((recv_loop os fd fuel n got w).0 ≡ some (got ++ xs))
        × (pending (recv_loop os fd fuel n got w).1 ≡ ys)
  recv_loop-some zero n got xs ys w e total enough = absurd (omega arith)
  recv_loop-some (suc fuel) n got [] ys w e total enough =
      subst (λ t. (t.0 ≡ some (got ++ [])) × (pending t.1 ≡ ys))
        (sym (recv_loop-done fuel n got w (omega arith))) (ap some (sym (append-nil got)), e)
  recv_loop-some (suc fuel) n got (x ∷ xs) ys w e total enough =
      let chunk = (os.recv fd (n - length got) w).0 in
      let w' = (os.recv fd (n - length got) w).1 in
      let some_bytes : 0 < length chunk =
        net.blocks (n - length got) w (omega arith)
          (omega (arith, ap length e, length-append (x ∷ xs) ys)) in
      let (whole, left) =
        split chunk (pending w') (x ∷ xs) ys (net.in_order (n - length got) w ∙ e)
          (omega (arith, net.bounded (n - length got) w)) in
      let missing = drop (length chunk) (x ∷ xs) in
      let sizes : length chunk + length missing ≡ suc (length xs) =
        omega (arith, ap length whole, length-append chunk missing) in
      let rest =
        recv_loop-some fuel n (got ++ chunk) missing ys w' left
          (omega (arith, sizes, length-append got chunk)) (omega (arith, sizes, some_bytes)) in
      subst (λ t. (t.0 ≡ some (got ++ (x ∷ xs))) × (pending t.1 ≡ ys))
        (sym (recv_loop-next fuel n got w (omega arith) some_bytes))
        (rest.0 ∙ ap some (append_assoc got chunk missing ∙ ap (λ t. got ++ t) (sym whole)), rest.1)

  -- The stream ends too early.
  recv_loop-none :
      (fuel n : ℕ) (got : List ℕ) (w : W)
      → length got + length (pending w) < n
      → length (pending w) < fuel
      → (recv_loop os fd fuel n got w).0 ≡ none
  recv_loop-none zero n got w short enough = absurd (omega arith)
  recv_loop-none (suc fuel) n got w short enough =
      let chunk = (os.recv fd (n - length got) w).0 in
      let w' = (os.recv fd (n - length got) w).1 in
      let sizes : length chunk + length (pending w') ≡ length (pending w) =
        sym (length-append chunk (pending w')) ∙ ap length (net.in_order (n - length got) w) in
      elim (dec_lt 0 (length chunk)) [
        | yes h ↦
            ap (λ t. t.0) (recv_loop-next fuel n got w (omega arith) h)
            ∙ recv_loop-none fuel n (got ++ chunk) w'
                (omega (arith, sizes, length-append got chunk)) (omega (arith, sizes))
        | no h ↦ ap (λ t. t.0) (recv_loop-closed fuel n got w (omega arith) (omega arith))
      ]

  -- `recv_all` reads exactly the bytes that it was asked for, however the system cuts them up, and
  -- leaves what comes behind them.
  pub recv_all-some :
      (n : ℕ) (xs ys : List ℕ) (w : W)
      → pending w ≡ xs ++ ys
      → length xs ≡ n
      → ((recv_all os fd n w).0 ≡ some xs) × (pending (recv_all os fd n w).1 ≡ ys)
  unfolding recv_all
  recv_all-some n xs ys w e h =
      recv_loop-some (n + 1) n [] xs ys w e (omega (arith, h)) (omega (arith, h))

  -- It fails if fewer bytes arrive before the stream ends.
  pub recv_all-none : (n : ℕ) (w : W) → length (pending w) < n → (recv_all os fd n w).0 ≡ none
  unfolding recv_all
  recv_all-none n w short = recv_loop-none (n + 1) n [] w (omega arith) (omega arith)

module _ {W : Type 0} (os : System W) (fd : ℕ) {sent : W → List ℕ} (net : Sends os fd sent) where
  -- What `send_all` leaves in the stream: the whole buffer if it returned true, and less than that,
  -- from its front, if it returned false.
  abbrev pub Sent : List ℕ → W → Bool × W → Type 0
  Sent buf w t =
      ((t.0 ≡ true) × (sent t.1 ≡ sent w ++ buf))
      ⊎ ((t.0 ≡ false)
          × (front : List ℕ) × (back : List ℕ) × (buf ≡ front ++ back)
          × (0 < length back)
          × (sent t.1 ≡ sent w ++ front))

  module _ (fuel : ℕ) (buf : List ℕ) (w : W) where
    send_loop-next :
        0 < length buf
        → 0 < (os.send fd buf w).0
        → let (taken, w') = os.send fd buf w in
          send_loop os fd (suc fuel) buf w ≡ send_loop os fd fuel (drop taken buf) w'
    unfolding send_loop
    send_loop-next h k = ground (arith, h, k)

    send_loop-error :
        0 < length buf
        → (os.send fd buf w).0 ≡ 0
        → send_loop os fd (suc fuel) buf w ≡ (false, (os.send fd buf w).1)
    unfolding send_loop
    send_loop-error h k = ground (arith, h, k)

  -- A part of a buffer was taken over, and the rest was sent after it.
  pub Sent-append :
      (first buf : List ℕ) (w w' : W) (t : Bool × W)
      → sent w' ≡ sent w ++ first
      → Sent buf w' t
      → Sent (first ++ buf) w t
  Sent-append first buf w w' t e (inl (ok, all)) =
      inl (ok, all ∙ ap (λ s. s ++ buf) e ∙ append_assoc (sent w) first buf)
  Sent-append first buf w w' t e (inr (failed, front, back, parts, more, some_sent)) = inr (
    failed,
    first ++ front,
    back,
    ap (λ s. first ++ s) parts ∙ sym (append_assoc first front back),
    more,
    some_sent ∙ ap (λ s. s ++ front) e ∙ append_assoc (sent w) first front,
  )

  send_loop-Sent :
      (fuel : ℕ) (buf : List ℕ) (w : W)
      → length buf < fuel
      → Sent buf w (send_loop os fd fuel buf w)
  unfolding send_loop
  send_loop-Sent zero buf w enough = absurd (omega arith)
  send_loop-Sent (suc fuel) [] w enough = inl (finished, ap sent same ∙ sym (append-nil (sent w)))
    where
      finished : (send_loop os fd (suc fuel) [] w).0 ≡ true
      finished = ground arith

      same : (send_loop os fd (suc fuel) [] w).1 ≡ w
      same = ground arith
  send_loop-Sent (suc fuel) (b ∷ buf) w enough =
      let taken = (os.send fd (b ∷ buf) w).0 in
      let w' = (os.send fd (b ∷ buf) w).1 in
      elim (dec_lt 0 taken) [
        | yes h ↦
            subst (λ t. Sent t w (send_loop os fd (suc fuel) (b ∷ buf) w))
              (take-append-drop taken (b ∷ buf))
              (subst (Sent (take taken (b ∷ buf) ++ drop taken (b ∷ buf)) w)
                (sym (send_loop-next fuel (b ∷ buf) w (omega arith) h))
                (Sent-append (take taken (b ∷ buf)) (drop taken (b ∷ buf)) w w' _
                  (net.in_order (b ∷ buf) w)
                  (send_loop-Sent fuel (drop taken (b ∷ buf)) w'
                    (omega (arith, length-drop taken (b ∷ buf))))))
        | no h ↦
            subst (Sent (b ∷ buf) w)
              (sym (send_loop-error fuel (b ∷ buf) w (omega arith) (omega arith)))
              (inr (
                refl,
                take taken (b ∷ buf),
                drop taken (b ∷ buf),
                sym (take-append-drop taken (b ∷ buf)),
                omega (arith, length-drop taken (b ∷ buf)),
                net.in_order (b ∷ buf) w,
              ))
      ]

  -- `send_all` returns true just when the whole buffer went into the stream, however the system
  -- cuts it up; if it returns false, then only a part from the buffer's front did.
  pub send_all-Sent : (buf : List ℕ) (w : W) → Sent buf w (send_all os fd buf w)
  unfolding send_all
  send_all-Sent buf w = send_loop-Sent (length buf + 1) buf w (omega arith)
