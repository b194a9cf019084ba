-- ===== src/Transport/Message.antt =====
-- Reading one message (src/broker/ProviderPipeTransport.cpp: `ReadPipeMessageWithTimeout`).
use dot1xcp.Base.{
  ℕ, zero, suc, ◌+◌, ◌≤◌, ◌<◌, ◌≡◌, refl, sym, ap, subst, ◌∙◌, ◌≢◌, ◌↔◌, ◌⊎◌, inl, inr, Bool, true,
  false, Option, none, some, [], ◌++◌, append_assoc, arith, if◌then◌else◌, Option-cases,
  some-eq-some, length, is_empty, length-append, Bytes,
}
use dot1xcp.Response.{PipeReadResult, ok, timed_out, broker_exited, failed}
use dot1xcp.Transport.{
  after, no_event, broken, refused, broken_pipe, error, process_exited, wait_timeout, wait_failed,
  done, more, signalled, Round, whole, part, pending, max_msg_bytes, receive, woken_round,
  read_round, read_loop, read_message,
}

-- A round that goes on has read something, and the message is not too long.
receive-goes_on :
    (complete : Bool) (chunk msg : Bytes) {msg' : Bytes}
    → receive complete chunk msg ≡ (msg', none)
    → (length msg < length msg') × (length msg' ≤ max_msg_bytes)
unfolding receive
receive-goes_on complete chunk msg h = ground (arith, length-append msg chunk)

read_round-goes_on :
    (r : Round) (msg : Bytes) {msg' : Bytes}
    → read_round r msg ≡ (msg', none)
    → (length msg < length msg') × (length msg' ≤ max_msg_bytes)
unfolding read_round woken_round
read_round-goes_on (whole b) msg h = receive-goes_on true b msg h
read_round-goes_on (part b) msg h = receive-goes_on false b msg h
read_round-goes_on (pending (signalled (done b))) msg h = receive-goes_on true b msg h
read_round-goes_on (pending (signalled (more b))) msg h = receive-goes_on false b msg h
read_round-goes_on _ msg h = cc

-- What the loop does with a round, read off the round.
read_loop-stops :
    (fuel : ℕ) (rounds : ℕ → Round) (i : ℕ) (msg : Bytes) {msg' : Bytes} {r : PipeReadResult}
    → read_round (rounds i) msg ≡ (msg', some r)
    → read_loop (suc fuel) rounds i msg ≡ some (r, msg')
unfolding read_loop
read_loop-stops fuel rounds i msg h = ap (λ q. after q (λ m. read_loop fuel rounds (suc i) m)) h

read_loop-goes_on :
    (fuel : ℕ) (rounds : ℕ → Round) (i : ℕ) (msg : Bytes) {msg' : Bytes}
    → read_round (rounds i) msg ≡ (msg', none)
    → read_loop (suc fuel) rounds i msg ≡ read_loop fuel rounds (suc i) msg'
unfolding read_loop
read_loop-goes_on fuel rounds i msg h = ap (λ q. after q (λ m. read_loop fuel rounds (suc i) m)) h

read_loop-returns :
    (fuel : ℕ) (rounds : ℕ → Round) (i : ℕ) (msg : Bytes)
    → length msg ≤ max_msg_bytes
    → max_msg_bytes < fuel + length msg
    → (r : PipeReadResult × Bytes) × (read_loop fuel rounds i msg ≡ some r)
read_loop-returns zero rounds i msg small enough = absurd (omega arith)
read_loop-returns (suc fuel) rounds i msg small enough =
    let q = read_round (rounds i) msg in
    elim (Option-cases q.1) [
      | inl e ↦
          let is : read_round (rounds i) msg ≡ (q.0, none) = ap (λ o. (q.0, o)) e in
          let (longer, fits) = read_round-goes_on (rounds i) msg is in
          let (r, returns) = read_loop-returns fuel rounds (suc i) q.0 fits (omega arith) in
          (r, read_loop-goes_on fuel rounds i msg is ∙ returns)
      | inr (r, e) ↦
          let is : read_round (rounds i) msg ≡ (q.0, some r) = ap (λ o. (q.0, o)) e in
          ((r, q.0), read_loop-stops fuel rounds i msg is)
    ]

-- `ReadPipeMessageWithTimeout` returns, whatever the system answers in its rounds.
pub read_message-returns :
    (rounds : ℕ → Round) → (r : PipeReadResult × Bytes) × (read_message rounds ≡ some r)
unfolding read_message
read_message-returns rounds =
    read_loop-returns (suc max_msg_bytes) rounds 0 [] (omega arith) (omega arith)

-- The bytes that a round reads, and whether the message is complete with them.
abbrev pub chunk_of : Round → Option (Bool × Bytes)
chunk_of (whole b) = some (true, b)
chunk_of (part b) = some (false, b)
chunk_of (pending (signalled (done b))) = some (true, b)
chunk_of (pending (signalled (more b))) = some (false, b)
chunk_of _ = none

-- From round `i` on, the rounds read the parts of the message `m`, none of them empty, and the last of
-- them completes it.
pub data Delivers (rounds : ℕ → Round) : ℕ → Bytes → Type 0 where
  last :
      {i : ℕ} {b : Bytes}
      → chunk_of (rounds i) ≡ some (true, b)
      → is_empty b ≡ false
      → Delivers rounds i b
  next :
      {i : ℕ} {b m : Bytes}
      → chunk_of (rounds i) ≡ some (false, b)
      → is_empty b ≡ false
      → Delivers rounds (suc i) m
      → Delivers rounds i (b ++ m)

-- A round either reads a chunk, or ends the loop without a message.
read_round-cases :
    (r : Round) (msg : Bytes)
    → ((complete : Bool) × (b : Bytes) × (chunk_of r ≡ some (complete, b))
        × (read_round r msg ≡ receive complete b msg))
      ⊎ ((chunk_of r ≡ none)
          × ((result : PipeReadResult) × (read_round r msg ≡ (msg, some result)) × (result ≢ ok)))
unfolding read_round woken_round
read_round-cases no_event msg = inr (refl, (failed, refl, λ e. cc e))
read_round-cases (whole b) msg = inl (true, b, refl, refl)
read_round-cases (part b) msg = inl (false, b, refl, refl)
read_round-cases broken msg = inr (refl, (broker_exited, refl, λ e. cc e))
read_round-cases refused msg = inr (refl, (failed, refl, λ e. cc e))
read_round-cases (pending (signalled (done b))) msg = inl (true, b, refl, refl)
read_round-cases (pending (signalled (more b))) msg = inl (false, b, refl, refl)
read_round-cases (pending (signalled broken_pipe)) msg =
    inr (refl, (broker_exited, refl, λ e. cc e))
read_round-cases (pending (signalled error)) msg = inr (refl, (failed, refl, λ e. cc e))
read_round-cases (pending process_exited) msg = inr (refl, (broker_exited, refl, λ e. cc e))
read_round-cases (pending wait_timeout) msg = inr (refl, (timed_out, refl, λ e. cc e))
read_round-cases (pending wait_failed) msg = inr (refl, (failed, refl, λ e. cc e))

receive-fits :
    (complete : Bool) (b acc : Bytes)
    → is_empty b ≡ false
    → length (acc ++ b) ≤ max_msg_bytes
    → receive complete b acc ≡ (acc ++ b, if complete then some ok else none)
unfolding receive
receive-fits complete b acc n fits = ground arith

receive-cases :
    (complete : Bool) (b acc : Bytes)
    → ((is_empty b ≡ false) × (length (acc ++ b) ≤ max_msg_bytes))
      ⊎ ((receive complete b acc).1 ≡ some failed)
unfolding receive
receive-cases complete b acc = ground arith

-- The chunk of a round that delivers, and what the round does with it.
chunk-read_round :
    (r : Round) (acc b : Bytes) (complete : Bool)
    → chunk_of r ≡ some (complete, b)
    → is_empty b ≡ false
    → length (acc ++ b) ≤ max_msg_bytes
    → read_round r acc ≡ (acc ++ b, if complete then some ok else none)
chunk-read_round r acc b complete c n fits = elim (read_round-cases r acc) [
  | inl (complete', b', c', is) ↦
      let e = some-eq-some (sym c' ∙ c) in
      is ∙ ap (λ q. receive q.0 q.1 acc) e ∙ receive-fits complete b acc n fits
  | inr (none_read, _) ↦ cc (sym none_read ∙ c)
]

-- A round delivers a chunk that fits, or the loop returns without a message.
round-cases :
    (r : Round) (acc : Bytes)
    → ((complete : Bool) × (b : Bytes) × (chunk_of r ≡ some (complete, b))
        × (is_empty b ≡ false)
        × (length (acc ++ b) ≤ max_msg_bytes))
      ⊎ ((result : PipeReadResult) × ((read_round r acc).1 ≡ some result) × (result ≢ ok))
round-cases r acc = elim (read_round-cases r acc) [
  | inl (complete, b, c, is) ↦ elim (receive-cases complete b acc) [
    | inl (n, fits) ↦ inl (complete, b, c, n, fits)
    | inr f ↦ inr (failed, ap (λ q. q.1) is ∙ f, λ e. cc e)
  ]
  | inr (none_read, (result, is, ne)) ↦ inr (result, ap (λ q. q.1) is, ne)
]

loop-Delivers :
    (fuel : ℕ) (rounds : ℕ → Round) (i : ℕ) (acc m : Bytes)
    → read_loop fuel rounds i acc ≡ some (ok, m)
    → (m' : Bytes) × (m ≡ acc ++ m') × Delivers rounds i m' × (length m ≤ max_msg_bytes)
unfolding read_loop
loop-Delivers zero rounds i acc m h = cc
loop-Delivers (suc fuel) rounds i acc m h = elim (round-cases (rounds i) acc) [
  | inl (true, b, c, n, fits) ↦
      let stops =
        read_loop-stops fuel rounds i acc (chunk-read_round (rounds i) acc b true c n fits) in
      let e = ap (λ q. q.1) (some-eq-some (sym stops ∙ h)) in
      (b, sym e, last c n, subst (λ x. length x ≤ max_msg_bytes) e fits)
  | inl (false, b, c, n, fits) ↦
      let goes =
        read_loop-goes_on fuel rounds i acc (chunk-read_round (rounds i) acc b false c n fits) in
      let (m', e, g, small) = loop-Delivers fuel rounds (suc i) (acc ++ b) m (sym goes ∙ h) in
      (b ++ m', e ∙ append_assoc acc b m', next c n g, small)
  | inr (result, e, ne) ↦
      let q = read_round (rounds i) acc in
      let is : read_round (rounds i) acc ≡ (q.0, some result) = ap (λ o. (q.0, o)) e in
      absurd (ne (ap (λ q. q.0) (some-eq-some (sym (read_loop-stops fuel rounds i acc is) ∙ h))))
]

not_empty-length : (b : Bytes) → is_empty b ≡ false → 0 < length b
not_empty-length b n = ground arith

Delivers-loop :
    {rounds : ℕ → Round} {i : ℕ} {m' : Bytes} (fuel : ℕ) (acc : Bytes)
    → Delivers rounds i m'
    → length (acc ++ m') ≤ max_msg_bytes
    → max_msg_bytes < fuel + length acc
    → read_loop fuel rounds i acc ≡ some (ok, acc ++ m')
Delivers-loop {m' = m'} zero acc g fits enough = absurd (omega (arith, length-append acc m'))
Delivers-loop {rounds} {i} (suc fuel) acc (last {b = b} c n) fits enough =
    read_loop-stops fuel rounds i acc (chunk-read_round (rounds i) acc b true c n fits)
Delivers-loop {rounds} {i} (suc fuel) acc (next {b = b} {m = m} c n g) fits enough =
    let sizes = length-append (acc ++ b) m in
    let fits' : length ((acc ++ b) ++ m) ≤ max_msg_bytes =
      subst (λ x. length x ≤ max_msg_bytes) (sym (append_assoc acc b m)) fits in
    let fits_b : length (acc ++ b) ≤ max_msg_bytes = omega (arith, sizes, fits') in
    let longer = length-append acc b in
    let some_b = not_empty-length b n in
    read_loop-goes_on fuel rounds i acc (chunk-read_round (rounds i) acc b false c n fits_b)
    ∙ Delivers-loop fuel (acc ++ b) g fits' (omega (arith, longer, some_b, enough))
    ∙ ap (λ x. some (ok, x)) (append_assoc acc b m)

-- `ReadPipeMessageWithTimeout` gives a message exactly if its rounds deliver it in parts, none of them
-- empty, up to one that completes it, and it is at most 256 KB long; the fuel always suffices.
pub read_message_iff :
    (rounds : ℕ → Round) (m : Bytes)
    → (read_message rounds ≡ some (ok, m)) ↔ (Delivers rounds 0 m × (length m ≤ max_msg_bytes))
unfolding read_message
read_message_iff rounds m =
    (λ h. forth h, λ (g, fits). Delivers-loop (suc max_msg_bytes) [] g fits (omega arith))
  where
    forth :
        read_loop (suc max_msg_bytes) rounds 0 [] ≡ some (ok, m)
        → Delivers rounds 0 m × (length m ≤ max_msg_bytes)
    forth h =
        let (m', e, g, small) = loop-Delivers (suc max_msg_bytes) rounds 0 [] m h in
        (subst (Delivers rounds 0) (sym e) g, small)
