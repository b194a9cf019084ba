-- ===== src/Transport.antt =====
-- The pipe's side of a poll (src/broker/ProviderPipeTransport.cpp): waiting for the broker to connect,
-- reading one message, and reading until there is an outcome.
pub mod Message
pub mod Deadline
pub mod Pipe
use dot1xcp.Base.{
  ℕ, zero, suc, ◌+◌, ◌-◌, ◌*◌, ◌%◌, ◌^◌, Bool, true, false, not, ◌&&◌, ◌||◌, Option, none, some, [],
  ◌++◌, ltb, leb, ◌==◌, if◌then◌else◌, length, is_empty, Bytes,
}
use dot1xcp.Response.{PipeConnectResult, PipeReadResult, ok, timed_out, broker_exited, failed}

-- How an overlapped operation that was waited for ends: `GetOverlappedResult`.
pub data Overlapped : Type 0 where
  done more : Bytes → Overlapped
  broken_pipe error : Overlapped

-- What `WaitForMultipleObjects` returns for the event and the broker's process.
pub data Woken : Type 0 where
  signalled : Overlapped → Woken
  process_exited wait_timeout wait_failed : Woken

-- One round of the reading loop, as the system answers it: no event could be created, `ReadFile`
-- succeeds at once, it gives a part of the message, or it fails; or the read is pending and waited for.
pub data Round : Type 0 where
  no_event : Round
  whole part : Bytes → Round
  broken refused : Round
  pending : Woken → Round

-- `kMaxMsgBytes`
abbrev pub max_msg_bytes : ℕ
max_msg_bytes = 256 * 1024

-- What a round that read `chunk` does: the message so far, and the result if the loop returns.
unfoldable pub receive : Bool → Bytes → Bytes → Bytes × Option PipeReadResult
receive complete chunk msg =
    if is_empty chunk
    then (msg, some failed)
    else let msg' = msg ++ chunk in
      if ltb max_msg_bytes (length msg')
      then ([], some failed)
      else (msg', if complete then some ok else none)

-- One round of the loop of `ReadPipeMessageWithTimeout`.
unfoldable pub woken_round : Woken → Bytes → Bytes × Option PipeReadResult
woken_round (signalled (done chunk)) msg = receive true chunk msg
woken_round (signalled (more chunk)) msg = receive false chunk msg
woken_round (signalled broken_pipe) msg = (msg, some broker_exited)
woken_round (signalled error) msg = (msg, some failed)
woken_round process_exited msg = (msg, some broker_exited)
woken_round wait_timeout msg = (msg, some timed_out)
woken_round wait_failed msg = (msg, some failed)

unfoldable pub read_round : Round → Bytes → Bytes × Option PipeReadResult
read_round no_event msg = (msg, some failed)
read_round (whole chunk) msg = receive true chunk msg
read_round (part chunk) msg = receive false chunk msg
read_round broken msg = (msg, some broker_exited)
read_round refused msg = (msg, some failed)
read_round (pending w) msg = woken_round w msg

-- `return` or `continue`, by the outcome of a round.
abbrev pub after :
    Bytes × Option PipeReadResult
    → (Bytes → Option (PipeReadResult × Bytes))
    → Option (PipeReadResult × Bytes)
after (msg, some result) go_on = some (result, msg)
after (msg, none) go_on = go_on msg

-- The loop, on fuel; `rounds` gives the answers of the system, and `i` counts the rounds.
unfoldable pub read_loop : ℕ → (ℕ → Round) → ℕ → Bytes → Option (PipeReadResult × Bytes)
read_loop zero rounds i msg = none
read_loop (suc fuel) rounds i msg =
    after (read_round (rounds i) msg) (λ msg'. read_loop fuel rounds (suc i) msg')

-- `ReadPipeMessageWithTimeout`. A round that goes on has made the message longer, so there are at most
-- as many as a message may have bytes, and one more.
unfoldable pub read_message : (ℕ → Round) → Option (PipeReadResult × Bytes)
read_message rounds = read_loop (suc max_msg_bytes) rounds 0 []

-- One slice of `ReadPipeMessageUntilDone`, as it is answered: the outcome of the read, with its bytes,
-- whether the process has ended, and the tick count.
pub record Slice : Type 0 where
  pub result : PipeReadResult
  pub message : Bytes
  pub has_exited : Bool
  pub tick : ℕ

-- `INFINITE`
abbrev pub infinite : ℕ
infinite = 2 ^ 32 - 1

abbrev pub is_timeout : PipeReadResult → Bool
is_timeout timed_out = true
is_timeout _ = false

-- What one slice comes to: a result, or another slice. The flag says that there is a process handle;
-- the difference of two 64-bit counts wraps around.
unfoldable pub slice_result : Bool → ℕ → ℕ → Slice → Option PipeReadResult
slice_result has_process overall start slice =
    if not (is_timeout slice.result)
    then some slice.result
    else if not has_process
    then some timed_out
    else if slice.has_exited
    then some broker_exited
    else if not (overall == infinite) && leb overall ((slice.tick + 2 ^ 64 - start) % 2 ^ 64)
    then some timed_out
    else none

-- `return` with the bytes of the slice, or the next slice.
abbrev pub result_or :
    Option PipeReadResult
    → Bytes
    → Option (PipeReadResult × Bytes)
    → Option (PipeReadResult × Bytes)
result_or (some result) msg next = some (result, msg)
result_or none msg next = next

-- `ReadPipeMessageUntilDone`, on fuel. How long a slice waits, `sliceTimeoutMs` or 30000 where that is 0,
-- shows only in the slices, which are answers of the system.
unfoldable pub read_until : ℕ → Bool → ℕ → ℕ → (ℕ → Slice) → ℕ → Option (PipeReadResult × Bytes)
read_until zero has_process overall start slices i = none
read_until (suc fuel) has_process overall start slices i =
    let next = read_until fuel has_process overall start slices (suc i) in
    result_or (slice_result has_process overall start (slices i)) (slices i).message next

-- What `ConnectNamedPipe` and its error say.
pub data Connect : Type 0 where
  no_event at_once already refused : Connect
  completed : (succeeded pipe_connected : Bool) → Connect  -- `GetOverlappedResult`, or its error
  exited_first timed_out_first wait_broken : Connect

-- `WaitPipeClientConnect`
unfoldable pub wait_connect : Connect → PipeConnectResult
wait_connect no_event = PipeConnectResult.failed
wait_connect at_once = PipeConnectResult.connected
wait_connect already = PipeConnectResult.connected
wait_connect refused = PipeConnectResult.failed
wait_connect (completed succeeded pipe_connected) =
    if succeeded || pipe_connected then PipeConnectResult.connected else PipeConnectResult.failed
wait_connect exited_first = PipeConnectResult.broker_exited
wait_connect timed_out_first = PipeConnectResult.timed_out
wait_connect wait_broken = PipeConnectResult.failed
