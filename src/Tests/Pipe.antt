-- ===== src/Tests/Pipe.antt =====
-- The theorems on the transport at concrete inputs.
use dot1xcp.Base.{
  ℕ, zero, suc, ◌+◌, ◌*◌, ◌≤◌, ◌≡◌, refl, ◌↔◌, true, false, some, [], arith, length, Bytes, codes,
}
use dot1xcp.Response.{PipeReadResult, ok, timed_out}
use dot1xcp.Transport.{
  done, signalled, Round, part, pending, max_msg_bytes, Slice, slice_result, read_message,
  read_until,
}
use dot1xcp.Transport.Message.{Delivers, read_message_iff}
use dot1xcp.Transport.Deadline.{Ticks, elapsed, read_until-returns, read_until-timed_out}

-- A message in two parts, the second of which is waited for.
abbrev rounds : ℕ → Round
rounds zero = part (codes "{\"ty")
rounds (suc i) = pending (signalled (done (codes "pe\":\"A\"}")))

read_message_iff_example : (read_message rounds ≡ some (ok, codes "{\"type\":\"A\"}")) ↔ (
    Delivers rounds 0 (codes "{\"type\":\"A\"}")
    × (length (codes "{\"type\":\"A\"}") ≤ max_msg_bytes))
read_message_iff_example = read_message_iff rounds (codes "{\"type\":\"A\"}")

-- A broker that says nothing, read in slices of 250 milliseconds.
abbrev silence : ℕ → Slice
silence k = record { result = timed_out; message = []; has_exited = false; tick = 1250 + k * 250 }

silence-Ticks : Ticks 1200 1000 silence
silence-Ticks k h = (omega arith, omega (arith, h))

read_until-returns_example :
    (r : PipeReadResult × Bytes) × (read_until (suc 1200) true 1200 1000 silence 0 ≡ some r)
read_until-returns_example = read_until-returns true 1200 1000 silence (omega arith) silence-Ticks

times_out : read_until 6 true 1200 1000 silence 0 ≡ some (timed_out, [])
unfolding read_until slice_result
times_out = refl

read_until-timed_out_example :
    (n : ℕ) × (0 ≤ n) × ((silence n).has_exited ≡ false) × (1200 ≤ elapsed 1000 (silence n))
read_until-timed_out_example = read_until-timed_out 6 1200 1000 silence 0 [] times_out
