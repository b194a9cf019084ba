-- ===== src/Transport/Deadline.antt =====
-- Reading until there is an outcome (src/broker/ProviderPipeTransport.cpp:
-- `ReadPipeMessageUntilDone`).
use dot1xcp.Base.{
  ℕ, zero, suc, ◌+◌, ◌-◌, ◌%◌, ◌^◌, ◌≤◌, ◌<◌, ◌≡◌, sym, ap, ◌∙◌, inl, inr, Bool, true, false, none,
  some, arith, Option-cases, some-eq-some, Bytes,
}
use dot1xcp.Response.{PipeReadResult, timed_out}
use dot1xcp.Transport.{Slice, infinite, slice_result, read_until, result_or}

-- The clock, for as many slices as may be needed: slice `k` ends `k` milliseconds behind the start at
-- the earliest, and the count of milliseconds has 64 bits. A slice that times out has waited for longer
-- than a millisecond.
abbrev pub Ticks : ℕ → ℕ → (ℕ → Slice) → Type 0
Ticks overall start slices =
    (k : ℕ) → k ≤ overall → (start + k ≤ (slices k).tick) × ((slices k).tick < 2 ^ 64)

abbrev pub elapsed : ℕ → Slice → ℕ
elapsed start slice = (slice.tick + 2 ^ 64 - start) % 2 ^ 64

elapsed-is :
    (start k tick : ℕ) → start + k ≤ tick → tick < 2 ^ 64 → k ≤ (tick + 2 ^ 64 - start) % 2 ^ 64
elapsed-is start k tick a b = omega arith

-- Another slice follows only before the deadline.
slice_result-early :
    (has_process : Bool) (overall start : ℕ) (slice : Slice)
    → overall < infinite
    → slice_result has_process overall start slice ≡ none
    → elapsed start slice < overall
unfolding slice_result
slice_result-early has_process overall start slice finite h = ground arith

-- A slice that times out although the process has not ended has reached the deadline.
slice_result-timed_out :
    (overall start : ℕ) (slice : Slice)
    → slice_result true overall start slice ≡ some timed_out
    → (slice.has_exited ≡ false) × (overall ≤ elapsed start slice)
unfolding slice_result
slice_result-timed_out overall start slice h = ground arith

pub read_until-stops :
    (fuel : ℕ) (has_process : Bool) (overall start : ℕ) (slices : ℕ → Slice) (i : ℕ)
    {r : PipeReadResult}
    → slice_result has_process overall start (slices i) ≡ some r
    → read_until (suc fuel) has_process overall start slices i ≡ some (r, (slices i).message)
unfolding read_until
read_until-stops fuel has_process overall start slices i h =
    ap
      (λ o.
        result_or o (slices i).message (read_until fuel has_process overall start slices (suc i)))
      h

read_until-goes_on :
    (fuel : ℕ) (has_process : Bool) (overall start : ℕ) (slices : ℕ → Slice) (i : ℕ)
    → slice_result has_process overall start (slices i) ≡ none
    → read_until (suc fuel) has_process overall start slices i
      ≡ read_until fuel has_process overall start slices (suc i)
unfolding read_until
read_until-goes_on fuel has_process overall start slices i h =
    ap
      (λ o.
        result_or o (slices i).message (read_until fuel has_process overall start slices (suc i)))
      h

loop-returns :
    (fuel : ℕ) (has_process : Bool) (overall start : ℕ) (slices : ℕ → Slice) (i : ℕ)
    → overall < infinite
    → Ticks overall start slices
    → overall < fuel + i
    → i ≤ overall
    → (r : PipeReadResult × Bytes) × (read_until fuel has_process overall start slices i ≡ some r)
loop-returns zero has_process overall start slices i finite ticks enough early =
    absurd (omega arith)
loop-returns (suc fuel) has_process overall start slices i finite ticks enough early =
    let (at, below) = ticks i early in
    let passed = elapsed-is start i (slices i).tick at below in
    elim (Option-cases (slice_result has_process overall start (slices i))) [
      | inr (r, e) ↦
          ((r, (slices i).message), read_until-stops fuel has_process overall start slices i e)
      | inl e ↦
          let early' = slice_result-early has_process overall start (slices i) finite e in
          let (r, returns) =
            loop-returns fuel has_process overall start slices (suc i) finite ticks
              (omega (arith, enough)) (omega (arith, passed, early')) in
          (r, read_until-goes_on fuel has_process overall start slices i e ∙ returns)
    ]

-- `ReadPipeMessageUntilDone` returns after at most one slice more than the overall timeout has
-- milliseconds, where that is not INFINITE and every slice takes a millisecond at least.
pub read_until-returns :
    (has_process : Bool) (overall start : ℕ) (slices : ℕ → Slice)
    → overall < infinite
    → Ticks overall start slices
    → (r : PipeReadResult × Bytes) × (read_until (suc overall) has_process overall start slices 0
        ≡ some r)
read_until-returns has_process overall start slices finite ticks =
    loop-returns (suc overall) has_process overall start slices 0 finite ticks (omega arith)
      (omega arith)

-- While there is a process to watch, `ReadPipeMessageUntilDone` reports a timeout only after a slice at
-- whose end the process had not ended and the overall timeout had passed.
pub read_until-timed_out :
    (fuel overall start : ℕ) (slices : ℕ → Slice) (i : ℕ) (m : Bytes)
    → read_until fuel true overall start slices i ≡ some (timed_out, m)
    → (n : ℕ) × (i ≤ n) × ((slices n).has_exited ≡ false) × (overall ≤ elapsed start (slices n))
unfolding read_until
read_until-timed_out zero overall start slices i m h = cc
read_until-timed_out (suc fuel) overall start slices i m h =
    elim (Option-cases (slice_result true overall start (slices i))) [
      | inr (r, e) ↦
          let is =
            ap (λ q. q.0)
              (some-eq-some (sym (read_until-stops fuel true overall start slices i e) ∙ h)) in
          let (alive, due) = slice_result-timed_out overall start (slices i) (e ∙ ap some is) in
          (i, omega arith, alive, due)
      | inl e ↦
          let (n, later, alive, due) =
            read_until-timed_out fuel overall start slices (suc i) m
              (sym (read_until-goes_on fuel true overall start slices i e) ∙ h) in
          (n, omega (arith, later), alive, due)
    ]
