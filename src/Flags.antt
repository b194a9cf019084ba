-- ===== src/Flags.antt =====
-- The flags behind the interlocked operations of src/core/Provider.cpp.
use dot1xcp.Base.{ℕ, ◌+◌, ◌-◌, ◌%◌, Bool, true, false, ◌||◌, leb, ◌==◌, if◌then◌else◌}
use dot1xcp.State.{State, word}

-- `GetBrokerSessionGeneration`, `IsCurrentSessionGeneration`
abbrev pub is_current : ℕ → State → Bool
is_current generation s = generation == s.generation

-- `TryAcquireAutoSubmitWindow`, at the tick `now`; the difference of two DWORDs wraps around.
unfoldable pub try_acquire_window : ℕ → ℕ → State → Bool × State
try_acquire_window min_interval now s =
    let elapsed = (now + word - s.auto_submit_tick) % word in
    if s.auto_submit_tick == 0 || leb min_interval elapsed
    then (true, record s { auto_submit_tick = now })
    else (false, s)

-- `MarkAutoSubmitTickNow`, at the tick `now`
unfoldable pub mark_tick : ℕ → State → State
mark_tick now s = record s { auto_submit_tick = now }

-- `SetBrokerSessionActive`; `InterlockedIncrement` wraps around.
unfoldable pub set_session_active : Bool → State → State
set_session_active true s = record s { active = true }
set_session_active false s = record s {
  active = false;
  awaiting_final = false;
  auto_submit_tick = 0;
  generation = (s.generation + 1) % word;
}

-- `SetBrokerAwaitingFinal`
unfoldable pub set_awaiting_final : Bool → State → State
set_awaiting_final true s = record s { awaiting_final = true; auto_submit_tick = 0 }
set_awaiting_final false s = record s { awaiting_final = false }

-- `ArmForceNextAutoSubmit`
unfoldable pub arm_force_next : State → State
arm_force_next s = record s { force_next = true }

-- `ResetForceNextAutoSubmit`
unfoldable pub reset_force_next : State → State
reset_force_next s = record s { force_next = false }

-- `ConsumeForceNextAutoSubmit`: the compare-and-exchange of 1 for 0.
unfoldable pub consume_force_next : State → Bool × State
consume_force_next s = if s.force_next then (true, record s { force_next = false }) else (false, s)
