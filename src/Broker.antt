-- ===== src/Broker.antt =====
-- The broker session (src/broker/ProviderBrokerSession.cpp).
pub mod Close
use dot1xcp.Base.{ℕ, Bool, false, not, ◌&&◌, ◌||◌, Option, none, some, ◌∷◌, ◌==◌, if◌then◌else◌}
use dot1xcp.State.{State, Pi, no_process, Trace, emit, is_some, closed, terminated, flow_logged}
use dot1xcp.Flags.{set_session_active, set_awaiting_final}

-- What `WaitForSingleObject` may return for the broker process.
pub data Wait : Type 0 where
  exited timed_out failed : Wait

-- The answers of the operating system while one process is waited for and closed.
pub record Os : Type 0 where
  pub wait : Wait
  pub terminates : Bool
  pub allocated : Bool
  pub created : Bool

-- `WaitAndCloseBrokerProcess`: a process that does not exit in time is terminated, and both handles
-- are closed. The value of `pi` afterwards is `no_process`.
unfoldable pub close_process : Os → Option ℕ → Trace → Trace
close_process os none t = t
close_process os (some h) t =
    closed h ∷ (elim os.wait [ timed_out ↦ if os.terminates then terminated h ∷ t else t | _ ↦ t ])

unfoldable pub close_thread : Option ℕ → Trace → Trace
close_thread none t = t
close_thread (some h) t = closed h ∷ t

unfoldable pub wait_and_close : Os → Pi → Trace → Trace
wait_and_close os pi t = close_thread pi.thread (close_process os pi.process t)

-- `ClosePipeHandle` of the session's pipe.
unfoldable pub close_pipe : State → State
close_pipe s = elim s.pipe [ none ↦ s | some h ↦ record (emit (closed h) s) { pipe = none } ]

-- `UpdateBrokerFlowState`; the flag says whether there is a text to log.
unfoldable pub update_flow_state : ℕ → Bool → State → State
update_flow_state state has_log s =
    if has_log && not (s.flow_state == state)
    then record (emit (flow_logged state) s) { flow_state = state }
    else record s { flow_state = state }

-- `ResetBrokerSession`
unfoldable pub reset_session : Os → State → State
reset_session os s =
    let s1 = close_pipe s in
    let s2 = record s1 {
      trace = wait_and_close os s1.pi s1.trace;
      pi = no_process;
      connected = false;
    } in
    update_flow_state 0 false (set_session_active false s2)

-- `CloseBrokerSessionNow`
unfoldable pub close_session_now : Os → State → State
close_session_now os s =
    let s1 =
      if is_some s.pipe || is_some s.pi.process || is_some s.pi.thread || s.connected
      then reset_session os s
      else set_session_active false s in
    update_flow_state 0 false (set_awaiting_final false s1)
