-- ===== src/Broker/Close.antt =====
-- What closing the session leaves alone, and what it makes out of date
-- (src/broker/ProviderBrokerSession.cpp, src/core/Provider.cpp).
use dot1xcp.Base.{ℕ, suc, ◌+◌, ◌%◌, ◌≡◌, false, Option, [], ◌∷◌, arith}
use dot1xcp.State.{State, Pi, Trace, word, credentials_changed}
use dot1xcp.Flags.{set_session_active, set_awaiting_final}
use dot1xcp.Broker.{
  Os, close_process, close_thread, wait_and_close, close_pipe, update_flow_state, reset_session,
  close_session_now,
}

-- How often a trace calls `CredentialsChanged`.
abbrev pub notices : Trace → ℕ
notices [] = 0
notices (credentials_changed context ∷ t) = suc (notices t)
notices (e ∷ t) = notices t

-- A step from `s` to `t` that keeps the registered object, the timers, and the request to submit, and that
-- notifies nobody.
pub record Quiet (s t : State) : Type 0 where
  pub same_events : t.events ≡ s.events
  pub same_context : t.events_context ≡ s.events_context
  pub same_timers : t.timers ≡ s.timers
  pub same_pending : t.refresh_pending ≡ s.refresh_pending
  pub same_force : t.force_next ≡ s.force_next
  pub no_notice : notices t.trace ≡ notices s.trace

-- The session before `s` has ended: its generation is over, and no submission counts as made.
pub record Ended (s t : State) : Type 0 where
  pub next_generation : t.generation ≡ (s.generation + 1) % word
  pub no_tick : t.auto_submit_tick ≡ 0
  pub not_awaiting : t.awaiting_final ≡ false

close_process-notices :
    (os : Os) (p : Option ℕ) (t : Trace) → notices (close_process os p t) ≡ notices t
unfolding close_process
close_process-notices os p t = ground arith

pub wait_and_close-notices :
    (os : Os) (pi : Pi) (t : Trace) → notices (wait_and_close os pi t) ≡ notices t
unfolding wait_and_close close_thread
wait_and_close-notices os pi t = ground (arith, close_process-notices os pi.process t)

pub reset_session-Quiet :
    (os : Os) (s : State) → Quiet s (reset_session os s) × Ended s (reset_session os s)
unfolding reset_session close_pipe set_session_active update_flow_state
reset_session-Quiet os s = ground (
  arith,
  wait_and_close-notices os s.pi s.trace,
  wait_and_close-notices os s.pi (close_pipe s).trace,
)

pub close_session_now-Quiet :
    (os : Os) (s : State) → Quiet s (close_session_now os s) × Ended s (close_session_now os s)
unfolding close_session_now set_session_active set_awaiting_final update_flow_state
close_session_now-Quiet os s = ground (arith, reset_session-Quiet os s)
