-- ===== src/Invariant/Phase.antt =====
-- What the session waits for is stored twice: as `g_brokerAwaitingFinal` (src/core/Provider.cpp) and as
-- `g_lastBrokerFlowState` (src/broker/ProviderBrokerSession.cpp).
use dot1xcp.Base.{
  ℕ, ◌≡◌, refl, ◌∙◌, inl, inr, Bool, true, false, ◌&&◌, Option, none, some, List, [], ◌∷◌, arith,
  ◌==◌, Bool-cases, Option-cases, is_empty, Bytes, codes, bytes_eq,
}
use dot1xcp.State.{State, initial, is_some}
use dot1xcp.Flags.{
  set_session_active, set_awaiting_final, arm_force_next, reset_force_next, consume_force_next,
  mark_tick, try_acquire_window,
}
use dot1xcp.Refresh.{
  request_refresh, fire, refresh_callback, set_provider_events, clear_provider_events,
}
use dot1xcp.Broker.{Os, close_pipe, update_flow_state, reset_session, close_session_now}
use dot1xcp.Json.Message.{Msg, parse_json_line}
use dot1xcp.Json.Message.Object.{empty_msg}
use dot1xcp.Response.{
  Env, Usage, PipeReadResult, ok, timed_out, broker_exited, failed, Reply, start_session,
  launch_session, connect_session, detach, end_session, close_broker, handle_read,
  handle_read_failure, handle_message, handle_bytes, poll_session, get_serialization,
}
use dot1xcp.Provider.{
  set_usage_scenario, decide_forced, decide_active, decide_idle, decide, set_selected,
  set_deselected,
}
use dot1xcp.Run.{Call, polls, uses, selects, deselects, fires, advises, unadvises, step, run}
use dot1xcp.Invariant.Session.{Consistent, Started, start_session-Started}
use dot1xcp.Invariant.Steps.{step-Consistent}
use dot1xcp.Invariant.History.{initial-Consistent}

-- The session waits for a final message exactly in flow state 1, and a session that is not active is
-- in flow state 0.
abbrev pub InPhase : State → Type 0
InPhase s = (s.awaiting_final ≡ (s.flow_state == 1)) × (s.active ≡ false → s.flow_state ≡ 0)

reset_session-InPhase : (os : Os) (s : State) → InPhase (reset_session os s)
unfolding reset_session set_session_active update_flow_state
reset_session-InPhase os s = ground arith

close_session_now-InPhase : (os : Os) (s : State) → InPhase (close_session_now os s)
unfolding close_session_now set_session_active set_awaiting_final update_flow_state
close_session_now-InPhase os s = ground arith

close_session_now-idle : (os : Os) (s : State) → (close_session_now os s).flow_state ≡ 0
unfolding close_session_now update_flow_state
close_session_now-idle os s = ground arith

ends-InPhase : (os : Os) (s : State) → InPhase (close_broker os s.pi (end_session s))
unfolding close_broker end_session set_session_active set_awaiting_final update_flow_state
ends-InPhase os s = ground arith

request_refresh-InPhase :
    (a c : Bool) (d g : ℕ) (s : State) → InPhase s → InPhase (request_refresh a c d g s)
unfolding request_refresh
request_refresh-InPhase a c d g s v = ground arith

failure-InPhase :
    (env : Env) (r : PipeReadResult) (s : State) → InPhase (handle_read_failure env r s).0
unfolding handle_read_failure arm_force_next
failure-InPhase env ok s = ends-InPhase env.os s
failure-InPhase env timed_out s = ends-InPhase env.os s
failure-InPhase env broker_exited s = request_refresh-InPhase _ _ 50 _ _ (ends-InPhase env.os s)
failure-InPhase env failed s = request_refresh-InPhase _ _ 50 _ _ (ends-InPhase env.os s)

-- A message that asks to wait, in an active session.
waits-InPhase :
    (a c awaiting : Bool) (d g n : ℕ) (s : State)
    → s.active ≡ true
    → awaiting ≡ (n == 1)
    → InPhase (request_refresh a c d g (update_flow_state n true (set_awaiting_final awaiting s)))
unfolding update_flow_state set_awaiting_final
waits-InPhase a c awaiting d g n s active e = request_refresh-InPhase a c d g _ (ground arith)

handle_message-InPhase :
    (env : Env) (m : Msg) (usage : Usage) (s : State)
    → s.active ≡ true
    → InPhase (handle_message env m usage s).0
unfolding handle_message
handle_message-InPhase env m usage s active =
    elim (Bool-cases (bytes_eq m.type (codes "AUTH_PENDING"))) [
      | inl p ↦ rw p (waits-InPhase _ _ true 300 _ 1 s active refl)
      | inr p ↦ rw p (elim (Bool-cases (bytes_eq m.type (codes "AUTH_IDLE"))) [
        | inl i ↦ rw i (waits-InPhase _ _ false 2500 _ 2 s active refl)
        | inr i ↦ rw i (ends-InPhase env.os s)
      ])
    ]

handle_bytes-InPhase :
    (env : Env) (bytes : Bytes) (usage : Usage) (s : State)
    → s.active ≡ true
    → InPhase (handle_bytes env bytes usage s).0
unfolding handle_bytes reset_session set_session_active set_awaiting_final update_flow_state
handle_bytes-InPhase env bytes usage s active =
    elim (Bool-cases (parse_json_line bytes empty_msg).1) [
      | inl p ↦ rw p (handle_message-InPhase env (parse_json_line bytes empty_msg).0 usage s active)
      | inr p ↦ rw p (ground arith)
    ]

handle_read-InPhase :
    (env : Env) (usage : Usage) (r : PipeReadResult) (s : State)
    → InPhase s
    → s.active ≡ true
    → InPhase (handle_read env usage r s).0
unfolding handle_read
handle_read-InPhase env usage timed_out s v active = request_refresh-InPhase _ _ _ _ s v
handle_read-InPhase env usage broker_exited s v active = failure-InPhase env broker_exited s
handle_read-InPhase env usage failed s v active = failure-InPhase env failed s
handle_read-InPhase env usage ok s v active = elim (Bool-cases (is_empty env.message)) [
  | inl n ↦ rw n (failure-InPhase env ok s)
  | inr n ↦ rw n (handle_bytes-InPhase env env.message usage s active)
]

connect_session-InPhase :
    (env : Env) (s : State) → InPhase s → s.flow_state ≡ 0 → InPhase (connect_session env s).0
unfolding connect_session close_broker detach close_pipe set_session_active set_awaiting_final
    update_flow_state
connect_session-InPhase env s v idle = ground arith

launch_session-InPhase :
    (env : Env) (s : State) → InPhase s → s.flow_state ≡ 0 → InPhase (launch_session env s).0
unfolding launch_session
launch_session-InPhase env s v idle = elim (Option-cases env.launch) [
  | inl e ↦ rw (e, launch_session) (reset_session-InPhase env.os _)
  | inr (l, e) ↦ rw (e, launch_session) (connect_session-InPhase env _ v idle)
]

unopened :
    (s : State) → Consistent s → (is_some s.pipe && is_some s.pi.process) ≡ false → s.active ≡ false
unopened s c e = ground (arith, c, e)

start_session-InPhase :
    (env : Env) (s : State) → Consistent s → InPhase s → InPhase (start_session env s).0
unfolding start_session
start_session-InPhase env s c v = elim (Bool-cases (is_some s.pipe && is_some s.pi.process)) [
  | inl e ↦ rw e v
  | inr e ↦ rw e (elim (Option-cases env.pipe) [
    | inl n ↦ rw n v
    | inr (h, n) ↦ rw n (launch_session-InPhase env _ v (v.1 (unopened s c e)))
  ])
]

poll_session-InPhase :
    (env : Env) (usage : Usage) (r : State × Option Reply)
    → Started r
    → InPhase r.0
    → InPhase (poll_session env usage r).0
unfolding poll_session
poll_session-InPhase env usage (s, none) g v =
    handle_read-InPhase env usage env.read s v (g.0.active_is ∙ g.1)
poll_session-InPhase env usage (s, some reply) g v = v

get_serialization-InPhase :
    (env : Env) (outputs : Bool) (usage : Usage) (s : State)
    → Consistent s
    → InPhase s
    → InPhase (get_serialization env outputs usage s).0
unfolding get_serialization
get_serialization-InPhase env false usage s c v = v
get_serialization-InPhase env true usage s c v =
    poll_session-InPhase env usage (start_session env s) (start_session-Started env s c)
      (start_session-InPhase env s c v)

set_usage_scenario-InPhase :
    (os : Os) (usage : Usage) (s : State) → InPhase s → InPhase (set_usage_scenario os usage s).2
unfolding set_usage_scenario reset_force_next set_session_active set_awaiting_final
set_usage_scenario-InPhase os usage s v = ground (
  arith,
  v,
  close_session_now-InPhase os s,
  close_session_now-InPhase os (record s { force_next = false }),
  close_session_now-idle os s,
  close_session_now-idle os (record s { force_next = false }),
)

set_selected-InPhase :
    (now : ℕ) (usage : Usage) (s : State) → InPhase s → InPhase (set_selected now usage s).1
unfolding set_selected decide decide_active decide_idle decide_forced consume_force_next mark_tick
    try_acquire_window
set_selected-InPhase now usage s v = ground (arith, v)

set_deselected-InPhase :
    (os : Os) (usage : Usage) (s : State) → InPhase s → InPhase (set_deselected os usage s)
unfolding set_deselected arm_force_next
set_deselected-InPhase os usage s v = ground (arith, v, close_session_now-InPhase os s)

fire-InPhase : (i : ℕ) (s : State) → InPhase s → InPhase (fire i s)
unfolding fire refresh_callback
fire-InPhase i s v = ground (arith, v)

advise-InPhase :
    (o : Option ℕ) (context : ℕ) (s : State) → InPhase s → InPhase (set_provider_events o context s)
unfolding set_provider_events
advise-InPhase o context s v = ground (arith, v)

unadvise-InPhase : (s : State) → InPhase s → InPhase (clear_provider_events s)
unfolding clear_provider_events
unadvise-InPhase s v = ground (arith, v)

step-InPhase : (c : Call) (s : State) → Consistent s → InPhase s → InPhase (step c s)
unfolding step
step-InPhase (polls env outputs usage) s c v = get_serialization-InPhase env outputs usage s c v
step-InPhase (uses os usage) s c v = set_usage_scenario-InPhase os usage s v
step-InPhase (selects now usage) s c v = set_selected-InPhase now usage s v
step-InPhase (deselects os usage) s c v = set_deselected-InPhase os usage s v
step-InPhase (fires i) s c v = fire-InPhase i s v
step-InPhase (advises o context) s c v = advise-InPhase o context s v
step-InPhase unadvises s c v = unadvise-InPhase s v

run-InPhase : (cs : List Call) (s : State) → Consistent s → InPhase s → InPhase (run cs s)
unfolding run
run-InPhase [] s c v = v
run-InPhase (call ∷ cs) s c v =
    run-InPhase cs (step call s) (step-Consistent call c) (step-InPhase call s c v)

-- After any sequence of calls, the session waits for a final message exactly if the flow state is 1
-- (AUTH_PENDING), and without an active session the flow state is 0.
pub run-initial-InPhase : (cs : List Call) → InPhase (run cs initial)
run-initial-InPhase cs = run-InPhase cs initial initial-Consistent (refl, λ e. refl)
