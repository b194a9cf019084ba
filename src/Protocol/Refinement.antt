-- ===== src/Protocol/Refinement.antt =====
-- The calls follow the protocol (src/core/ProviderCore.cpp, src/core/Provider.cpp).
use dot1xcp.Protocol.Poll.{get_serialization-phase}
use dot1xcp.Base.{
  ℕ, ◌≡◌, refl, ap, ◌∙◌, inl, inr, true, false, Option, List, [], ◌∷◌, arith, if◌then◌else◌,
  Bool-cases,
}
use dot1xcp.State.{State, initial}
use dot1xcp.Flags.{
  set_session_active, set_awaiting_final, arm_force_next, reset_force_next, consume_force_next,
  mark_tick, try_acquire_window,
}
use dot1xcp.Refresh.{fire, refresh_callback, set_provider_events, clear_provider_events}
use dot1xcp.Broker.{Os, update_flow_state, reset_session, close_session_now}
use dot1xcp.Response.{Usage, get_serialization}
use dot1xcp.Provider.{
  is_logon, set_usage_scenario, decide_forced, decide_active, decide_idle, decide, set_selected,
  set_deselected,
}
use dot1xcp.Run.{Call, polls, uses, selects, deselects, fires, advises, unadvises, step, run}
use dot1xcp.Invariant.Session.{Consistent}
use dot1xcp.Invariant.Steps.{step-Consistent}
use dot1xcp.Invariant.History.{initial-Consistent}
use dot1xcp.Protocol.{off, moves, moves_all, phase_of, phase}

set_usage_scenario-phase :
    (os : Os) (usage : Usage) (s : State)
    → phase (set_usage_scenario os usage s).2 ≡ (if is_logon usage then phase s else off)
unfolding set_usage_scenario reset_force_next set_session_active set_awaiting_final phase_of
set_usage_scenario-phase os usage s = elim (Bool-cases (is_logon usage)) [
  | inr l ↦ rw l refl
  | inl l ↦ elim (Bool-cases s.active) [ inl a ↦ rw (l, a) refl | inr a ↦ rw (l, a) refl ]
]

close_session_now-off : (os : Os) (s : State) → phase (close_session_now os s) ≡ off
unfolding close_session_now reset_session set_session_active set_awaiting_final update_flow_state
    phase_of
close_session_now-off os s = ground arith

set_deselected-phase :
    (os : Os) (usage : Usage) (s : State)
    → phase (set_deselected os usage s) ≡ (if is_logon usage then off else phase s)
unfolding set_deselected arm_force_next phase_of
set_deselected-phase os usage s = elim (Bool-cases (is_logon usage)) [
  | inr l ↦ rw l refl
  | inl l ↦ elim (Bool-cases s.active) [
    | inl a ↦ rw (l, a) (close_session_now-off os (record s { active = true }))
    | inr a ↦ rw (l, a) refl
  ]
]

set_selected-phase :
    (now : ℕ) (usage : Usage) (s : State) → phase (set_selected now usage s).1 ≡ phase s
unfolding set_selected decide decide_active decide_idle decide_forced consume_force_next mark_tick
    try_acquire_window
set_selected-phase now usage s = ground arith

fire-phase : (i : ℕ) (s : State) → phase (fire i s) ≡ phase s
unfolding fire refresh_callback
fire-phase i s = ground arith

advise-phase :
    (o : Option ℕ) (context : ℕ) (s : State) → phase (set_provider_events o context s) ≡ phase s
unfolding set_provider_events
advise-phase o context s = ground arith

unadvise-phase : (s : State) → phase (clear_provider_events s) ≡ phase s
unfolding clear_provider_events
unadvise-phase s = ground arith

step-phase : (call : Call) (s : State) → Consistent s → phase (step call s) ≡ moves call (phase s)
unfolding step moves get_serialization
step-phase (polls env true usage) s c = get_serialization-phase env usage s c
step-phase (polls env false usage) s c = refl
step-phase (uses os usage) s c = set_usage_scenario-phase os usage s
step-phase (selects now usage) s c = set_selected-phase now usage s
step-phase (deselects os usage) s c = set_deselected-phase os usage s
step-phase (fires i) s c = fire-phase i s
step-phase (advises o context) s c = advise-phase o context s
step-phase unadvises s c = unadvise-phase s

run-phase :
    (calls : List Call) (s : State) → Consistent s → phase (run calls s) ≡ moves_all calls (phase s)
unfolding run moves_all
run-phase [] s c = refl
run-phase (call ∷ calls) s c =
    run-phase calls (step call s) (step-Consistent call c)
    ∙ ap (moves_all calls) (step-phase call s c)

-- After any sequence of calls, the session is in the phase that the protocol gives: started where it can
-- be, waiting or idle as the broker said last, and off behind every other message, AUTH_FAIL among them,
-- behind every failure, behind leaving the tile, and behind scenarios other than the logon.
pub run-initial-phase : (calls : List Call) → phase (run calls initial) ≡ moves_all calls off
unfolding phase_of
run-initial-phase calls = run-phase calls initial initial-Consistent
