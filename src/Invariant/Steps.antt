-- ===== src/Invariant/Steps.antt =====
-- What every relation that the small operations respect, and the agreement of the session's variables,
-- are under each call (src/core/ProviderCore.cpp, src/core/Provider.cpp, src/broker/ProviderSerialization.cpp).
use dot1xcp.Base.{ℕ, Bool, true, false, not, Option, arith, if◌then◌else◌}
use dot1xcp.State.{State}
use dot1xcp.Flags.{
  set_session_active, set_awaiting_final, arm_force_next, reset_force_next, consume_force_next,
  mark_tick, try_acquire_window,
}
use dot1xcp.Refresh.{fire, refresh_callback, set_provider_events, clear_provider_events}
use dot1xcp.Broker.{Os, update_flow_state, reset_session, close_session_now}
use dot1xcp.Response.{Usage, usage_logon}
use dot1xcp.Provider.{
  set_usage_scenario, decide_forced, min_submit_interval, decide_active, decide_idle, decide,
  set_selected, set_deselected,
}
use dot1xcp.Run.{Call, polls, uses, selects, deselects, fires, advises, unadvises, step}
use dot1xcp.Invariant.Session.{Consistent, close_session_now-IsClosed, get_serialization-Consistent}
use dot1xcp.Invariant.Poll.{Rules, get_serialization-Rules}

module _ (R : State → State → Type 0) (rules : Rules R) where
  open rules use {chain}

  -- Both branches of a test, where its result is a state or ends in one.
  if-Rules : (b : Bool) (s t u : State) → R s t → R s u → R s (if b then t else u)
  if-Rules true s t u p q = p
  if-Rules false s t u p q = q

  if_pair-Rules :
      (b : Bool) (s : State) (p q : Bool × State) → R s p.1 → R s q.1 → R s (if b then p else q).1
  if_pair-Rules true s p q g h = g
  if_pair-Rules false s p q g h = h

  if_triple-Rules :
      (b : Bool) (s : State) (p q : Bool × Bool × State)
      → R s p.2
      → R s q.2
      → R s (if b then p else q).2
  if_triple-Rules true s p q g h = g
  if_triple-Rules false s p q g h = h

  close_session_now-Rules : (os : Os) (s : State) → R s (close_session_now os s)
  unfolding close_session_now
  close_session_now-Rules os s = then_idle _ (
      if-Rules _ s (reset_session os s) (set_session_active false s) (rules.resets os s)
        (rules.activity false s))
    where
      then_idle : (t : State) → R s t → R s (update_flow_state 0 false (set_awaiting_final false t))
      then_idle t r =
          let u = set_awaiting_final false t in
          chain s t (update_flow_state 0 false u) r (
            chain t u (update_flow_state 0 false u) (rules.awaiting false t) (rules.flow 0 false u))

  inactive-Rules :
      (s t : State) → R s t → R s (set_awaiting_final false (set_session_active false t))
  inactive-Rules s t r =
      let u = set_session_active false t in
      chain s t (set_awaiting_final false u) r
        (chain t u (set_awaiting_final false u) (rules.activity false t) (rules.awaiting false u))

  leave-Rules :
      (os : Os) (s : State)
      → R s (
          set_awaiting_final false
            (set_session_active false (close_session_now os (record s { force_next = false }))))
  leave-Rules os s =
      let t = record s { force_next = false } in
      inactive-Rules s (close_session_now os t)
        (chain s t (close_session_now os t) (rules.force false s) (close_session_now-Rules os t))

  set_usage_scenario-Rules :
      (os : Os) (usage : Usage) (s : State) → R s (set_usage_scenario os usage s).2
  unfolding set_usage_scenario reset_force_next
  set_usage_scenario-Rules os usage_logon s =
      let t = close_session_now os s in
      let u = record t { force_next = false } in
      if-Rules (not s.active) s _ s
        (inactive-Rules s u (chain s t u (close_session_now-Rules os s) (rules.force false t)))
        (rules.none_changed s)
  set_usage_scenario-Rules os _ s = leave-Rules os s

  try_acquire_window-Rules :
      (min_interval now : ℕ) (s : State) → R s (try_acquire_window min_interval now s).1
  unfolding try_acquire_window
  try_acquire_window-Rules min_interval now s =
      if_pair-Rules _ s _ _ (rules.tick now s) (rules.none_changed s)

  decide_active-Rules : (now : ℕ) (s : State) → R s (decide_active now s).2
  unfolding decide_active
  decide_active-Rules now s =
      if_triple-Rules s.awaiting_final s _ _ (rules.none_changed s)
        (try_acquire_window-Rules min_submit_interval now s)

  decide_forced-Rules :
      (now : ℕ) (s : State) (r : Bool × State) → R s r.1 → R s (decide_forced now r).2
  unfolding decide_forced mark_tick
  decide_forced-Rules now s (true, t) g =
      chain s t (record t { auto_submit_tick = now }) g (rules.tick now t)
  decide_forced-Rules now s (false, t) g =
      chain s t (try_acquire_window min_submit_interval now t).1 g
        (try_acquire_window-Rules min_submit_interval now t)

  decide_idle-Rules : (now : ℕ) (s : State) → R s (decide_idle now s).2
  unfolding decide_idle consume_force_next
  decide_idle-Rules now s =
      decide_forced-Rules now s (consume_force_next s)
        (if_pair-Rules s.force_next s _ _ (rules.force false s) (rules.none_changed s))

  decide-Rules : (now : ℕ) (usage : Usage) (s : State) → R s (decide now usage s).2
  unfolding decide
  decide-Rules now usage s =
      if_triple-Rules _ s _ _ (rules.none_changed s)
        (if_triple-Rules s.active s _ _ (decide_active-Rules now s) (decide_idle-Rules now s))

  set_selected-Rules : (now : ℕ) (usage : Usage) (s : State) → R s (set_selected now usage s).1
  unfolding set_selected
  set_selected-Rules now usage s =
      chain s (decide now usage s).2 (set_selected now usage s).1 (decide-Rules now usage s)
        (rules.decision _ (decide now usage s).2)

  set_deselected-Rules : (os : Os) (usage : Usage) (s : State) → R s (set_deselected os usage s)
  unfolding set_deselected arm_force_next
  set_deselected-Rules os usage s =
      let t = close_session_now os s in
      if-Rules _ s (record t { force_next = true }) s
        (chain s t (record t { force_next = true }) (close_session_now-Rules os s)
          (rules.force true t))
        (rules.none_changed s)

  pub step-Rules : (c : Call) (s : State) → Consistent s → R s (step c s)
  unfolding step
  step-Rules (polls env outputs usage) s v = get_serialization-Rules R rules env outputs usage s v
  step-Rules (uses os usage) s v = set_usage_scenario-Rules os usage s
  step-Rules (selects now usage) s v = set_selected-Rules now usage s
  step-Rules (deselects os usage) s v = set_deselected-Rules os usage s
  step-Rules (fires i) s v = rules.fires i s
  step-Rules (advises o context) s v = rules.advises o context s
  step-Rules unadvises s v = rules.unadvises s

set_usage_scenario-Consistent :
    (os : Os) (usage : Usage) {s : State}
    → Consistent s
    → Consistent (set_usage_scenario os usage s).2
unfolding set_usage_scenario reset_force_next set_session_active set_awaiting_final
set_usage_scenario-Consistent os usage {s} v = ground (
  arith,
  close_session_now-IsClosed os s,
  close_session_now-IsClosed os (record s { force_next = false }),
)

set_selected-Consistent :
    (now : ℕ) (usage : Usage) {s : State} → Consistent s → Consistent (set_selected now usage s).1
unfolding set_selected decide decide_active decide_idle decide_forced consume_force_next mark_tick
    try_acquire_window
set_selected-Consistent now usage v = ground arith

set_deselected-Consistent :
    (os : Os) (usage : Usage) {s : State} → Consistent s → Consistent (set_deselected os usage s)
unfolding set_deselected arm_force_next
set_deselected-Consistent os usage {s} v = ground (arith, close_session_now-IsClosed os s)

fire-Consistent : (i : ℕ) {s : State} → Consistent s → Consistent (fire i s)
unfolding fire refresh_callback
fire-Consistent i v = ground arith

advise-Consistent :
    (o : Option ℕ) (context : ℕ) {s : State}
    → Consistent s
    → Consistent (set_provider_events o context s)
unfolding set_provider_events
advise-Consistent o context v = ground arith

unadvise-Consistent : {s : State} → Consistent s → Consistent (clear_provider_events s)
unfolding clear_provider_events
unadvise-Consistent v = ground arith

pub step-Consistent : (c : Call) {s : State} → Consistent s → Consistent (step c s)
unfolding step
step-Consistent (polls env outputs usage) v = get_serialization-Consistent env outputs usage v
step-Consistent (uses os usage) v = set_usage_scenario-Consistent os usage v
step-Consistent (selects now usage) v = set_selected-Consistent now usage v
step-Consistent (deselects os usage) v = set_deselected-Consistent os usage v
step-Consistent (fires i) v = fire-Consistent i v
step-Consistent (advises o context) v = advise-Consistent o context v
step-Consistent unadvises v = unadvise-Consistent v
