-- ===== src/Provider/Window.antt =====
-- When the tile is not submitted a second time (src/core/ProviderCore.cpp, src/core/Provider.cpp).
use dot1xcp.Base.{
  ◌∙◌, Option, none, ℕ, ◌<◌, ◌≡◌, true, false, not, ◌&&◌, ◌||◌, subst, sym, List, [], ◌∷◌, arith,
  leb, ◌==◌, Bool,
}
use dot1xcp.State.{State}
use dot1xcp.Flags.{consume_force_next, mark_tick, try_acquire_window}
use dot1xcp.Refresh.{fire, refresh_callback, set_provider_events, clear_provider_events}
use dot1xcp.Response.{Env, Usage, usage_logon, get_serialization}
use dot1xcp.Provider.{decide_active, decide_forced, decide_idle, decide, set_selected}
use dot1xcp.Provider.Select.{elapsed, submitted, denied, shut_window}
use dot1xcp.Invariant.Session.{Consistent, get_serialization-Consistent}
use dot1xcp.Invariant.Steps.{step-Consistent}
use dot1xcp.Response.Tick.{get_serialization-tick}
use dot1xcp.Run.{Call, polls, uses, selects, deselects, fires, advises, unadvises, step, run}

-- A submission counts at `now`, no session waits for its final answer, and none has left a request to
-- submit once.
record Shut (now : ℕ) (s : State) : Type 0 where
  tick : s.auto_submit_tick ≡ now
  not_awaiting : (s.active && s.awaiting_final) ≡ false
  unforced : (not s.active && s.force_next) ≡ false

-- A callback, a change of the events object, a selection of the tile within 2500 milliseconds after
-- `now`, or a poll behind which there is a session, started or kept, that does not wait for its final
-- answer.
abbrev pub IsCalm : ℕ → Call → State → Type 0
IsCalm now (selects later usage) s = elapsed now later < 2500
IsCalm now (fires i) s = Unit
IsCalm now (advises o context) s = Unit
IsCalm now unadvises s = Unit
IsCalm now (polls env outputs usage) s =
    let t = (get_serialization env outputs usage s).0 in
    (t.connected ≡ true) × (t.awaiting_final ≡ false)
IsCalm now (uses os usage) s = ⊥
IsCalm now (deselects os usage) s = ⊥

abbrev pub AreCalm : ℕ → List Call → State → Type 0
AreCalm now [] s = Unit
AreCalm now (c ∷ cs) s = IsCalm now c s × AreCalm now cs (step c s)

poll-Shut :
    (env : Env) (outputs : Bool) (usage : Usage) (now : ℕ) (s : State)
    → Consistent s
    → IsCalm now (polls env outputs usage) s
    → Shut now s
    → Shut now (get_serialization env outputs usage s).0
poll-Shut env outputs usage now s v (there, idle) h =
    let t = (get_serialization env outputs usage s).0 in
    let active : t.active ≡ true =
      (get_serialization-Consistent env outputs usage v).active_is ∙ there in
    record {
      tick = get_serialization-tick env outputs usage s v there idle ∙ h.tick;
      not_awaiting = ground (arith, idle);
      unforced = ground (arith, active);
    }

fire-Shut : (i now : ℕ) (s : State) → Shut now s → Shut now (fire i s)
unfolding fire refresh_callback
fire-Shut i now s h = ground (arith, h)

advise-Shut :
    (o : Option ℕ) (context now : ℕ) (s : State)
    → Shut now s
    → Shut now (set_provider_events o context s)
unfolding set_provider_events
advise-Shut o context now s h = ground (arith, h)

select-Shut :
    (now later : ℕ) (usage : Usage) (s : State)
    → 0 < now
    → elapsed now later < 2500
    → Shut now s
    → Shut now (set_selected later usage s).1
unfolding set_selected decide decide_active decide_idle decide_forced consume_force_next
    try_acquire_window mark_tick
select-Shut now later usage s positive soon h =
    ground (arith, h, shut_window now later positive soon)

step-Shut :
    (c : Call) (now : ℕ) (s : State)
    → 0 < now
    → Consistent s
    → IsCalm now c s
    → Shut now s
    → Shut now (step c s)
unfolding step clear_provider_events set_provider_events
step-Shut (polls env outputs usage) now s positive v calm h =
    poll-Shut env outputs usage now s v calm h
step-Shut (uses os usage) now s positive v calm h = elim calm [ ]
step-Shut (deselects os usage) now s positive v calm h = elim calm [ ]
step-Shut (selects later usage) now s positive v soon h =
    select-Shut now later usage s positive soon h
step-Shut (fires i) now s positive v calm h = fire-Shut i now s h
step-Shut (advises o context) now s positive v calm h = advise-Shut o context now s h
step-Shut unadvises now s positive v calm h = advise-Shut none 0 now s h

run-Shut :
    (cs : List Call) (now : ℕ) (s : State)
    → 0 < now
    → Consistent s
    → AreCalm now cs s
    → Shut now s
    → Shut now (run cs s)
unfolding run
run-Shut [] now s positive v calm h = h
run-Shut (c ∷ cs) now s positive v calm h =
    run-Shut cs now (step c s) positive (step-Consistent c v) calm.1
      (step-Shut c now s positive v calm.0 h)

submitted-Shut :
    (now : ℕ) (s : State)
    → (s.active && s.awaiting_final) ≡ false
    → (set_selected now usage_logon s).0 ≡ true
    → Shut now (set_selected now usage_logon s).1
submitted-Shut now s idle first =
    let (a, w, n, f) = submitted now s idle first in
    record { tick = n; not_awaiting = rw (a, w) idle; unforced = f }

-- Once the tile was submitted without the user at a tick `now` other than 0, with session variables that
-- agree and no session that waited for its final answer, and if since then there were only callbacks,
-- changes of the events object, selections of the tile within 2500 milliseconds after `now`, and polls
-- behind which there was a session that did not wait for its final answer: it is not submitted again
-- within 2500 milliseconds after `now`, over a wrap-around of the clock too. Nothing is said behind the
-- end of a session or behind AUTH_PENDING, which reset the tick.
pub run-set_selected :
    (now later : ℕ) (cs : List Call) (s : State)
    → Consistent s
    → (s.active && s.awaiting_final) ≡ false
    → 0 < now
    → (set_selected now usage_logon s).0 ≡ true
    → AreCalm now cs (set_selected now usage_logon s).1
    → elapsed now later < 2500
    → (set_selected later usage_logon (run cs (set_selected now usage_logon s).1)).0 ≡ false
unfolding step
run-set_selected now later cs s v idle positive first calm soon =
    let t = run cs (set_selected now usage_logon s).1 in
    let h =
      run-Shut cs now (set_selected now usage_logon s).1 positive
        (step-Consistent (selects now usage_logon) v) calm (submitted-Shut now s idle first) in
    denied later t h.not_awaiting h.unforced (
      subst (λ x. (x == 0 || leb 2500 (elapsed x later)) ≡ false) (sym h.tick)
        (shut_window now later positive soon))
