-- ===== src/Response/Recovery.antt =====
-- What follows when the broker ends in the middle of a session (src/broker/ProviderSerialization.cpp,
-- src/core/Provider.cpp, src/core/ProviderCore.cpp).
use dot1xcp.Base.{
  ℕ, suc, ◌<◌, ◌≡◌, refl, sym, ap, subst, ◌∙◌, Bool, true, false, ◌&&◌, some, [], ◌∷◌, arith, All,
}
use dot1xcp.State.{State, Refresh, word, is_some}
use dot1xcp.Flags.{set_session_active, set_awaiting_final, arm_force_next}
use dot1xcp.Refresh.{request_refresh, refresh_callback, fire}
use dot1xcp.Refresh.Stale.{IsFrom, fire-stale, next-ne, request_refresh-fire}
use dot1xcp.Broker.{close_pipe, update_flow_state}
use dot1xcp.Broker.Close.{notices, Quiet, Ended, wait_and_close-notices}
use dot1xcp.Response.{
  Env, Usage, usage_logon, broker_exited, start_session, detach, end_session, close_broker,
  handle_read, handle_read_failure, poll_session, get_serialization,
}
use dot1xcp.Provider.{set_selected}
use dot1xcp.Provider.Select.{set_selected-submits}
use dot1xcp.Invariant.Session.{IsClosed, end_session-IsClosed}

-- There is a pipe and a broker process.
abbrev pub IsOpen : State → Type 0
IsOpen s = (is_some s.pipe && is_some s.pi.process) ≡ true

pub polls_session :
    (env : Env) (usage : Usage) (s : State)
    → IsOpen s
    → get_serialization env true usage s ≡ handle_read env usage env.read s
unfolding get_serialization poll_session start_session
polls_session env usage s h = rw h refl

-- The session as a broken-off read leaves it, before the next one is asked for.
abbrev pub ended_session : Env → State → State
ended_session env s = close_broker env.os s.pi (end_session s)

pub ended_session-Quiet :
    (env : Env) (s : State) → Quiet s (ended_session env s) × Ended s (ended_session env s)
unfolding close_broker end_session detach close_pipe set_session_active set_awaiting_final
    update_flow_state
ended_session-Quiet env s = ground (arith, wait_and_close-notices env.os s.pi (detach s).trace)

ended_session-IsClosed : (env : Env) (s : State) → IsClosed (ended_session env s)
unfolding close_broker
ended_session-IsClosed env s = ground (arith, end_session-IsClosed s)

after_exit :
    (env : Env) (usage : Usage) (s : State)
    → IsOpen s
    → env.read ≡ broker_exited
    → (get_serialization env true usage s).0
      ≡ request_refresh env.os.allocated env.os.created 50
          (ended_session env s).generation
          (record (ended_session env s) { force_next = true })
unfolding handle_read handle_read_failure arm_force_next
after_exit env usage s h e =
    ap (λ q. q.0) (polls_session env usage s h ∙ ap (λ r. handle_read env usage r s) e)

forced :
    (now : ℕ) (s : State)
    → s.active ≡ false
    → s.force_next ≡ true
    → (set_selected now usage_logon s).0 ≡ true
forced now s a f = set_selected-submits now usage_logon s ∙ ground (arith, a, f)

no_second :
    (a c : Bool) (d g : ℕ) (s : State) → s.refresh_pending ≡ true → request_refresh a c d g s ≡ s
unfolding request_refresh
no_second a c d g s p = rw p refl

-- What a fired timer leaves of the state it fires in.
abbrev Fired : State → State → Type 0
Fired s t =
    (t.timers ≡ s.timers)
    × (t.refresh_pending ≡ false)
    × (t.force_next ≡ s.force_next)
    × (IsClosed s → IsClosed t)

callback-Fired : (r : Refresh) (s : State) → Fired s (refresh_callback r s)
unfolding refresh_callback
callback-Fired r s = ground arith

fires_last :
    (s : State) (r : Refresh)
    → s.timers ≡ r ∷ []
    → fire 0 s ≡ refresh_callback r (record s { timers = [] })
unfolding fire
fires_last s r alone = rw (alone, fire) refl

-- When the broker exits before it sent a final message, an events object is registered, no refresh is
-- pending, and the refresh can be allocated: the poll closes the session, and once the timer that it
-- set has fired, the logon screen has been notified once more and the tile is submitted without the
-- user as soon as it is selected, at any tick.
pub broker_exited-set_selected :
    (env : Env) (usage : Usage) (now o : ℕ) (s : State)
    → IsOpen s
    → env.read ≡ broker_exited
    → s.refresh_pending ≡ false
    → s.events ≡ some o
    → (env.os.allocated ≡ true) × (env.os.created ≡ true)
    → let t = fire 0 (get_serialization env true usage s).0 in
      IsClosed t
      × (notices t.trace ≡ suc (notices s.trace))
      × ((set_selected now usage_logon t).0 ≡ true)
broker_exited-set_selected env usage now o s h e idle registered allocations =
    let u = record (ended_session env s) { force_next = true } in
    let (quiet, ended) = ended_session-Quiet env s in
    let c = ended_session-IsClosed env s in
    let requested =
      after_exit env usage s h e
      ∙ ap (λ a. request_refresh a env.os.created 50 u.generation u) allocations.0
      ∙ ap (λ a. request_refresh true a 50 u.generation u) allocations.1 in
    let fired =
      ap (fire 0) requested
      ∙ request_refresh-fire 50 o u (quiet.same_pending ∙ idle) (quiet.same_events ∙ registered) in
    subst
      (λ t.
        IsClosed t
        × (notices t.trace ≡ suc (notices s.trace))
        × ((set_selected now usage_logon t).0 ≡ true))
      (sym fired) (ground (arith, c), ap suc quiet.no_notice, forced now _ c.inactive refl)

-- When the broker exits while the one refresh that may wait was asked for earlier in the same session,
-- whose generation is a number of 32 bits:
-- the poll asks for no other, and the one that waits notifies nobody when it fires. No timer is left,
-- though the session is closed and a submission is requested.
pub broker_exited-lost :
    (env : Env) (usage : Usage) (r : Refresh) (s : State)
    → IsOpen s
    → env.read ≡ broker_exited
    → (s.refresh_pending ≡ true) × (s.timers ≡ r ∷ [])
    → (r.generation ≡ s.generation) × (s.generation < word)
    → let t = fire 0 (get_serialization env true usage s).0 in
      IsClosed t
      × (t.force_next ≡ true)
      × (notices t.trace ≡ notices s.trace)
      × (t.timers ≡ [])
      × (t.refresh_pending ≡ false)
broker_exited-lost env usage r s h e waiting current =
    let u = record (ended_session env s) { force_next = true } in
    let (quiet, ended) = ended_session-Quiet env s in
    let alone = quiet.same_timers ∙ waiting.1 in
    let last = fires_last u r alone in
    let (left, idle, force, closes) = callback-Fired r (record u { timers = [] }) in
    let kept =
      after_exit env usage s h e
      ∙ no_second env.os.allocated env.os.created 50 u.generation u
          (quiet.same_pending ∙ waiting.0) in
    let stale =
      fire-stale 0 s.generation u (subst (All (IsFrom s.generation)) (sym alone) (current.0, tt))
        (rw ended.next_generation (next-ne s.generation current.1)) in
    let silent = sym (ap (λ v. notices v.trace) last) ∙ stale ∙ quiet.no_notice in
    subst
      (λ t.
        IsClosed t
        × (t.force_next ≡ true)
        × (notices t.trace ≡ notices s.trace)
        × (t.timers ≡ [])
        × (t.refresh_pending ≡ false))
      (sym (ap (fire 0) kept ∙ last))
      (closes (ground (arith, ended_session-IsClosed env s)), force, silent, left, idle)
