-- ===== src/Response/Repeat.antt =====
-- How the polls of a session that waits go on (src/broker/ProviderSerialization.cpp,
-- src/core/Provider.cpp, src/core/ProviderCore.cpp).
use dot1xcp.Base.{
  ℕ, suc, ◌≡◌, refl, sym, ap, subst, ◌∙◌, ◌⊎◌, inl, inr, true, false, some, arith, codes,
  bytes_eq_iff,
}
use dot1xcp.State.{State}
use dot1xcp.Flags.{set_awaiting_final}
use dot1xcp.Refresh.{request_refresh, fire}
use dot1xcp.Refresh.Stale.{request_refresh-fire}
use dot1xcp.Broker.{update_flow_state}
use dot1xcp.Broker.Close.{notices}
use dot1xcp.Json.Message.{Msg, parse_json_line}
use dot1xcp.Json.Message.Object.{empty_msg}
use dot1xcp.Response.{
  Env, Usage, usage_logon, timed_out, handle_read, handle_bytes, handle_message, get_serialization,
}
use dot1xcp.Response.Replies.{Received, not_empty}
use dot1xcp.Response.Recovery.{IsOpen, polls_session}
use dot1xcp.Provider.{set_selected}
use dot1xcp.Provider.Select.{set_selected-submits}
use dot1xcp.Invariant.Session.{Consistent}

-- The broker asks to wait for its final message, or says nothing while the session waits for it.
abbrev pub AsksAgain : Env → State → Type 0
AsksAgain env s =
    ((env.read ≡ timed_out) × (s.awaiting_final ≡ true))
    ⊎ ((m : Msg) × Received env "AUTH_PENDING" m)

-- The session as `s` leaves it, waiting.
record StillWaits (s u : State) : Type 0 where
  same_pending : u.refresh_pending ≡ s.refresh_pending
  same_events : u.events ≡ s.events
  no_notice : notices u.trace ≡ notices s.trace
  is_active : u.active ≡ true
  awaits : u.awaiting_final ≡ true

pending-StillWaits :
    (s : State)
    → s.active ≡ true
    → StillWaits s (update_flow_state 1 true (set_awaiting_final true s))
unfolding update_flow_state set_awaiting_final
pending-StillWaits s active = ground (arith, active)

told_pending :
    (env : Env) (usage : Usage) (s : State) (m : Msg)
    → parse_json_line env.message empty_msg ≡ (m, true)
    → m.type ≡ codes "AUTH_PENDING"
    → let u = update_flow_state 1 true (set_awaiting_final true s) in
      (handle_bytes env env.message usage s).0
      ≡ request_refresh env.os.allocated env.os.created 300 u.generation u
unfolding handle_bytes handle_message
told_pending env usage s m parsed type =
    let is_pending = (bytes_eq_iff m.type (codes "AUTH_PENDING")).1 type in
    rw (handle_bytes, parsed) (rw (handle_message, is_pending) refl)

-- What such a poll asks for.
asks :
    (env : Env) (usage : Usage) (s : State)
    → s.active ≡ true
    → AsksAgain env s
    → (delay : ℕ) × (u : State) × ((handle_read env usage env.read s).0
        ≡ request_refresh env.os.allocated env.os.created delay u.generation u)
      × StillWaits s u
unfolding handle_read
asks env usage s active (inl (silent, waits)) = (
  _,
  s,
  ap (λ r. (handle_read env usage r s).0) silent,
  record {
    same_pending = refl;
    same_events = refl;
    no_notice = refl;
    is_active = active;
    awaits = waits;
  },
)
asks env usage s active (inr (m, (is_ok, parsed, type))) = (
  300,
  update_flow_state 1 true (set_awaiting_final true s),
  ap (λ r. (handle_read env usage r s).0) is_ok
      ∙ rw (not_empty env.message m parsed) (told_pending env usage s m parsed type),
  pending-StillWaits s active,
)

-- The timer fires, and the tile is selected.
repeats :
    (delay now o : ℕ) (u : State)
    → u.refresh_pending ≡ false
    → u.events ≡ some o
    → u.active ≡ true
    → u.awaiting_final ≡ true
    → let t = fire 0 (request_refresh true true delay u.generation u) in
      (t.active ≡ true)
      × (notices t.trace ≡ suc (notices u.trace))
      × ((set_selected now usage_logon t).0 ≡ true)
repeats delay now o u idle registered active awaits =
    let fired = request_refresh-fire delay o u idle registered in
    subst
      (λ t.
        (t.active ≡ true)
        × (notices t.trace ≡ suc (notices u.trace))
        × ((set_selected now usage_logon t).0 ≡ true))
      (sym fired)
      (active, refl, set_selected-submits now usage_logon _ ∙ ground (arith, active, awaits))

-- When a poll of an open session reads AUTH_PENDING, or reads nothing in time while the session waits
-- for its final message, an events object is registered, no refresh is pending, and the refresh can be
-- allocated: the session stays active, and once the timer that the poll set has fired, the logon screen
-- has been notified once more and the tile is submitted without the user as soon as it is selected, at
-- any tick, so that the session is polled again.
pub waiting-set_selected :
    (env : Env) (usage : Usage) (now o : ℕ) (s : State)
    → Consistent s
    → IsOpen s
    → AsksAgain env s
    → s.refresh_pending ≡ false
    → s.events ≡ some o
    → (env.os.allocated ≡ true) × (env.os.created ≡ true)
    → let t = fire 0 (get_serialization env true usage s).0 in
      (t.active ≡ true)
      × (notices t.trace ≡ suc (notices s.trace))
      × ((set_selected now usage_logon t).0 ≡ true)
waiting-set_selected env usage now o s c h again idle registered allocations =
    let active : s.active ≡ true = ground (arith, c, h) in
    let (delay, u, is, same) = asks env usage s active again in
    let requested =
      ap (λ q. q.0) (polls_session env usage s h)
      ∙ is
      ∙ ap (λ a. request_refresh a env.os.created delay u.generation u) allocations.0
      ∙ ap (λ a. request_refresh true a delay u.generation u) allocations.1 in
    let (stays, notified, submits) =
      repeats delay now o u (same.same_pending ∙ idle) (same.same_events ∙ registered)
        same.is_active same.awaits in
    subst
      (λ v.
        ((fire 0 v).active ≡ true)
        × (notices (fire 0 v).trace ≡ suc (notices s.trace))
        × ((set_selected now usage_logon (fire 0 v)).0 ≡ true))
      (sym requested) (stays, notified ∙ ap suc same.no_notice, submits)
