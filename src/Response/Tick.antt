-- ===== src/Response/Tick.antt =====
-- Polls that leave the tick of the last submission alone (src/broker/ProviderSerialization.cpp).
use dot1xcp.Base.{
  ℕ, ◌≡◌, refl, sym, ◌∙◌, inl, inr, Bool, true, false, ◌&&◌, Option, none, some, arith, Bool-cases,
  Option-cases, is_empty, Bytes, codes, bytes_eq,
}
use dot1xcp.State.{State, is_some}
use dot1xcp.Flags.{set_session_active, set_awaiting_final}
use dot1xcp.Refresh.{request_refresh}
use dot1xcp.Broker.{Os, reset_session, update_flow_state}
use dot1xcp.Json.Message.{Msg, parse_json_line}
use dot1xcp.Json.Message.Object.{empty_msg}
use dot1xcp.Response.{
  Env, Usage, PipeReadResult, ok, timed_out, broker_exited, failed, Reply, connect_session,
  launch_session, start_session, handle_read, handle_message, handle_bytes, poll_session,
  get_serialization,
}
use dot1xcp.Invariant.Session.{Consistent, Started, start_session-Started, reset_session-IsClosed}
use dot1xcp.Response.Waiting.{ends-connected, failure-connected}

-- If `t` has a session that does not wait for its final answer, its tick is that of `s`.
abbrev KeepsTick : State → State → Type 0
KeepsTick s t =
    t.connected ≡ true → t.awaiting_final ≡ false → t.auto_submit_tick ≡ s.auto_submit_tick

request-KeepsTick :
    (a c : Bool) (d g : ℕ) (s t : State) → KeepsTick s t → KeepsTick s (request_refresh a c d g t)
unfolding request_refresh
request-KeepsTick a c d g s t k h w = ground (arith, k, h, w)

pending-KeepsTick : (s : State) → KeepsTick s (update_flow_state 1 true (set_awaiting_final true s))
unfolding update_flow_state set_awaiting_final
pending-KeepsTick s h w = ground (arith, w)

idle-KeepsTick : (s : State) → KeepsTick s (update_flow_state 2 true (set_awaiting_final false s))
unfolding update_flow_state set_awaiting_final
idle-KeepsTick s h w = ground (arith, w)

handle_message-KeepsTick :
    (env : Env) (m : Msg) (usage : Usage) (s : State) → KeepsTick s (handle_message env m usage s).0
unfolding handle_message
handle_message-KeepsTick env m usage s =
    elim (Bool-cases (bytes_eq m.type (codes "AUTH_PENDING"))) [
      | inl e ↦ rw e (request-KeepsTick _ _ _ _ s _ (pending-KeepsTick s))
      | inr e ↦ rw e (elim (Bool-cases (bytes_eq m.type (codes "AUTH_IDLE"))) [
        | inl i ↦ rw i (request-KeepsTick _ _ _ _ s _ (idle-KeepsTick s))
        | inr i ↦ rw i (λ h w. cc (sym (ends-connected env.os s) ∙ h))
      ])
    ]

reset_all-connected :
    (os : Os) (s : State)
    → (update_flow_state 0 false (set_awaiting_final false (reset_session os s))).connected ≡ false
unfolding update_flow_state set_awaiting_final
reset_all-connected os s = ground (arith, (reset_session-IsClosed os s).disconnected)

handle_bytes-KeepsTick :
    (env : Env) (bytes : Bytes) (usage : Usage) (s : State)
    → KeepsTick s (handle_bytes env bytes usage s).0
unfolding handle_bytes
handle_bytes-KeepsTick env bytes usage s = elim (Bool-cases (parse_json_line bytes empty_msg).1) [
  | inl e ↦ rw e (handle_message-KeepsTick env (parse_json_line bytes empty_msg).0 usage s)
  | inr e ↦ rw e (λ h w. cc (sym (reset_all-connected env.os s) ∙ h))
]

handle_read-KeepsTick :
    (env : Env) (usage : Usage) (r : PipeReadResult) (s : State)
    → KeepsTick s (handle_read env usage r s).0
unfolding handle_read
handle_read-KeepsTick env usage timed_out s = request-KeepsTick _ _ _ _ s s (λ h w. refl)
handle_read-KeepsTick env usage ok s = elim (Bool-cases (is_empty env.message)) [
  | inl e ↦ rw e (λ h w. cc (sym (failure-connected env ok s) ∙ h))
  | inr e ↦ rw e (handle_bytes-KeepsTick env env.message usage s)
]
handle_read-KeepsTick env usage broker_exited s =
    λ h w. cc (sym (failure-connected env broker_exited s) ∙ h)
handle_read-KeepsTick env usage failed s = λ h w. cc (sym (failure-connected env failed s) ∙ h)

-- A start that gives no reply keeps the tick.
abbrev StartsTick : State → State × Option Reply → Type 0
StartsTick s (t, reply) = reply ≡ none → t.auto_submit_tick ≡ s.auto_submit_tick

connect_session-StartsTick : (env : Env) (s : State) → StartsTick s (connect_session env s)
unfolding connect_session set_session_active set_awaiting_final update_flow_state
connect_session-StartsTick env s h = ground (arith, h)

launch_session-StartsTick : (env : Env) (s : State) → StartsTick s (launch_session env s)
unfolding launch_session
launch_session-StartsTick env s h = elim (Option-cases env.launch) [
  | inl e ↦ cc (rw (e, launch_session) at h)
  | inr (l, e) ↦
      rw (e, launch_session) (connect_session-StartsTick env _ (rw (e, launch_session) at h))
]

start_session-StartsTick : (env : Env) (s : State) → StartsTick s (start_session env s)
unfolding start_session
start_session-StartsTick env s h = elim (Bool-cases (is_some s.pipe && is_some s.pi.process)) [
  | inl e ↦ rw e refl
  | inr e ↦ elim (Option-cases env.pipe) [
    | inl n ↦ cc (rw (e, n) at h)
    | inr (p, n) ↦ rw (e, n) (launch_session-StartsTick env _ (rw (e, n) at h))
  ]
]

-- A poll behind which there is a session that does not wait for its final answer keeps the tick.
pub get_serialization-tick :
    (env : Env) (outputs : Bool) (usage : Usage) (s : State)
    → Consistent s
    → (get_serialization env outputs usage s).0.connected ≡ true
    → (get_serialization env outputs usage s).0.awaiting_final ≡ false
    → (get_serialization env outputs usage s).0.auto_submit_tick ≡ s.auto_submit_tick
unfolding get_serialization poll_session
get_serialization-tick env false usage s v h w = refl
get_serialization-tick env true usage s v h w =
    polled (start_session env s) (start_session-Started env s v) (start_session-StartsTick env s) h
      w
  where
    polled :
        (q : State × Option Reply)
        → Started q
        → StartsTick s q
        → KeepsTick s (poll_session env usage q).0
    polled (t, none) g k h w = handle_read-KeepsTick env usage env.read t h w ∙ k refl
    polled (t, some reply) c k h w = cc (sym c.disconnected ∙ h)
