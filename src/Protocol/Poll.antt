-- ===== src/Protocol/Poll.antt =====
-- A poll follows the protocol (src/broker/ProviderSerialization.cpp).
use dot1xcp.Base.{
  ℕ, ◌≡◌, refl, sym, ap, ◌∙◌, ◌≢◌, inl, inr, Bool, true, false, ◌&&◌, Option, none, some, arith,
  if◌then◌else◌, Bool-cases, Option-cases, is_empty, Bytes, codes, bytes_eq,
}
use dot1xcp.State.{State, is_some}
use dot1xcp.Flags.{set_session_active, set_awaiting_final, arm_force_next}
use dot1xcp.Refresh.{request_refresh}
use dot1xcp.Broker.{Os, close_pipe, update_flow_state, reset_session}
use dot1xcp.Json.Message.{Msg, parse_json_line}
use dot1xcp.Json.Message.Object.{empty_msg}
use dot1xcp.Response.{
  Env, Usage, PipeReadResult, ok, timed_out, broker_exited, failed, Reply, start_session,
  PipeConnectResult, launch_session, connect_session, detach, end_session, close_broker,
  handle_read, handle_read_failure, handle_message, handle_bytes, poll_session, get_serialization,
}
use dot1xcp.Invariant.Session.{Consistent}
use dot1xcp.Protocol.{
  is_connected, Phase, off, fresh, waiting, idle, word_of, heard_bytes, heard, starts, next, polled,
  phase_of, phase,
}

phase-off : (s : State) → s.active ≡ false → phase s ≡ off
unfolding phase_of
phase-off s h = rw h refl

request_refresh-phase :
    (a c : Bool) (d g : ℕ) (s : State) → phase (request_refresh a c d g s) ≡ phase s
unfolding request_refresh
request_refresh-phase a c d g s = ground arith

ends-off : (os : Os) (s : State) → phase (close_broker os s.pi (end_session s)) ≡ off
unfolding close_broker end_session set_session_active set_awaiting_final update_flow_state detach
    phase_of
ends-off os s = refl

reset_session-off : (os : Os) (s : State) → phase (reset_session os s) ≡ off
unfolding reset_session set_session_active update_flow_state phase_of
reset_session-off os s = refl

failure-off :
    (env : Env) (r : PipeReadResult) (s : State) → phase (handle_read_failure env r s).0 ≡ off
unfolding handle_read_failure arm_force_next
failure-off env ok s = ends-off env.os s
failure-off env timed_out s = ends-off env.os s
failure-off env broker_exited s = request_refresh-phase _ _ 50 _ _ ∙ ends-off env.os s
failure-off env failed s = request_refresh-phase _ _ 50 _ _ ∙ ends-off env.os s

-- A message that asks to wait, in an active session.
waits-phase :
    (awaiting : Bool) (n : ℕ) (s : State)
    → s.active ≡ true
    → phase (update_flow_state n true (set_awaiting_final awaiting s)) ≡ phase_of true n
unfolding update_flow_state set_awaiting_final phase_of
waits-phase awaiting n s active = ground arith

handle_message-phase :
    (env : Env) (m : Msg) (usage : Usage) (s : State)
    → s.active ≡ true
    → phase (handle_message env m usage s).0 ≡ next (word_of m.type) (phase s)
unfolding handle_message word_of phase_of
handle_message-phase env m usage s active =
    elim (Bool-cases (bytes_eq m.type (codes "AUTH_PENDING"))) [
      | inl p ↦ rw p (request_refresh-phase _ _ 300 _ _ ∙ waits-phase true 1 s active)
      | inr p ↦ rw p (elim (Bool-cases (bytes_eq m.type (codes "AUTH_IDLE"))) [
        | inl i ↦ rw i (request_refresh-phase _ _ 2500 _ _ ∙ waits-phase false 2 s active)
        | inr i ↦ rw i (ends-off env.os s)
      ])
    ]

handle_bytes-phase :
    (env : Env) (bytes : Bytes) (usage : Usage) (s : State)
    → s.active ≡ true
    → phase (handle_bytes env bytes usage s).0 ≡ next (heard_bytes bytes) (phase s)
unfolding handle_bytes heard_bytes reset_session set_session_active set_awaiting_final
    update_flow_state phase_of
handle_bytes-phase env bytes usage s active =
    elim (Bool-cases (parse_json_line bytes empty_msg).1) [
      | inl p ↦ rw p (handle_message-phase env (parse_json_line bytes empty_msg).0 usage s active)
      | inr p ↦ rw p refl
    ]

handle_read-phase :
    (env : Env) (usage : Usage) (r : PipeReadResult) (s : State)
    → s.active ≡ true
    → phase (handle_read env usage r s).0 ≡ next (heard r env.message) (phase s)
unfolding handle_read heard
handle_read-phase env usage timed_out s active = request_refresh-phase _ _ _ _ s
handle_read-phase env usage broker_exited s active = failure-off env broker_exited s
handle_read-phase env usage failed s active = failure-off env failed s
handle_read-phase env usage ok s active = elim (Bool-cases (is_empty env.message)) [
  | inl n ↦ rw n (failure-off env ok s)
  | inr n ↦ rw n (handle_bytes-phase env env.message usage s active)
]

-- A session that is started, or a state without one and a reply.
abbrev Begins : Bool → State × Option Reply → Type 0
Begins true (s, reply) = (reply ≡ none) × (s.active ≡ true) × (phase s ≡ fresh)
Begins false (s, reply) = (r : Reply) × (reply ≡ some r) × (phase s ≡ off)

connect_session-Begins :
    (env : Env) (s : State) → Begins (is_connected env.connect) (connect_session env s)
unfolding connect_session close_broker detach close_pipe set_session_active set_awaiting_final
    update_flow_state phase_of
connect_session-Begins env s = go env.connect refl
  where
    go :
        (c : PipeConnectResult)
        → env.connect ≡ c
        → Begins (is_connected env.connect) (connect_session env s)
    go PipeConnectResult.connected e = rw (e, connect_session) (refl, refl, refl)
    go PipeConnectResult.timed_out e = rw (e, connect_session) (_, refl, refl)
    go PipeConnectResult.broker_exited e = rw (e, connect_session) (_, refl, refl)
    go PipeConnectResult.failed e = rw (e, connect_session) (_, refl, refl)

launch_session-Begins :
    (env : Env) (s : State)
    → Begins
        (elim env.launch [ none ↦ false | some l ↦ is_connected env.connect ])
        (launch_session env s)
unfolding launch_session
launch_session-Begins env s = elim (Option-cases env.launch) [
  | inl e ↦ rw (e, launch_session) (_, refl, reset_session-off env.os _)
  | inr (l, e) ↦ rw (e, launch_session) (connect_session-Begins env _)
]

start_session-Begins :
    (env : Env) (s : State)
    → (is_some s.pipe && is_some s.pi.process) ≡ false
    → s.active ≡ false
    → Begins (starts env) (start_session env s)
unfolding start_session starts
start_session-Begins env s e inactive = rw e (elim (Option-cases env.pipe) [
  | inl n ↦ rw (n, start_session, starts) (_, refl, phase-off s inactive)
  | inr (h, n) ↦ rw (n, start_session, starts) (launch_session-Begins env _)
])

-- A poll of a session that has begun, or the failure to start one.
poll_session-phase :
    (begins : Bool) (env : Env) (usage : Usage) (r : State × Option Reply)
    → Begins begins r
    → phase (poll_session env usage r).0
      ≡ (if begins then next (heard env.read env.message) fresh else off)
unfolding poll_session
poll_session-phase true env usage (s, none) (e, active, is_fresh) =
    handle_read-phase env usage env.read s active ∙ ap (next (heard env.read env.message)) is_fresh
poll_session-phase true env usage (s, some reply) (e, active, is_fresh) = cc e
poll_session-phase false env usage (s, none) (r, e, is_off) = cc e
poll_session-phase false env usage (s, some reply) (r, e, is_off) = is_off

polled-open : (env : Env) (p : Phase) → p ≢ off → polled env p ≡ next (heard env.read env.message) p
unfolding polled
polled-open env off ne = absurd (ne refl)
polled-open env fresh ne = refl
polled-open env waiting ne = refl
polled-open env idle ne = refl

phase-open : (active : Bool) (n : ℕ) → active ≡ true → phase_of active n ≢ off
unfolding phase_of
phase-open active n h = ground arith

polled-off :
    (env : Env)
    → polled env off ≡ (if starts env then next (heard env.read env.message) fresh else off)
unfolding polled
polled-off env = refl

start_session-open :
    (env : Env) (s : State)
    → (is_some s.pipe && is_some s.pi.process) ≡ true
    → start_session env s ≡ (s, none)
unfolding start_session
start_session-open env s e = rw e refl

-- A poll moves the phase as the protocol says.
pub get_serialization-phase :
    (env : Env) (usage : Usage) (s : State)
    → Consistent s
    → phase (get_serialization env true usage s).0 ≡ polled env (phase s)
unfolding get_serialization poll_session
get_serialization-phase env usage s c = elim (Bool-cases (is_some s.pipe && is_some s.pi.process)) [
  | inl e ↦
      let active : s.active ≡ true = ground (arith, c, e) in
      ap (λ r. phase (poll_session env usage r).0) (start_session-open env s e)
      ∙ handle_read-phase env usage env.read s active
      ∙ sym (polled-open env (phase s) (phase-open s.active s.flow_state active))
  | inr e ↦
      let inactive : s.active ≡ false = ground (arith, c, e) in
      poll_session-phase (starts env) env usage (start_session env s)
        (start_session-Begins env s e inactive)
      ∙ sym (polled-off env)
      ∙ ap (polled env) (sym (phase-off s inactive))
]
