-- ===== src/Invariant/Poll.antt =====
-- Every relation between states that the small operations of src/core/Provider.cpp and
-- src/broker/ProviderBrokerSession.cpp respect is respected by `GetSerialization`
-- (src/broker/ProviderSerialization.cpp) too.
use dot1xcp.Base.{
  ℕ, ◌≡◌, inl, inr, Bool, true, false, ◌&&◌, Option, none, some, arith, if◌then◌else◌, Bool-cases,
  Option-cases, is_empty, Bytes, codes, bytes_eq,
}
use dot1xcp.State.{State, no_process, is_some}
use dot1xcp.Flags.{set_session_active, set_awaiting_final, arm_force_next}
use dot1xcp.Refresh.{fire, set_provider_events, clear_provider_events, request_refresh}
use dot1xcp.Broker.{Os, update_flow_state, reset_session}
use dot1xcp.Json.Message.{Msg, parse_json_line}
use dot1xcp.Json.Message.Object.{empty_msg}
use dot1xcp.Response.{
  Env, Launch, Usage, PipeConnectResult, connected, PipeReadResult, ok, timed_out, broker_exited,
  failed, Reply, detach, close_broker, end_session, connect_session, with_broker, with_pipe,
  launch_session, start_session, handle_read_failure, handle_message, handle_bytes, handle_read,
  poll_session, get_serialization,
}
use dot1xcp.Invariant.Session.{Consistent}

-- What the small operations owe to a relation between the states before and after.
pub record Rules (R : State → State → Type 0) : Type 0 where
  pub none_changed : (s : State) → R s s
  pub chain : (s t u : State) → R s t → R t u → R s u
  pub activity : (a : Bool) (s : State) → R s (set_session_active a s)
  pub connection : (s : State) → R s (record s { connected = true })
  pub awaiting : (a : Bool) (s : State) → R s (set_awaiting_final a s)
  pub flow : (n : ℕ) (log : Bool) (s : State) → R s (update_flow_state n log s)
  pub force : (f : Bool) (s : State) → R s (record s { force_next = f })
  pub request : (a c : Bool) (d g : ℕ) (s : State) → R s (request_refresh a c d g s)
  pub resets : (os : Os) (s : State) → R s (reset_session os s)
  pub abandons : (os : Os) (s : State) → R s (close_broker os s.pi (detach s))
  pub ends : (os : Os) (s : State) → R s (close_broker os s.pi (end_session s))
  pub no_pipe : (s : State) → s.pipe ≡ none → R s (record s { pipe = none })
  pub new_pipe : (p : ℕ) (s : State) → s.pipe ≡ none → R s (with_pipe p s)
  pub cleared :
      (s : State)
      → (s.pi.process ≡ none) × (s.pi.thread ≡ none)
      → R s (record s { pi = no_process })
  pub new_broker :
      (l : Launch) (s : State)
      → (s.pi.process ≡ none) × (s.pi.thread ≡ none)
      → R s (with_broker l s)
  pub tick : (n : ℕ) (s : State) → R s (record s { auto_submit_tick = n })
  pub decision : (n : ℕ) (s : State) → R s (record s { last_decision = n })
  pub fires : (i : ℕ) (s : State) → R s (fire i s)
  pub advises : (o : Option ℕ) (context : ℕ) (s : State) → R s (set_provider_events o context s)
  pub unadvises : (s : State) → R s (clear_provider_events s)

module _ (R : State → State → Type 0) (rules : Rules R) where
  open rules use {chain, request, ends, abandons}

  requested : Env → ℕ → State → State
  requested env d s = request_refresh env.os.allocated env.os.created d s.generation s

  waiting-Rules :
      (env : Env) (a : Bool) (d n : ℕ) (s : State)
      → R s (requested env d (update_flow_state n true (set_awaiting_final a s)))
  unfolding requested
  waiting-Rules env a d n s =
      let s1 = set_awaiting_final a s in
      let s2 = update_flow_state n true s1 in
      chain s s2 (requested env d s2) (chain s s1 s2 (rules.awaiting a s) (rules.flow n true s1))
        (request env.os.allocated env.os.created d s2.generation s2)

  reset_all-Rules :
      (os : Os) (s : State)
      → R s (update_flow_state 0 false (set_awaiting_final false (reset_session os s)))
  reset_all-Rules os s =
      let s1 = reset_session os s in
      let s2 = set_awaiting_final false s1 in
      chain s s1 (update_flow_state 0 false s2) (rules.resets os s) (
        chain s1 s2 (update_flow_state 0 false s2) (rules.awaiting false s1)
          (rules.flow 0 false s2))

  connected-Rules :
      (s : State)
      → R s (
          update_flow_state 0 false
            (set_awaiting_final false (set_session_active true (record s { connected = true }))))
  connected-Rules s =
      let s1 = record s { connected = true } in
      let s2 = set_session_active true s1 in
      let s3 = set_awaiting_final false s2 in
      chain s s1 (update_flow_state 0 false s3) (rules.connection s) (
        chain s1 s2 (update_flow_state 0 false s3) (rules.activity true s1) (
          chain s2 s3 (update_flow_state 0 false s3) (rules.awaiting false s2)
            (rules.flow 0 false s3)))

  connect_session-Rules : (env : Env) (s : State) → R s (connect_session env s).0
  unfolding connect_session
  connect_session-Rules env s = go env.connect
    where
      go : (c : PipeConnectResult) → R s (connect_session (record env { connect = c }) s).0
      go connected = connected-Rules s
      go timed_out = abandons env.os s
      go broker_exited = abandons env.os s
      go failed = abandons env.os s

  launch_session-Rules :
      (env : Env) (s : State)
      → (s.pi.process ≡ none) × (s.pi.thread ≡ none)
      → R s (launch_session env s).0
  unfolding launch_session
  launch_session-Rules env s n = elim (Option-cases env.launch) [
    | inl e ↦
        let s1 = record s { pi = no_process } in
        rw (e, launch_session)
          (chain s s1 (reset_session env.os s1) (rules.cleared s n) (rules.resets env.os s1))
    | inr (l, e) ↦
        rw (e, launch_session)
          (chain s (with_broker l s) (connect_session env (with_broker l s)).0
            (rules.new_broker l s n) (connect_session-Rules env (with_broker l s)))
  ]

  start_session-Rules : (env : Env) (s : State) → Consistent s → R s (start_session env s).0
  unfolding start_session
  start_session-Rules env s v = elim (Bool-cases (is_some s.pipe && is_some s.pi.process)) [
    | inl e ↦ rw e (rules.none_changed s)
    | inr e ↦ rw e (elim (Option-cases env.pipe) [
      | inl n ↦ rw n (rules.no_pipe s (ground arith))
      | inr (p, n) ↦ rw n (
          chain s (with_pipe p s) (launch_session env (with_pipe p s)).0
            (rules.new_pipe p s (ground arith))
            (launch_session-Rules env (with_pipe p s) (ground arith, ground arith)))
    ])
  ]

  handle_read_failure-Rules :
      (env : Env) (r : PipeReadResult) (s : State) → R s (handle_read_failure env r s).0
  unfolding handle_read_failure arm_force_next requested
  handle_read_failure-Rules env r s = go r
    where
      closed : State
      closed = close_broker env.os s.pi (end_session s)

      armed : State
      armed = record closed { force_next = true }

      again : R s (requested env 50 armed)
      again = chain s closed (requested env 50 armed) (ends env.os s) (
          chain closed armed (requested env 50 armed) (rules.force true closed)
            (request env.os.allocated env.os.created 50 armed.generation armed))

      go : (r : PipeReadResult) → R s (handle_read_failure env r s).0
      go broker_exited = again
      go failed = again
      go ok = ends env.os s
      go timed_out = ends env.os s

  handle_message-Rules :
      (env : Env) (m : Msg) (usage : Usage) (s : State) → R s (handle_message env m usage s).0
  unfolding handle_message requested
  handle_message-Rules env m usage s = elim (Bool-cases (bytes_eq m.type (codes "AUTH_PENDING"))) [
    | inl e ↦ rw e (waiting-Rules env true 300 1 s)
    | inr e ↦ rw e (elim (Bool-cases (bytes_eq m.type (codes "AUTH_IDLE"))) [
      | inl i ↦ rw i (waiting-Rules env false 2500 2 s)
      | inr i ↦ rw i (ends env.os s)
    ])
  ]

  handle_bytes-Rules :
      (env : Env) (bytes : Bytes) (usage : Usage) (s : State)
      → R s (handle_bytes env bytes usage s).0
  unfolding handle_bytes
  handle_bytes-Rules env bytes usage s = elim (Bool-cases (parse_json_line bytes empty_msg).1) [
    | inl e ↦ rw e (handle_message-Rules env (parse_json_line bytes empty_msg).0 usage s)
    | inr e ↦ rw e (reset_all-Rules env.os s)
  ]

  handle_read-Rules :
      (env : Env) (usage : Usage) (r : PipeReadResult) (s : State)
      → R s (handle_read env usage r s).0
  unfolding handle_read
  handle_read-Rules env usage timed_out s =
      request env.os.allocated env.os.created (if s.awaiting_final then 300 else 2500) s.generation
        s
  handle_read-Rules env usage ok s = elim (Bool-cases (is_empty env.message)) [
    | inl e ↦ rw e (handle_read_failure-Rules env ok s)
    | inr e ↦ rw e (handle_bytes-Rules env env.message usage s)
  ]
  handle_read-Rules env usage broker_exited s = handle_read_failure-Rules env broker_exited s
  handle_read-Rules env usage failed s = handle_read_failure-Rules env failed s

  poll_session-Rules :
      (env : Env) (usage : Usage) (r : State × Option Reply) → R r.0 (poll_session env usage r).0
  unfolding poll_session
  poll_session-Rules env usage (s, none) = handle_read-Rules env usage env.read s
  poll_session-Rules env usage (s, some reply) = rules.none_changed s

  pub get_serialization-Rules :
      (env : Env) (outputs : Bool) (usage : Usage) (s : State)
      → Consistent s
      → R s (get_serialization env outputs usage s).0
  unfolding get_serialization
  get_serialization-Rules env false usage s v = rules.none_changed s
  get_serialization-Rules env true usage s v =
      chain s (start_session env s).0 (poll_session env usage (start_session env s)).0
        (start_session-Rules env s v) (poll_session-Rules env usage (start_session env s))
