-- ===== src/Response/Waiting.antt =====
-- Which polls keep the session (src/broker/ProviderSerialization.cpp).
use dot1xcp.Base.{
  ◌+◌, ℕ, ◌≡◌, refl, sym, ap, ◌∙◌, ◌↔◌, ◌⊎◌, inl, inr, Bool, true, false, ◌&&◌, ◌||◌, Option, none,
  some, arith, Bool-cases, is_empty, Bytes, codes, bytes_eq, bytes_eq_iff,
}
use dot1xcp.State.{State}
use dot1xcp.Flags.{set_session_active, set_awaiting_final, arm_force_next}
use dot1xcp.Refresh.{request_refresh}
use dot1xcp.Broker.{Os, close_pipe, reset_session, update_flow_state}
use dot1xcp.Json.Message.{Msg, parse_json_line}
use dot1xcp.Json.Message.Object.{empty_msg}
use dot1xcp.Response.{
  Env, Usage, PipeReadResult, ok, timed_out, broker_exited, failed, Reply, start_session, detach,
  end_session, close_broker, handle_read, handle_read_failure, handle_message, handle_bytes,
  poll_session, get_serialization,
}
use dot1xcp.Response.Replies.{Received, HasSession, not_empty}
use dot1xcp.Invariant.Poll.{get_serialization-Rules}
use dot1xcp.Invariant.Handles.{opens, closes, held, Keeps, Keeps-Rules}
use dot1xcp.Invariant.Session.{
  IsClosed, get_serialization-Consistent, Consistent, reset_session-IsClosed, start_session-Started,
  Started,
}

-- What is read asks for waiting: nothing within the timeout, or a message that the broker is not done.
abbrev pub Waits : Env → Type 0
Waits env =
    (env.read ≡ timed_out)
    ⊎ (((m : Msg) × Received env "AUTH_PENDING" m) ⊎ ((m : Msg) × Received env "AUTH_IDLE" m))

abbrev says_wait : Msg × Bool → Bool
says_wait (m, parsed) =
    parsed && (bytes_eq m.type (codes "AUTH_PENDING") || bytes_eq m.type (codes "AUTH_IDLE"))

pub ends-connected :
    (os : Os) (s : State) → (close_broker os s.pi (end_session s)).connected ≡ false
unfolding close_broker end_session detach close_pipe set_session_active set_awaiting_final
    update_flow_state
ends-connected os s = ground arith

request-connected :
    (a c : Bool) (d g : ℕ) (s : State) → (request_refresh a c d g s).connected ≡ s.connected
unfolding request_refresh
request-connected a c d g s = ground arith

flow-connected :
    (n : ℕ) (l a : Bool) (s : State)
    → (update_flow_state n l (set_awaiting_final a s)).connected ≡ s.connected
unfolding update_flow_state set_awaiting_final
flow-connected n l a s = ground arith

handle_message-connected :
    (env : Env) (m : Msg) (usage : Usage) (s : State)
    → s.connected ≡ true
    → (handle_message env m usage s).0.connected ≡ says_wait (m, true)
unfolding handle_message
handle_message-connected env m usage s c =
    let pending = update_flow_state 1 true (set_awaiting_final true s) in
    let idle = update_flow_state 2 true (set_awaiting_final false s) in
    let a = env.os.allocated in
    let b = env.os.created in
    ground (
      arith,
      c,
      ends-connected env.os s,
      request-connected a b 300 pending.generation pending ∙ flow-connected 1 true true s,
      request-connected a b 2500 idle.generation idle ∙ flow-connected 2 true false s,
    )

handle_bytes-connected :
    (env : Env) (bytes : Bytes) (usage : Usage) (s : State)
    → s.connected ≡ true
    → (handle_bytes env bytes usage s).0.connected ≡ says_wait (parse_json_line bytes empty_msg)
unfolding handle_bytes
handle_bytes-connected env bytes usage s c = ground (
  arith,
  handle_message-connected env (parse_json_line bytes empty_msg).0 usage s c,
  flow-connected 0 false false (reset_session env.os s),
  (reset_session-IsClosed env.os s).disconnected,
)

pub failure-connected :
    (env : Env) (r : PipeReadResult) (s : State) → (handle_read_failure env r s).0.connected ≡ false
unfolding handle_read_failure arm_force_next
failure-connected env ok s = ends-connected env.os s
failure-connected env timed_out s = ends-connected env.os s
failure-connected env broker_exited s = request-connected _ _ 50 _ _ ∙ ends-connected env.os s
failure-connected env failed s = request-connected _ _ 50 _ _ ∙ ends-connected env.os s

says_wait-cases :
    (q : Msg × Bool)
    → says_wait q ≡ true
    → (q.1 ≡ true) × ((q.0.type ≡ codes "AUTH_PENDING") ⊎ (q.0.type ≡ codes "AUTH_IDLE"))
says_wait-cases (m, parsed) h = ground (
  arith,
  (bytes_eq_iff m.type (codes "AUTH_PENDING")).0,
  (bytes_eq_iff m.type (codes "AUTH_IDLE")).0,
)

-- A read of a connected session keeps it exactly if it is told to wait.
keeps_Waits :
    (env : Env) (usage : Usage) (r : PipeReadResult) (s : State)
    → env.read ≡ r
    → s.connected ≡ true
    → (handle_read env usage r s).0.connected ≡ true
    → Waits env
unfolding handle_read
keeps_Waits env usage ok s e c h = elim (Bool-cases (is_empty env.message)) [
  | inl n ↦ cc (sym (failure-connected env ok s) ∙ (rw n at h))
  | inr n ↦
      let q = parse_json_line env.message empty_msg in
      let told = handle_bytes-connected env env.message usage s c in
      let (parsed, types) = says_wait-cases q (sym told ∙ (rw n at h)) in
      let is : parse_json_line env.message empty_msg ≡ (q.0, true) = ap (λ b. (q.0, b)) parsed in
      elim types [ inl t ↦ inr (inl (q.0, (e, is, t))) | inr t ↦ inr (inr (q.0, (e, is, t))) ]
]
keeps_Waits env usage timed_out s e c h = inl e
keeps_Waits env usage broker_exited s e c h = cc (sym (failure-connected env broker_exited s) ∙ h)
keeps_Waits env usage failed s e c h = cc (sym (failure-connected env failed s) ∙ h)

told_wait :
    (env : Env) (usage : Usage) (s : State) (m : Msg)
    → s.connected ≡ true
    → env.read ≡ ok
    → parse_json_line env.message empty_msg ≡ (m, true)
    → says_wait (m, true) ≡ true
    → (handle_read env usage env.read s).0.connected ≡ true
unfolding handle_read
told_wait env usage s m c is_ok parsed wait =
    let told = handle_bytes-connected env env.message usage s c in
    let at_ok : (handle_read env usage ok s).0.connected ≡ true =
      rw (not_empty env.message m parsed) (told ∙ ap says_wait parsed ∙ wait) in
    ap (λ r. (handle_read env usage r s).0.connected) is_ok ∙ at_ok

pending_waits : (m : Msg) → m.type ≡ codes "AUTH_PENDING" → says_wait (m, true) ≡ true
pending_waits m t = ground (arith, (bytes_eq_iff m.type (codes "AUTH_PENDING")).1 t)

idle_waits : (m : Msg) → m.type ≡ codes "AUTH_IDLE" → says_wait (m, true) ≡ true
idle_waits m t = ground (arith, (bytes_eq_iff m.type (codes "AUTH_IDLE")).1 t)

Waits-keeps :
    (env : Env) (usage : Usage) (s : State)
    → s.connected ≡ true
    → Waits env
    → (handle_read env usage env.read s).0.connected ≡ true
unfolding handle_read
Waits-keeps env usage s c (inl e) =
    ap (λ r. (handle_read env usage r s).0.connected) e ∙ request-connected _ _ _ _ s ∙ c
Waits-keeps env usage s c (inr (inl (m, (e, parsed, type)))) =
    told_wait env usage s m c e parsed (pending_waits m type)
Waits-keeps env usage s c (inr (inr (m, (e, parsed, type)))) =
    told_wait env usage s m c e parsed (idle_waits m type)

-- The session has no pipe, process or thread any more, and each handle that it held before, or that was
-- opened since, is closed as often.
abbrev pub IsOver : State → State → Type 0
IsOver s t =
    IsClosed t
    × ((h : ℕ) → opens h t.trace + closes h s.trace + held h s ≡ opens h s.trace + closes h t.trace)

ends-IsOver :
    (s t : State) → Consistent t → ((h : ℕ) → Keeps h s t) → (t.connected ≡ true) ⊎ IsOver s t
ends-IsOver s t v k = elim (Bool-cases t.connected) [
  | inl c ↦ inl c
  | inr c ↦
      let over : IsClosed t = ground (arith, v, c) in
      inr (over, λ h. ground (arith, k h, over.no_pipe, over.no_process_left, over.no_thread))
]

stays_iff :
    (env : Env) (usage : Usage) (s : State)
    → Consistent s
    → ((get_serialization env true usage s).0.connected ≡ true) ↔ (HasSession env s × Waits env)
unfolding get_serialization poll_session
stays_iff env usage s v = polled (start_session env s) refl (start_session-Started env s v)
  where
    polled :
        (q : State × Option Reply)
        → q ≡ start_session env s
        → Started q
        → ((poll_session env usage q).0.connected ≡ true) ↔ (HasSession env s × Waits env)
    polled (t, none) e g = (
      λ h. (sym (ap (λ q. q.1) e), keeps_Waits env usage env.read t refl g.1 h),
      λ h. Waits-keeps env usage t g.1 h.1,
    )
    polled (t, some reply) e c =
        (λ h. cc (sym c.disconnected ∙ h), λ h. cc (sym h.0 ∙ sym (ap (λ q. q.1) e)))

-- From session variables that agree, a poll leaves a session open exactly if there was one or one was
-- started, and then either nothing came within the timeout, or a message of type AUTH_PENDING or
-- AUTH_IDLE. In every other case, a message of type AUTH_FAIL included, there is no session left behind
-- the poll, and each pipe, process and thread handle that it held or that the poll opened has been
-- closed.
pub get_serialization-stays_iff :
    (env : Env) (usage : Usage) (s : State)
    → Consistent s
    → let t = (get_serialization env true usage s).0 in
      ((t.connected ≡ true) ↔ (HasSession env s × Waits env)) × ((t.connected ≡ true) ⊎ IsOver s t)
get_serialization-stays_iff env usage s v = (
  stays_iff env usage s v,
  ends-IsOver s (get_serialization env true usage s).0
      (get_serialization-Consistent env true usage v)
      (λ h. get_serialization-Rules (Keeps h) (Keeps-Rules h) env true usage s v),
)
