-- ===== src/Invariant/Session.antt =====
-- The session's variables agree with one another (src/broker/ProviderBrokerSession.cpp,
-- src/broker/ProviderSerialization.cpp, src/core/Provider.cpp).
use dot1xcp.Base.{
  ℕ, ◌≡◌, refl, inl, inr, Bool, true, false, ◌&&◌, Option, none, some, arith, if◌then◌else◌,
  Bool-cases, Option-cases, is_empty, Bytes, codes, bytes_eq,
}
use dot1xcp.State.{State, Pi, is_some}
use dot1xcp.Flags.{set_session_active, set_awaiting_final, arm_force_next}
use dot1xcp.Refresh.{request_refresh}
use dot1xcp.Broker.{Os, close_pipe, update_flow_state, reset_session, close_session_now}
use dot1xcp.Json.Message.{Msg, parse_json_line}
use dot1xcp.Json.Message.Object.{empty_msg}
use dot1xcp.Response.{
  Env, Usage, PipeReadResult, ok, timed_out, broker_exited, failed, Reply, detach, close_broker,
  end_session, connect_session, launch_session, start_session, handle_read_failure, handle_message,
  handle_bytes, handle_read, poll_session, get_serialization,
}

-- The session is active exactly while it is connected, and then holds a pipe, a process and a thread;
-- otherwise it holds none of them.
pub record Consistent (s : State) : Type 0 where
  pub active_is : s.active ≡ s.connected
  pub pipe_is : is_some s.pipe ≡ s.connected
  pub process_is : is_some s.pi.process ≡ s.connected
  pub thread_is : is_some s.pi.thread ≡ s.connected

-- No session is left.
pub record IsClosed (s : State) : Type 0 where
  pub inactive : s.active ≡ false
  pub disconnected : s.connected ≡ false
  pub no_pipe : s.pipe ≡ none
  pub no_process_left : s.pi.process ≡ none
  pub no_thread : s.pi.thread ≡ none

pub IsClosed-Consistent : {s : State} → IsClosed s → Consistent s
IsClosed-Consistent c = ground arith

pub request_refresh-Consistent :
    (a c : Bool) (d g : ℕ) {s : State} → Consistent s → Consistent (request_refresh a c d g s)
unfolding request_refresh
request_refresh-Consistent a c d g v = ground arith

pub reset_session-IsClosed : (os : Os) (s : State) → IsClosed (reset_session os s)
unfolding reset_session close_pipe set_session_active update_flow_state
reset_session-IsClosed os s = ground arith

pub close_session_now-IsClosed : (os : Os) (s : State) → IsClosed (close_session_now os s)
unfolding close_session_now set_session_active set_awaiting_final update_flow_state
close_session_now-IsClosed os s = ground (arith, reset_session-IsClosed os s)

pub end_session-IsClosed : (s : State) → IsClosed (end_session s)
unfolding end_session detach close_pipe set_session_active set_awaiting_final update_flow_state
end_session-IsClosed s = ground arith

detach-IsClosed : (s : State) → IsClosed (detach s)
unfolding detach close_pipe set_session_active
detach-IsClosed s = ground arith

close_broker-IsClosed :
    (os : Os) (pi : Pi) (s : State) → IsClosed s → IsClosed (close_broker os pi s)
unfolding close_broker
close_broker-IsClosed os pi s c = ground arith

-- Either there is a session afterwards, or a reply and no session.
abbrev pub Started : State × Option Reply → Type 0
Started (s, none) = Consistent s × (s.connected ≡ true)
Started (s, some r) = IsClosed s

connect_session-Started :
    (env : Env) (s : State)
    → (is_some s.pipe ≡ true) × (is_some s.pi.process ≡ true) × (is_some s.pi.thread ≡ true)
    → Started (connect_session env s)
unfolding connect_session set_session_active set_awaiting_final update_flow_state
connect_session-Started env s h =
    ground (arith, close_broker-IsClosed env.os s.pi (detach s), detach-IsClosed s)

launch_session-Started :
    (env : Env) (s : State) → is_some s.pipe ≡ true → Started (launch_session env s)
unfolding launch_session
launch_session-Started env s h = elim (Option-cases env.launch) [
  | inl e ↦ rw (e, launch_session) (reset_session-IsClosed env.os _)
  | inr (l, e) ↦ rw (e, launch_session) (connect_session-Started env _ (h, refl, refl))
]

pub start_session-Started : (env : Env) (s : State) → Consistent s → Started (start_session env s)
unfolding start_session
start_session-Started env s v = elim (Bool-cases (is_some s.pipe && is_some s.pi.process)) [
  | inl e ↦ rw e (v, ground arith)
  | inr e ↦ rw e (elim (Option-cases env.pipe) [
    | inl n ↦ rw n (ground arith)
    | inr (h, n) ↦ rw n (launch_session-Started env _ refl)
  ])
]

recover-Consistent :
    (a c : Bool) (d g : ℕ) {s : State}
    → IsClosed s
    → Consistent (request_refresh a c d g (arm_force_next s))
unfolding arm_force_next
recover-Consistent a c d g v = request_refresh-Consistent a c d g (ground arith)

pub handle_read_failure-Consistent :
    (env : Env) (r : PipeReadResult) (s : State) → Consistent (handle_read_failure env r s).0
unfolding handle_read_failure
handle_read_failure-Consistent env r s = go r
  where
    closed : IsClosed (close_broker env.os s.pi (end_session s))
    closed = close_broker-IsClosed env.os s.pi (end_session s) (end_session-IsClosed s)

    go : (r : PipeReadResult) → Consistent (handle_read_failure env r s).0
    go broker_exited = recover-Consistent env.os.allocated env.os.created 50 _ closed
    go failed = recover-Consistent env.os.allocated env.os.created 50 _ closed
    go ok = IsClosed-Consistent closed
    go timed_out = IsClosed-Consistent closed

waiting-Consistent :
    (a c awaiting : Bool) (d g n : ℕ) {s : State}
    → Consistent s
    → Consistent
        (request_refresh a c d g (update_flow_state n true (set_awaiting_final awaiting s)))
unfolding update_flow_state set_awaiting_final
waiting-Consistent a c awaiting d g n v = request_refresh-Consistent a c d g (ground arith)

pub handle_message-Consistent :
    (env : Env) (m : Msg) (usage : Usage) {s : State}
    → Consistent s
    → Consistent (handle_message env m usage s).0
unfolding handle_message
handle_message-Consistent env m usage {s} v =
    elim (Bool-cases (bytes_eq m.type (codes "AUTH_PENDING"))) [
      | inl e ↦ rw e (waiting-Consistent env.os.allocated env.os.created true 300 _ 1 v)
      | inr e ↦ rw e (elim (Bool-cases (bytes_eq m.type (codes "AUTH_IDLE"))) [
        | inl i ↦ rw i (waiting-Consistent env.os.allocated env.os.created false 2500 _ 2 v)
        | inr i ↦ rw i (
            IsClosed-Consistent
              (close_broker-IsClosed env.os s.pi (end_session s) (end_session-IsClosed s)))
      ])
    ]

reset_all-Consistent :
    (os : Os) (s : State)
    → Consistent (update_flow_state 0 false (set_awaiting_final false (reset_session os s)))
unfolding update_flow_state set_awaiting_final
reset_all-Consistent os s = ground (arith, reset_session-IsClosed os s)

handle_bytes-Consistent :
    (env : Env) (bytes : Bytes) (usage : Usage) {s : State}
    → Consistent s
    → Consistent (handle_bytes env bytes usage s).0
unfolding handle_bytes
handle_bytes-Consistent env bytes usage {s} v =
    elim (Bool-cases (parse_json_line bytes empty_msg).1) [
      | inl e ↦ rw e (handle_message-Consistent env _ usage v)
      | inr e ↦ rw e (reset_all-Consistent env.os s)
    ]

handle_read-Consistent :
    (env : Env) (usage : Usage) (r : PipeReadResult) {s : State}
    → Consistent s
    → Consistent (handle_read env usage r s).0
unfolding handle_read
handle_read-Consistent env usage timed_out {s} v =
    request_refresh-Consistent env.os.allocated env.os.created
      (if s.awaiting_final then 300 else 2500) s.generation v
handle_read-Consistent env usage ok {s} v = elim (Bool-cases (is_empty env.message)) [
  | inl e ↦ rw e (handle_read_failure-Consistent env ok s)
  | inr e ↦ rw e (handle_bytes-Consistent env env.message usage v)
]
handle_read-Consistent env usage broker_exited {s} v =
    handle_read_failure-Consistent env broker_exited s
handle_read-Consistent env usage failed {s} v = handle_read_failure-Consistent env failed s

poll_session-Consistent :
    (env : Env) (usage : Usage) (r : State × Option Reply)
    → Started r
    → Consistent (poll_session env usage r).0
unfolding poll_session
poll_session-Consistent env usage (s, none) g = handle_read-Consistent env usage env.read g.0
poll_session-Consistent env usage (s, some reply) g = IsClosed-Consistent g

-- A poll keeps the session's variables in agreement, however it ends.
pub get_serialization-Consistent :
    (env : Env) (outputs : Bool) (usage : Usage) {s : State}
    → Consistent s
    → Consistent (get_serialization env outputs usage s).0
unfolding get_serialization
get_serialization-Consistent env false usage v = v
get_serialization-Consistent env true usage {s} v =
    poll_session-Consistent env usage (start_session env s) (start_session-Started env s v)
