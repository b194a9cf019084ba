-- ===== src/Response.antt =====
-- `GetSerialization` and its helpers (src/broker/ProviderSerialization.cpp): one poll of the broker, which
-- starts a session where there is none, reads one message, and answers the logon screen.
pub mod Replies
pub mod Recovery
pub mod Waiting
pub mod Tick
pub mod Delivery
pub mod Repeat
use dot1xcp.Base.{
  ℕ, Bool, true, false, not, ◌&&◌, Option, none, some, if◌then◌else◌, is_empty, Bytes, codes,
  bytes_eq,
}
use dot1xcp.State.{State, Pi, no_process, emit, is_some, opened}
use dot1xcp.Flags.{set_session_active, set_awaiting_final, arm_force_next}
use dot1xcp.Refresh.{request_refresh}
use dot1xcp.Broker.{Os, wait_and_close, close_pipe, update_flow_state, reset_session}
use dot1xcp.Packing.{Scenario, logon, unlock, Packed}
use dot1xcp.Json.Message.{Msg, parse_json_line}
use dot1xcp.Json.Message.Object.{empty_msg}

-- src/broker/ProviderPipe.h
pub data PipeConnectResult : Type 0 where
  connected timed_out broker_exited failed : PipeConnectResult

pub data PipeReadResult : Type 0 where
  ok timed_out broker_exited failed : PipeReadResult

pub data Cpgsr : Type 0 where
  no_credential_not_finished no_credential_finished return_credential_finished : Cpgsr

pub data HResult : Type 0 where
  s_ok s_false e_pointer e_notimpl e_invalidarg e_outofmemory e_nointerface : HResult
  class_e_noaggregation class_e_classnotavailable selfreg_e_class : HResult

-- CREDENTIAL_PROVIDER_USAGE_SCENARIO: the two that the code names, and the others.
pub data Usage : Type 0 where
  usage_invalid usage_logon usage_unlock usage_other : Usage

-- The texts `kMsg...`.
pub data StatusText : Type 0 where
  pipe_create_fail broker_launch_fail connect_timeout read_timeout no_response : StatusText
  broker_exited parse_fail auth_fail serialize_na unknown_type : StatusText

-- The handles of a broker process that was started.
pub record Launch : Type 0 where
  pub process : ℕ
  pub thread : ℕ

-- What the calls of one poll into the operating system, the transport and the packing code give: the
-- handle of a new pipe, the handles of a new broker process, the outcome of connecting and of reading
-- with the bytes read, the conversion from UTF-8, and `PackAutoEx`.
pub record Env : Type 0 where
  pub pipe : Option ℕ
  pub launch : Option Launch
  pub connect : PipeConnectResult
  pub read : PipeReadResult
  pub message : Bytes
  pub widen : Bytes → Bytes
  pub pack : Bytes → Bytes → Bytes → Scenario → Option Packed
  pub os : Os

-- What the caller is told: the result, `*pcpgsr`, `*pcpcs` and `*ppwszOptionalStatusText`, `none`
-- where the code does not set it or clears it.
pub record Reply : Type 0 where
  pub hr : HResult
  pub cpgsr : Option Cpgsr
  pub credential : Option Packed
  pub text : Option StatusText

abbrev pub not_finished : Option StatusText → Reply
not_finished text = record {
  hr = s_ok;
  cpgsr = some no_credential_not_finished;
  credential = none;
  text = text;
}

-- `ConnectFailureStatusText`
unfoldable pub connect_failure_text : PipeConnectResult → StatusText
connect_failure_text broker_exited = broker_exited
connect_failure_text _ = connect_timeout

-- `ReadFailureStatusText`
unfoldable pub read_failure_text : PipeReadResult → StatusText
read_failure_text broker_exited = broker_exited
read_failure_text timed_out = read_timeout
read_failure_text _ = no_response

-- `failedPi = session.pi` and the lines behind it, up to `SetBrokerSessionActive(false)`.
unfoldable pub detach : State → State
detach s =
    set_session_active false
      (record (close_pipe (record s { pi = no_process })) { connected = false })

-- `WaitAndCloseBrokerProcess` on a copy of the handles.
unfoldable pub close_broker : Os → Pi → State → State
close_broker os pi s = record s { trace = wait_and_close os pi s.trace }

-- `detach` and the two calls that follow it after reading.
unfoldable pub end_session : State → State
end_session s = update_flow_state 0 false (set_awaiting_final false (detach s))

-- The part of the block that starts a session behind a successful `LaunchBroker`.
unfoldable pub connect_session : Env → State → State × Option Reply
connect_session env s = elim env.connect [
  | connected ↦
      let s1 = set_session_active true (record s { connected = true }) in
      (update_flow_state 0 false (set_awaiting_final false s1), none)
  | failure ↦ (
    close_broker env.os s.pi (detach s),
    some (not_finished (some (connect_failure_text failure))),
  )
]

-- The state with a new process and its handles.
abbrev pub with_broker : Launch → State → State
with_broker l s = emit (opened l.thread) (
    emit (opened l.process)
      (record s { pi = record { process = some l.process; thread = some l.thread } }))

-- The state with a new pipe.
abbrev pub with_pipe : ℕ → State → State
with_pipe h s = emit (opened h) (record s { pipe = some h })

-- The part behind the creation of the pipe. `LaunchBroker` clears `session.pi` first.
unfoldable pub launch_session : Env → State → State × Option Reply
launch_session env s = elim env.launch [
  | none ↦ (
    reset_session env.os (record s { pi = no_process }),
    some (not_finished (some broker_launch_fail)),
  )
  | some l ↦ connect_session env (with_broker l s)
]

-- The block that starts a session, where there is none: the state, and a reply if it fails.
unfoldable pub start_session : Env → State → State × Option Reply
start_session env s = if is_some s.pipe && is_some s.pi.process then (s, none) else elim env.pipe [
  | none ↦ (record s { pipe = none }, some (not_finished (some pipe_create_fail)))
  | some h ↦ launch_session env (with_pipe h s)
]

-- The choice of `scen`.
unfoldable pub scenario : Usage → Scenario
scenario usage_unlock = unlock
scenario _ = logon

-- `HandleAuthSuccessMessage`; the domain is always `"."`.
unfoldable pub handle_auth_success : Env → Msg → Usage → Reply
handle_auth_success env m usage =
    elim (env.pack (codes ".") (env.widen m.sam) (env.widen m.password) (scenario usage)) [
      | none ↦ not_finished (some serialize_na)
      | some packed ↦ record {
        hr = s_ok;
        cpgsr = some return_credential_finished;
        credential = some packed;
        text = none;
      }
    ]

-- `HandleParsedBrokerMessage`
unfoldable pub handle_parsed_message : Env → Msg → Usage → Reply
handle_parsed_message env m usage =
    if bytes_eq m.type (codes "AUTH_FAIL")
    then not_finished (some auth_fail)
    else if bytes_eq m.type (codes "AUTH_FALLBACK")
    then record { hr = s_ok; cpgsr = some no_credential_finished; credential = none; text = none }
    else if bytes_eq m.type (codes "AUTH_SUCCESS")
    then handle_auth_success env m usage
    else not_finished (some unknown_type)

-- A refresh with the current generation.
abbrev request_now : Env → ℕ → State → State
request_now env delay s = request_refresh env.os.allocated env.os.created delay s.generation s

-- A read that is neither a timeout nor a message.
unfoldable pub handle_read_failure : Env → PipeReadResult → State → State × Reply
handle_read_failure env result s =
    let s1 = close_broker env.os s.pi (end_session s) in
    let recovered : State × Reply = (request_now env 50 (arm_force_next s1), not_finished none) in
    elim result [
      | broker_exited ↦ recovered
      | failed ↦ recovered
      | other ↦ (s1, not_finished (some (read_failure_text other)))
    ]

-- A message that was parsed.
unfoldable pub handle_message : Env → Msg → Usage → State → State × Reply
handle_message env m usage s =
    if bytes_eq m.type (codes "AUTH_PENDING")
    then (
      request_now env 300 (update_flow_state 1 true (set_awaiting_final true s)),
      not_finished none,
    )
    else if bytes_eq m.type (codes "AUTH_IDLE")
    then (
      request_now env 2500 (update_flow_state 2 true (set_awaiting_final false s)),
      not_finished none,
    )
    else (close_broker env.os s.pi (end_session s), handle_parsed_message env m usage)

-- The bytes of a message that was read.
unfoldable pub handle_bytes : Env → Bytes → Usage → State → State × Reply
handle_bytes env bytes usage s =
    let (m, parsed) = parse_json_line bytes empty_msg in
    if not parsed
    then (
      update_flow_state 0 false (set_awaiting_final false (reset_session env.os s)),
      not_finished (some parse_fail),
    )
    else handle_message env m usage s

-- What follows `ReadPipeMessageUntilDone`, on its result.
unfoldable pub handle_read : Env → Usage → PipeReadResult → State → State × Reply
handle_read env usage timed_out s =
    (request_now env (if s.awaiting_final then 300 else 2500) s, not_finished none)
handle_read env usage ok s =
    if is_empty env.message
    then handle_read_failure env ok s
    else handle_bytes env env.message usage s
handle_read env usage broker_exited s = handle_read_failure env broker_exited s
handle_read env usage failed s = handle_read_failure env failed s

-- A session that was there or was started is read from; a failure to start is the reply.
unfoldable pub poll_session : Env → Usage → State × Option Reply → State × Reply
poll_session env usage (s, none) = handle_read env usage env.read s
poll_session env usage (s, some reply) = (s, reply)

-- `GetSerialization`. The flag says that `pcpgsr` and `pcpcs` are not null.
unfoldable pub get_serialization : Env → Bool → Usage → State → State × Reply
get_serialization env false usage s =
    (s, record { hr = e_pointer; cpgsr = none; credential = none; text = none })
get_serialization env true usage s = poll_session env usage (start_session env s)
