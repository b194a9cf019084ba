-- ===== src/Tests/Data.antt =====
-- Concrete values for the tests: messages, environments, a session and a sequence of calls.
use dot1xcp.Base.{refl, true, false, none, some, List, [], ◌∷◌, Bytes, codes}
use dot1xcp.State.{State, Refresh, initial}
use dot1xcp.Json.Message.{Msg}
use dot1xcp.Json.Message.Print.{print_msg}
use dot1xcp.Broker.{Os, Wait}
use dot1xcp.Response.{Env, usage_logon, PipeConnectResult, PipeReadResult}
use dot1xcp.Packing.{Packed}
use dot1xcp.Run.{Call, polls, uses, selects, deselects, fires, advises, unadvises}
use dot1xcp.Invariant.Session.{Consistent}
use dot1xcp.Packing.{Host, structure, msv_logon, pack_auto}

abbrev pub success : Msg
success = record {
  type = codes "AUTH_SUCCESS";
  sam = codes "user";
  password = codes "a\"b\\c";
  reason = [];
}

abbrev pub leftover : Msg
leftover = record { type = codes "AUTH_FAIL"; sam = codes "x"; password = codes "y"; reason = [] }

abbrev pub os : Os
os = record { wait = Wait.timed_out; terminates = true; allocated = true; created = true }

-- A machine that packs, at an address that has no other meaning. The sizes are those of a 64-bit
-- program.
abbrev pub host : Host
host = record {
  negotiate = none;
  msv = some 3;
  computer_name = some (codes "PC");
  console_session = 1;
  user_token = λ session. some 70;
  authentication_id = λ token. some 999;
  allocate = λ size. some 4096;
  logon_size = 56;
  unlock_size = 64;
}

abbrev pub env_of : PipeReadResult → Bytes → Env
env_of read message = record {
  pipe = some 5;
  launch = some (record { process = 6; thread = 7 });
  connect = PipeConnectResult.connected;
  read = read;
  message = message;
  widen = λ b. b;
  pack = pack_auto host;
  os = os;
}

abbrev pub exits : Env
exits = env_of PipeReadResult.broker_exited []

abbrev pub succeeds : Env
succeeds = env_of PipeReadResult.ok (print_msg success false)

abbrev pub waits : Env
waits = env_of PipeReadResult.timed_out []

-- An open session, with an events object.
abbrev pub session : State
session = record initial {
  active = true;
  events = some 9;
  events_context = 4;
  pipe = some 1;
  pi = record { process = some 2; thread = some 3 };
  connected = true;
}

pub session-Consistent : Consistent session
session-Consistent = record {
  active_is = refl;
  pipe_is = refl;
  process_is = refl;
  thread_is = refl;
}

abbrev pub timer : Refresh
timer = record { events = some 9; context = 4; generation = 1; delay = 300 }

abbrev pub refreshing : State
refreshing = record session { refresh_pending = true; timers = timer ∷ [] }

-- A session that ends by a success, one that is left, and refreshes in between.
abbrev pub day : List Call
day =
    advises (some 9) 4
    ∷ uses os usage_logon
    ∷ selects 1000 usage_logon
    ∷ polls waits true usage_logon
    ∷ fires 0
    ∷ polls succeeds true usage_logon
    ∷ polls waits true usage_logon
    ∷ deselects os usage_logon
    ∷ unadvises
    ∷ []

abbrev pub packed : Packed
packed = structure 4096 0 56 msv_logon none 3 (codes ".") success.sam success.password
