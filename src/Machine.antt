-- ===== src/Machine.antt =====
-- One poll down to the calls of the system: the arguments of `GetSerialization`
-- (src/broker/ProviderSerialization.cpp) as the other files compute them, with `MakePipeName`,
-- `CreateRestrictedPipeServer`, `LaunchBroker`, `WaitPipeClientConnect`, `ReadPipeMessageUntilDone`,
-- `Widen`, `ResolveNegotiate`, `ResolveMsv` and `PackAutoEx`.
pub mod EndToEnd
use dot1xcp.Base.{ℕ, suc, ◌≡◌, Bool, true, Option, some, [], arith, Bytes}
use dot1xcp.Broker.{Os}
use dot1xcp.Auth.{Lsa, Packages, resolve_negotiate, resolve_msv}
use dot1xcp.Packing.{Host, pack_auto}
use dot1xcp.Util.{Converter, widen}
use dot1xcp.Environment.Launch.{Spawn, Spawned, launch_broker}
use dot1xcp.Transport.{Connect, Round, Slice, wait_connect, read_until}
use dot1xcp.Transport.Message.{read_message-returns}
use dot1xcp.Transport.Deadline.{Ticks, read_until-returns}
use dot1xcp.Transport.Pipe.{Pipes, make_pipe_name, create_pipe_server}
use dot1xcp.Response.{Env, PipeReadResult}

-- What the system answers in one poll. Of `host`, the two packages are not used: they are looked up,
-- in the caches as they stand before the poll. `rounds k` answers the reads of slice `k`.
pub record Machine : Type 0 where
  pub guid : Option Bytes
  pub tick : ℕ
  pub pipes : Pipes
  pub base_environment : Option Bytes
  pub create_process : Spawn → Spawned
  pub connect : Connect
  pub start : ℕ
  pub rounds : ℕ → ℕ → Round
  pub has_exited : ℕ → Bool
  pub slice_tick : ℕ → ℕ
  pub converter : Converter
  pub lsa : Lsa
  pub packages : Packages
  pub host : Host
  pub os : Os

-- `overallTimeoutMs`
abbrev pub overall_timeout : ℕ
overall_timeout = 1200

abbrev pub slices : Machine → ℕ → Slice
slices machine k =
    let ((result, message), returns) = read_message-returns (machine.rounds k) in
    record {
      result = result;
      message = message;
      has_exited = machine.has_exited k;
      tick = machine.slice_tick k;
    }

abbrev pub host_of : Machine → Host
host_of machine = record machine.host {
  negotiate = (resolve_negotiate machine.lsa machine.packages []).0;
  msv = (resolve_msv machine.lsa machine.packages []).0;
}

-- What `ReadPipeMessageUntilDone` gives in the end.
pub last_read :
    (machine : Machine)
    → Ticks overall_timeout machine.start (slices machine)
    → (r : PipeReadResult × Bytes) × (read_until
          (suc overall_timeout)
          true
          overall_timeout
          machine.start
          (slices machine)
          0
        ≡ some r)
last_read machine ticks =
    read_until-returns true overall_timeout machine.start (slices machine) (omega arith) ticks

-- The arguments of a poll. The read has a process to watch: a poll reads only behind the test of
-- `session.pi.hProcess` or a start that succeeded.
abbrev pub poll_env :
    (machine : Machine) → Ticks overall_timeout machine.start (slices machine) → Env
poll_env machine ticks =
    let name = make_pipe_name machine.guid machine.tick in
    let ((result, message), returns) = last_read machine ticks in
    record {
      pipe = create_pipe_server machine.pipes name;
      launch = (launch_broker machine.create_process machine.base_environment name).0;
      connect = wait_connect machine.connect;
      read = result;
      message = message;
      widen = widen machine.converter;
      pack = pack_auto (host_of machine);
      os = machine.os;
    }
