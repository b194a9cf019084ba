-- ===== src/Environment/Launch.antt =====
-- Starting the broker (src/broker/ProviderPipe.cpp: `LaunchBroker`).
use dot1xcp.Base.{
  ℕ, Bool, true, false, ◌||◌, Option, none, some, ◌++◌, ◌==◌, if◌then◌else◌, Bytes, codes,
}
use dot1xcp.Response.{Launch}
use dot1xcp.Environment.{child_environment}

abbrev pub broker_path : Bytes
broker_path = codes "C:\\Program Files\\Dot1xCP\\Broker\\Dot1xBroker.exe"

-- What a call of `CreateProcessW` is given, and what it answers: the handles, or the error.
pub record Spawn : Type 0 where
  pub command : Bytes
  pub environment : Option Bytes
  pub breakaway : Bool

pub data Spawned : Type 0 where
  created : Launch → Spawned
  refused : (error : ℕ) → Spawned

-- ERROR_ACCESS_DENIED, ERROR_NOT_SUPPORTED, ERROR_INVALID_PARAMETER
abbrev pub is_breakaway_error : ℕ → Bool
is_breakaway_error error = error == 5 || error == 50 || error == 87

-- `cmd`
unfoldable pub command_line : Bytes → Bytes
command_line pipe_name = codes "\"" ++ (broker_path ++ (codes "\" --pipe " ++ pipe_name))

-- Behind the first attempt: the handles, and the value of `usedBreakaway`.
unfoldable pub retry : (Spawn → Spawned) → Spawn → Spawned → Option Launch × Bool
retry create s (created l) = (some l, true)
retry create s (refused error) =
    if is_breakaway_error error
    then elim (create (record s { breakaway = false })) [
      | created l ↦ (some l, false)
      | refused e ↦ (none, true)
    ]
    else (none, true)

-- `LaunchBroker`, from the environment block that `GetEnvironmentStringsW` gives; `none` is the result
-- `false`, and leaves `piOut` cleared.
unfoldable pub launch_broker : (Spawn → Spawned) → Option Bytes → Bytes → Option Launch × Bool
launch_broker create base pipe_name =
    let s : Spawn = record {
      command = command_line pipe_name;
      environment = child_environment base pipe_name;
      breakaway = true;
    } in
    retry create s (create s)
