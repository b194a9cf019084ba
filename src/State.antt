-- ===== src/State.antt =====
-- The global variables of src/core/Provider.cpp, src/core/ProviderCore.cpp and
-- src/broker/ProviderBrokerSession.cpp as one record, and what the code does to the outside as a trace.
use dot1xcp.Base.{ℕ, ◌-◌, ◌^◌, Bool, true, false, ◌&&◌, Option, none, some, List, [], ◌∷◌, ltb}

-- A LONG or a DWORD is its bit pattern, a number below `word`.
abbrev pub word : ℕ
word = 2 ^ 32

-- The number that a LONG stands for is above zero.
abbrev pub is_positive : ℕ → Bool
is_positive w = ltb 0 w && ltb w (2 ^ 31)

-- What other programs can see: handles that are opened and closed, processes that are terminated, the
-- calls of `ICredentialProviderEvents`, and the lines that report a change of the flow state.
pub data Effect : Type 0 where
  opened closed terminated : ℕ → Effect
  added_ref released : ℕ → Effect
  credentials_changed : ℕ → Effect
  flow_logged : ℕ → Effect

abbrev pub Trace : Type 0
Trace = List Effect

-- `PROCESS_INFORMATION`, its handles; `none` is a null handle.
pub record Pi : Type 0 where
  pub process : Option ℕ
  pub thread : Option ℕ

abbrev pub no_process : Pi
no_process = record { process = none; thread = none }

-- `CredRefreshAsyncCtx`, with the delay that the timer was set to.
pub record Refresh : Type 0 where
  pub events : Option ℕ
  pub context : ℕ
  pub generation : ℕ
  pub delay : ℕ

-- A variable that only ever holds 0 and 1 is a `Bool`. `pipe`, `pi` and `connected` are `g_session`;
-- `none` for `pipe` is INVALID_HANDLE_VALUE. `timers` holds the contexts whose timer has not fired.
-- The newest effect stands first in `trace`.
pub record State : Type 0 where
  pub active : Bool
  pub awaiting_final : Bool
  pub refresh_pending : Bool
  pub auto_submit_tick : ℕ
  pub force_next : Bool
  pub generation : ℕ
  pub events : Option ℕ
  pub events_context : ℕ
  pub flow_state : ℕ
  pub pipe : Option ℕ
  pub pi : Pi
  pub connected : Bool
  pub last_decision : ℕ
  pub timers : List Refresh
  pub trace : Trace

-- The values that the variables are initialised with.
abbrev pub initial : State
initial = record {
  active = false;
  awaiting_final = false;
  refresh_pending = false;
  auto_submit_tick = 0;
  force_next = false;
  generation = 1;
  events = none;
  events_context = 0;
  flow_state = 0;
  pipe = none;
  pi = no_process;
  connected = false;
  last_decision = word - 1;
  timers = [];
  trace = [];
}

abbrev pub emit : Effect → State → State
emit e s = record s { trace = e ∷ s.trace }

abbrev pub is_some {ℓ} : {A : Type ℓ} → Option A → Bool
is_some none = false
is_some (some a) = true
