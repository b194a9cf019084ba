-- ===== src/Run.antt =====
-- The provider as a whole: the calls that the logon screen, the thread pool and the tile make, one after
-- another (src/core/Provider.cpp, src/core/ProviderCore.cpp, src/broker/ProviderSerialization.cpp).
use dot1xcp.Base.{ℕ, Bool, Option, List, [], ◌∷◌}
use dot1xcp.State.{State}
use dot1xcp.Refresh.{fire, set_provider_events, clear_provider_events}
use dot1xcp.Broker.{Os}
use dot1xcp.Response.{Env, Usage, get_serialization}
use dot1xcp.Provider.{set_usage_scenario, set_selected, set_deselected}

pub data Call : Type 0 where
  polls : Env → Bool → Usage → Call
  uses : Os → Usage → Call
  selects : ℕ → Usage → Call
  deselects : Os → Usage → Call
  fires : ℕ → Call
  advises : Option ℕ → ℕ → Call
  unadvises : Call

-- One call. Calls are not interleaved.
unfoldable pub step : Call → State → State
step (polls env outputs usage) s = (get_serialization env outputs usage s).0
step (uses os usage) s = (set_usage_scenario os usage s).2
step (selects now usage) s = (set_selected now usage s).1
step (deselects os usage) s = set_deselected os usage s
step (fires i) s = fire i s
step (advises o context) s = set_provider_events o context s
step unadvises s = clear_provider_events s

unfoldable pub run : List Call → State → State
run [] s = s
run (c ∷ cs) s = run cs (step c s)
