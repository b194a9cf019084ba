-- ===== src/Provider.antt =====
-- The provider and its credential (src/core/ProviderCore.cpp): usage scenarios, the credential count, and
-- what selecting and leaving the tile does. `_cpus` of each object is an argument and a result.
pub mod Select
pub mod Window
pub mod Leave
use dot1xcp.Base.{ℕ, ◌+◌, Bool, true, false, not, ◌&&◌, Option, none, some, if◌then◌else◌}
use dot1xcp.State.{State}
use dot1xcp.Flags.{
  set_session_active, set_awaiting_final, arm_force_next, reset_force_next, consume_force_next,
  mark_tick, try_acquire_window,
}
use dot1xcp.Broker.{Os, close_session_now}
use dot1xcp.Response.{Usage, usage_invalid, usage_logon, HResult, s_ok, e_pointer, e_notimpl}

abbrev pub is_logon : Usage → Bool
is_logon usage_logon = true
is_logon _ = false

-- `testCPProvider::SetUsageScenario`: the new `_cpus`, the result and the new state.
unfoldable pub set_usage_scenario : Os → Usage → State → Usage × HResult × State
set_usage_scenario os usage s =
    if is_logon usage
    then (
      usage_logon,
      s_ok,
      if not s.active
          then set_awaiting_final false
              (set_session_active false (reset_force_next (close_session_now os s)))
          else s,
    )
    else (
      usage_invalid,
      e_notimpl,
      set_awaiting_final false
          (set_session_active false (close_session_now os (reset_force_next s))),
    )

-- `testCPProvider::GetCredentialCount`: the result, and the count, the default index (`none` for
-- CREDENTIAL_PROVIDER_NO_DEFAULT) and the flag for an automatic logon. The flag argument says that the
-- three pointers are not null.
unfoldable pub credential_count : Bool → Usage → HResult × Option (ℕ × Option ℕ × Bool)
credential_count outputs usage =
    if not outputs
    then (e_pointer, none)
    else if not (is_logon usage)
    then (s_ok, some (0, none, false))
    else (s_ok, some (1, some 0, false))

abbrev pub min_submit_interval : ℕ
min_submit_interval = 2500

-- The two branches of `SetSelected` for the logon scenario, at the tick `now`: `forceConsumed`,
-- `shouldAutoSubmit` and the state.
unfoldable pub decide_active : ℕ → State → Bool × Bool × State
decide_active now s =
    if s.awaiting_final
    then (false, true, s)
    else let (granted, s1) = try_acquire_window min_submit_interval now s in (false, granted, s1)

-- Behind `ConsumeForceNextAutoSubmit`.
unfoldable pub decide_forced : ℕ → Bool × State → Bool × Bool × State
decide_forced now (true, s) = (true, true, mark_tick now s)
decide_forced now (false, s) =
    let (granted, s1) = try_acquire_window min_submit_interval now s in (false, granted, s1)

unfoldable pub decide_idle : ℕ → State → Bool × Bool × State
decide_idle now s = decide_forced now (consume_force_next s)

unfoldable pub decide : ℕ → Usage → State → Bool × Bool × State
decide now usage s =
    if not (is_logon usage)
    then (false, false, s)
    else if s.active
    then decide_active now s
    else decide_idle now s

abbrev bit : Bool → ℕ → ℕ
bit true w = w
bit false w = 0

-- `logCode`; its bits do not overlap.
abbrev pub decision_code : Bool → Bool → Bool → Bool → Bool → ℕ
decision_code logon active awaiting forced submit =
    bit logon 1 + bit active 2 + bit awaiting 4 + bit forced 8 + bit submit 16

-- `testCPCredential::SetSelected`: `*pbAutoLogon` and the state.
unfoldable pub set_selected : ℕ → Usage → State → Bool × State
set_selected now usage s =
    let (forced, submit, s1) = decide now usage s in
    (
      submit,
      record s1 {
        last_decision = decision_code (is_logon usage) s.active s.awaiting_final forced submit;
      },
    )

-- `testCPCredential::SetDeselected`
unfoldable pub set_deselected : Os → Usage → State → State
set_deselected os usage s =
    if is_logon usage && s.active then arm_force_next (close_session_now os s) else s
