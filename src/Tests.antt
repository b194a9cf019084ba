-- ===== src/Tests.antt =====
-- The theorems at concrete inputs.
mod Data
mod Credentials
mod Pipe
mod Packages
mod Environments
mod Threads
mod Com
mod Fields
mod Registration
mod Protocol
mod Machine
mod Texts
use dot1xcp.Base.{
  suc, ◌+◌, ◌-◌, ◌^◌, ◌≡◌, refl, ◌≢◌, ◌↔◌, ◌⊎◌, true, false, some, List, [], ◌∷◌, ◌++◌, arith,
  if◌then◌else◌, length, Bytes, codes,
}
use dot1xcp.State.{added_ref, credentials_changed, released, State, Refresh, initial}
use dot1xcp.Json.Utf8.{utf8, decode, decode-utf8}
use dot1xcp.Json.Token.{quoted_token, Raw, quoted_token_iff}
use dot1xcp.Json.Unescape.{unescape}
use dot1xcp.Json.Unescape.Grammar.{Text}
use dot1xcp.Json.Unescape.Complete.{unescape_iff}
use dot1xcp.Json.Message.{Msg, parse_json_line}
use dot1xcp.Json.Message.Object.{Object, apply, empty_msg}
use dot1xcp.Json.Message.Line.{parse_json_line_iff, parse_json_line_outcome}
use dot1xcp.Json.Message.Print.{print_msg, parse_json_line-print_msg}
use dot1xcp.Refresh.{request_refresh, fire}
use dot1xcp.Refresh.Stale.{close_session_now-fire, request_refresh-fire}
use dot1xcp.Flags.{consume_force_next, try_acquire_window, set_awaiting_final, set_session_active}
use dot1xcp.Broker.{update_flow_state, Os, Wait, close_session_now}
use dot1xcp.Broker.Close.{notices}
use dot1xcp.Response.{
  Env, usage_logon, usage_unlock, PipeConnectResult, PipeReadResult, get_serialization,
  poll_session, start_session, launch_session, connect_session, handle_read, s_ok, e_notimpl,
}
use dot1xcp.Packing.{Packed}
use dot1xcp.Response.Replies.{HasSession, Received, pack_of, get_serialization-credential_iff}
use dot1xcp.Response.Waiting.{Waits, IsOver, get_serialization-stays_iff}
use dot1xcp.Response.Recovery.{broker_exited-set_selected, broker_exited-lost}
use dot1xcp.Provider.{
  decide, decide_idle, decide_forced, set_selected, set_deselected, set_usage_scenario,
}
use dot1xcp.Provider.Select.{set_selected-submits}
use dot1xcp.Provider.Window.{run-set_selected}
use dot1xcp.Provider.Leave.{set_deselected-set_selected, set_usage_scenario-sessions}
use dot1xcp.Run.{Call, polls, uses, selects, deselects, fires, advises, unadvises, run}
use dot1xcp.Invariant.Session.{Consistent, IsClosed}
use dot1xcp.Invariant.Handles.{Balanced}
use dot1xcp.Invariant.Events.{adds, releases, refs}
use dot1xcp.Invariant.Phase.{InPhase, run-initial-InPhase}
use dot1xcp.Invariant.History.{
  run-initial-Consistent, run-initial-Balanced, run-initial-events, initial-Consistent,
}
use dot1xcp.Tests.Data.{
  success, leftover, os, host, env_of, exits, succeeds, waits, session, session-Consistent, timer,
  refreshing, day, packed,
}

parse_json_line_iff_example :
    (parse_json_line (print_msg success true) leftover ≡ (success, true)) ↔ (
      (kvs : List (Bytes × Bytes)) × Object (print_msg success true) kvs
      × (success ≡ apply kvs empty_msg)
      × (success.type ≢ []))
parse_json_line_iff_example = parse_json_line_iff (print_msg success true) leftover success

unescape_iff_example :
    (unescape (codes "\\u00e9\\n") ≡ some (utf8 233 ++ (10 ∷ [])))
    ↔ Text (codes "\\u00e9\\n") (utf8 233 ++ (10 ∷ []))
unescape_iff_example = unescape_iff (codes "\\u00e9\\n") (utf8 233 ++ (10 ∷ []))

run-initial-Balanced_example : Balanced (run day initial)
run-initial-Balanced_example = run-initial-Balanced day

run-initial-Consistent_example : Consistent (run day initial)
run-initial-Consistent_example = run-initial-Consistent day

run-initial-events_example :
    (adds 9 (run day initial).trace ≡ releases 9 (run day initial).trace + refs 9 (run day initial))
    × (length (run day initial).timers ≡ (if (run day initial).refresh_pending then 1 else 0))
run-initial-events_example = run-initial-events day 9

get_serialization-credential_iff_example :
    ((get_serialization succeeds true usage_logon session).1.credential ≡ some packed) ↔ (
      HasSession succeeds session
      × ((m : Msg) × Received succeeds "AUTH_SUCCESS" m
          × (pack_of succeeds usage_logon m ≡ some packed)))
get_serialization-credential_iff_example =
    get_serialization-credential_iff succeeds usage_logon session packed

get_serialization-stays_iff_example :
    let t = (get_serialization waits true usage_logon session).0 in
    ((t.connected ≡ true) ↔ (HasSession waits session × Waits waits))
    × ((t.connected ≡ true) ⊎ IsOver session t)
get_serialization-stays_iff_example =
    get_serialization-stays_iff waits usage_logon session session-Consistent

broker_exited-set_selected_example :
    let t = fire 0 (get_serialization exits true usage_logon session).0 in
    IsClosed t
    × (notices t.trace ≡ suc (notices session.trace))
    × ((set_selected 77 usage_logon t).0 ≡ true)
broker_exited-set_selected_example =
    broker_exited-set_selected exits usage_logon 77 9 session refl refl refl refl (refl, refl)

broker_exited-lost_example :
    let t = fire 0 (get_serialization exits true usage_logon refreshing).0 in
    IsClosed t
    × (t.force_next ≡ true)
    × (notices t.trace ≡ notices refreshing.trace)
    × (t.timers ≡ [])
    × (t.refresh_pending ≡ false)
broker_exited-lost_example =
    broker_exited-lost exits usage_logon timer refreshing refl refl (refl, refl) (refl, omega arith)

-- The tile is submitted shortly before the clock wraps around; then a session starts and nothing comes
-- from it in time, a timer fires, and the tile is selected again at tick 100 and at tick 700.
abbrev morning : List Call
morning = polls waits true usage_logon ∷ fires 0 ∷ selects 100 usage_logon ∷ []

run-set_selected_example :
    (set_selected 700 usage_logon
      (run morning (set_selected (2 ^ 32 - 200) usage_logon initial).1)).0
    ≡ false
unfolding set_selected get_serialization poll_session start_session decide decide_idle decide_forced
    consume_force_next try_acquire_window launch_session connect_session handle_read request_refresh
    update_flow_state set_awaiting_final set_session_active
run-set_selected_example =
    run-set_selected (2 ^ 32 - 200) 700 morning initial initial-Consistent refl (omega arith)
      (set_selected-submits (2 ^ 32 - 200) usage_logon initial)
      ((refl, refl), (tt, (omega arith, tt))) (omega arith)

parse_json_line-print_msg_example :
    parse_json_line (print_msg success true) leftover ≡ (success, true)
parse_json_line-print_msg_example = parse_json_line-print_msg success leftover true (λ e. cc e)

decode-utf8_example : decode (utf8 0x1F600 ++ (65 ∷ [])) ≡ some (0x1F600, 65 ∷ [])
decode-utf8_example = decode-utf8 0x1F600 (65 ∷ []) (omega arith)

parse_json_line_outcome_example :
    (parse_json_line (codes "{\"type\":\"A\",]") leftover ≡ (empty_msg, false))
    ⊎ ((m : Msg) × (parse_json_line (codes "{\"type\":\"A\",]") leftover ≡ (m, true))
        × (m.type ≢ []))
parse_json_line_outcome_example = parse_json_line_outcome (codes "{\"type\":\"A\",]") leftover

set_deselected-set_selected_example :
    IsClosed (set_deselected os usage_logon session)
    × ((set_selected 3 usage_logon (set_deselected os usage_logon session)).0 ≡ true)
set_deselected-set_selected_example = set_deselected-set_selected os 3 session refl

close_session_now-fire_example :
    notices (fire 0 (close_session_now os refreshing)).trace ≡ notices refreshing.trace
close_session_now-fire_example = close_session_now-fire os 0 refreshing (refl, tt) (omega arith)

run-initial-InPhase_example : InPhase (run day initial)
run-initial-InPhase_example = run-initial-InPhase day
