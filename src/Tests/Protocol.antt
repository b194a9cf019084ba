-- ===== src/Tests/Protocol.antt =====
-- The theorems on the protocol at a sequence of calls, and on the next poll of a session that waits.
use dot1xcp.Base.{suc, ◌≡◌, refl, inr, true, false, codes}
use dot1xcp.State.{initial}
use dot1xcp.Run.{run}
use dot1xcp.Protocol.{off, phase, moves_all}
use dot1xcp.Protocol.Refinement.{run-initial-phase}
use dot1xcp.Tests.Data.{day, success, env_of, session, session-Consistent}
use dot1xcp.Json.Message.{Msg}
use dot1xcp.Json.Message.Object.{empty_msg}
use dot1xcp.Json.Message.Print.{print_msg, parse_json_line-print_msg}
use dot1xcp.Refresh.{fire}
use dot1xcp.Broker.Close.{notices}
use dot1xcp.Response.{Env, usage_logon, ok, get_serialization}
use dot1xcp.Response.Repeat.{waiting-set_selected}
use dot1xcp.Provider.{set_selected}

run-initial-phase_example : phase (run day initial) ≡ moves_all day off
run-initial-phase_example = run-initial-phase day

abbrev pending : Msg
pending = record success { type = codes "AUTH_PENDING" }

abbrev told : Env
told = env_of ok (print_msg pending false)

waiting-set_selected_example :
    let t = fire 0 (get_serialization told true usage_logon session).0 in
    (t.active ≡ true)
    × (notices t.trace ≡ suc (notices session.trace))
    × ((set_selected 77 usage_logon t).0 ≡ true)
waiting-set_selected_example =
    waiting-set_selected told usage_logon 77 9 session session-Consistent refl
      (inr (pending, (refl, parse_json_line-print_msg pending empty_msg false (λ e. cc e), refl)))
      refl refl (refl, refl)
