-- ===== src/Machine/EndToEnd.antt =====
-- From the broker's writes to the credential of the logon screen, through every part that the message
-- passes (src/broker/ProviderPipeTransport.cpp, src/broker/ProviderJson.cpp,
-- src/broker/ProviderSerialization.cpp, src/auth/Serialization.cpp).
use dot1xcp.Base.{
  ℕ, ◌≤◌, ◌≡◌, refl, sym, ap, ◌∙◌, ◌≢◌, Bool, true, some, [], arith, some-eq-some, length, Bytes,
  codes,
}
use dot1xcp.State.{State}
use dot1xcp.Json.Message.{Msg, parse_json_line}
use dot1xcp.Json.Message.Object.{empty_msg}
use dot1xcp.Json.Message.Print.{print_msg, parse_json_line-print_msg}
use dot1xcp.Packing.{Packed, pack_auto}
use dot1xcp.Packing.Layout.{IsShort}
use dot1xcp.Packing.ReadBack.{read_string}
use dot1xcp.Util.{widen}
use dot1xcp.Transport.{Slice, max_msg_bytes, slice_result}
use dot1xcp.Transport.Message.{Delivers, read_message_iff, read_message-returns}
use dot1xcp.Transport.Deadline.{Ticks, read_until-stops}
use dot1xcp.Response.{Env, Usage, scenario, ok, start_session, get_serialization}
use dot1xcp.Response.Replies.{HasSession, get_serialization-credential_iff}
use dot1xcp.Response.Recovery.{IsOpen}
use dot1xcp.Response.Delivery.{get_serialization-read_string}
use dot1xcp.Machine.{last_read, Machine, overall_timeout, slices, host_of, poll_env}

-- What the first slice reads, when its rounds deliver a message.
first_slice :
    (machine : Machine) (m : Bytes)
    → Delivers (machine.rounds 0) 0 m
    → length m ≤ max_msg_bytes
    → (read_message-returns (machine.rounds 0)).0 ≡ (ok, m)
first_slice machine m g small = some-eq-some (
    sym (read_message-returns (machine.rounds 0)).1
    ∙ (read_message_iff (machine.rounds 0) m).1 (g, small))

slice_result-ok :
    (overall start : ℕ) (slice : Slice)
    → slice.result ≡ ok
    → slice_result true overall start slice ≡ some ok
unfolding slice_result
slice_result-ok overall start slice h = ground arith

-- What the poll reads then.
reads_message :
    (machine : Machine) (ticks : Ticks overall_timeout machine.start (slices machine)) (m : Bytes)
    → Delivers (machine.rounds 0) 0 m
    → length m ≤ max_msg_bytes
    → ((poll_env machine ticks).read ≡ ok) × ((poll_env machine ticks).message ≡ m)
reads_message machine ticks m g small =
    let first = first_slice machine m g small in
    let (r, returns) = last_read machine ticks in
    let is =
      slice_result-ok overall_timeout machine.start (slices machine 0) (ap (λ q. q.0) first) in
    let e = some-eq-some (
      sym returns
      ∙ read_until-stops overall_timeout true overall_timeout machine.start (slices machine) 0
          is) in
    (ap (λ q. q.0) e, ap (λ q. q.1) e ∙ ap (λ q. q.1) first)

has_session : (env : Env) (s : State) → IsOpen s → HasSession env s
unfolding start_session
has_session env s h = rw h refl

-- A session is open, and the broker writes a message with the type AUTH_SUCCESS, a user and a password,
-- which arrives in parts that are not empty in the first slice of the poll: then the logon screen gets
-- the credential that `PackAutoEx` packs, where it packs one; and the user and the password read back
-- from it, converted from UTF-8, where both are short enough for a USHORT length. The clock is as the
-- system documents it, and the message is at most 256 KB long.
pub poll_env-credential :
    (machine : Machine) (ticks : Ticks overall_timeout machine.start (slices machine))
    (usage : Usage) (s : State) (m : Msg) (comma : Bool) (p : Packed)
    → IsOpen s
    → m.type ≡ codes "AUTH_SUCCESS"
    → Delivers (machine.rounds 0) 0 (print_msg m comma)
    → length (print_msg m comma) ≤ max_msg_bytes
    → IsShort (widen machine.converter m.sam) × IsShort (widen machine.converter m.password)
    → pack_auto
        (host_of machine)
        (codes ".")
        (widen machine.converter m.sam)
        (widen machine.converter m.password)
        (scenario usage)
      ≡ some p
    → ((get_serialization (poll_env machine ticks) true usage s).1.credential ≡ some p)
      × (read_string p.blob p.blob.user ≡ widen machine.converter m.sam)
      × (read_string p.blob p.blob.password ≡ widen machine.converter m.password)
poll_env-credential machine ticks usage s m comma p opened type g small short packs =
    let env = poll_env machine ticks in
    let (is_ok, is) = reads_message machine ticks (print_msg m comma) g small in
    let typed : m.type ≢ [] = λ e. cc (sym type ∙ e) in
    let parsed =
      ap (λ b. parse_json_line b empty_msg) is
      ∙ parse_json_line-print_msg m empty_msg comma typed in
    let credential =
      (get_serialization-credential_iff env usage s p).1
        (has_session env s opened, (m, (is_ok, parsed, type), packs)) in
    let (d, u, w) =
      get_serialization-read_string env (host_of machine) usage s m p refl parsed short
        credential in
    (credential, u, w)
