-- ===== src/Response/Replies.antt =====
-- What `GetSerialization` answers (src/broker/ProviderSerialization.cpp).
use Prim.Native.String.{String}
use dot1xcp.Base.{
  ◌≡◌, refl, sym, ap, ◌∙◌, ◌↔◌, inl, inr, Bool, true, false, ◌&&◌, Option, none, some, [], ◌∷◌,
  arith, if◌then◌else◌, Bool-cases, is_empty, Bytes, codes, bytes_eq, bytes_eq_iff,
}
use dot1xcp.Json.Chars.{trim, skip_ws}
use dot1xcp.Response.{launch_session}
use dot1xcp.Packing.{Packed}
use dot1xcp.State.{State}
use dot1xcp.Json.Message.{Msg, parse_json_line}
use dot1xcp.Json.Message.Object.{empty_msg}
use dot1xcp.Response.{
  Env, Packed, Usage, PipeReadResult, ok, timed_out, broker_exited, failed, Reply, scenario,
  connect_session, launch_session, start_session, handle_auth_success, handle_parsed_message,
  handle_read_failure, handle_message, handle_bytes, handle_read, poll_session, get_serialization,
}

-- A message was read that parses to `m`, and its type is `type`.
abbrev pub Received : Env → String → Msg → Type 0
Received env type m =
    (env.read ≡ ok) × (parse_json_line env.message empty_msg ≡ (m, true)) × (m.type ≡ codes type)

-- What packing the credential of `m` gives.
abbrev pub pack_of : Env → Usage → Msg → Option Packed
pack_of env usage m = env.pack (codes ".") (env.widen m.sam) (env.widen m.password) (scenario usage)

-- A text that is one type is no other.
differs :
    (t : Bytes) (a b : String)
    → bytes_eq (codes a) (codes b) ≡ false
    → bytes_eq t (codes a) ≡ true
    → bytes_eq t (codes b) ≡ false
differs t a b h e = let is = (bytes_eq_iff t (codes a)).0 e in rw is h

handle_auth_success-credential :
    (env : Env) (m : Msg) (usage : Usage)
    → (handle_auth_success env m usage).credential ≡ pack_of env usage m
unfolding handle_auth_success
handle_auth_success-credential env m usage = ground arith

handle_parsed_message-credential :
    (env : Env) (m : Msg) (usage : Usage)
    → (handle_parsed_message env m usage).credential
      ≡ (if bytes_eq m.type (codes "AUTH_SUCCESS") then pack_of env usage m else none)
unfolding handle_parsed_message bytes_eq
handle_parsed_message-credential env m usage = ground (
  arith,
  handle_auth_success-credential env m usage,
  differs m.type "AUTH_FAIL" "AUTH_SUCCESS" refl,
  differs m.type "AUTH_FALLBACK" "AUTH_SUCCESS" refl,
)

handle_message-credential :
    (env : Env) (m : Msg) (usage : Usage) (s : State)
    → (handle_message env m usage s).1.credential
      ≡ (if bytes_eq m.type (codes "AUTH_SUCCESS") then pack_of env usage m else none)
unfolding handle_message bytes_eq
handle_message-credential env m usage s = ground (
  arith,
  handle_parsed_message-credential env m usage,
  differs m.type "AUTH_PENDING" "AUTH_SUCCESS" refl,
  differs m.type "AUTH_IDLE" "AUTH_SUCCESS" refl,
)

-- The poll has a session to read from: there was one, or it was started.
abbrev pub HasSession : Env → State → Type 0
HasSession env s = (start_session env s).1 ≡ none

-- The credential that a parsed message carries to the logon screen.
abbrev message_credential : Env → Usage → Msg × Bool → Option Packed
message_credential env usage (m, parsed) =
    if parsed && bytes_eq m.type (codes "AUTH_SUCCESS") then pack_of env usage m else none

handle_bytes-credential :
    (env : Env) (bytes : Bytes) (usage : Usage) (s : State)
    → (handle_bytes env bytes usage s).1.credential
      ≡ message_credential env usage (parse_json_line bytes empty_msg)
unfolding handle_bytes
handle_bytes-credential env bytes usage s =
    ground (arith, handle_message-credential env (parse_json_line bytes empty_msg).0 usage s)

empty_message : (m : Msg) → ¬ (parse_json_line [] empty_msg ≡ (m, true))
unfolding parse_json_line trim skip_ws
empty_message m h = cc h

message_credential-eq-some :
    (env : Env) (usage : Usage) (q : Msg × Bool) {p : Packed}
    → message_credential env usage q ≡ some p
    → (q.1 ≡ true) × (q.0.type ≡ codes "AUTH_SUCCESS") × (pack_of env usage q.0 ≡ some p)
message_credential-eq-some env usage (m, parsed) h =
    ground (arith, (bytes_eq_iff m.type (codes "AUTH_SUCCESS")).0)

hands_over :
    (env : Env) (usage : Usage) (r : PipeReadResult) (s : State) {p : Packed}
    → env.read ≡ r
    → (handle_read env usage r s).1.credential ≡ some p
    → (m : Msg) × Received env "AUTH_SUCCESS" m × (pack_of env usage m ≡ some p)
unfolding handle_read handle_read_failure
hands_over env usage ok s {p} e h = elim (Bool-cases (is_empty env.message)) [
  | inl n ↦ cc (rw n at h)
  | inr n ↦
      let q = parse_json_line env.message empty_msg in
      let carried = handle_bytes-credential env env.message usage s in
      let (parsed, type, packs) =
        message_credential-eq-some env usage q (sym carried ∙ (rw n at h)) in
      (q.0, (e, ap (λ b. (q.0, b)) parsed, type), packs)
]
hands_over env usage timed_out s e h = cc
hands_over env usage broker_exited s e h = cc
hands_over env usage failed s e h = cc

pub not_empty : (b : Bytes) (m : Msg) → parse_json_line b empty_msg ≡ (m, true) → is_empty b ≡ false
not_empty [] m h = elim (empty_message m h) [ ]
not_empty (x ∷ b) m h = refl

is_handed_over :
    (env : Env) (usage : Usage) (s : State) {p : Packed}
    → (m : Msg) × Received env "AUTH_SUCCESS" m × (pack_of env usage m ≡ some p)
    → (handle_read env usage env.read s).1.credential ≡ some p
unfolding handle_read
is_handed_over env usage s (m, (is_ok, parsed, type), packs) =
    let carried = handle_bytes-credential env env.message usage s in
    let same = (bytes_eq_iff m.type (codes "AUTH_SUCCESS")).1 type in
    let at_ok : (handle_read env usage ok s).1.credential ≡ pack_of env usage m =
      rw (not_empty env.message m parsed)
        (carried ∙ ap (message_credential env usage) parsed ∙ rw same refl) in
    ap (λ r. (handle_read env usage r s).1.credential) is_ok ∙ at_ok ∙ packs

absurd_some {ℓ κ} : {A : Type ℓ} {B : Type κ} {a : A} → none ≡ some a → B
absurd_some h = cc

-- A start that fails hands nothing over.
failed_start :
    (env : Env) (s : State) {reply : Reply}
    → (start_session env s).1 ≡ some reply
    → reply.credential ≡ none
unfolding start_session launch_session connect_session
failed_start env s h = ground arith

-- A poll hands a credential to the logon screen exactly if it has a session to read from, the bytes it
-- reads are a message of type AUTH_SUCCESS, and packing the message's `sam` and `password`, widened,
-- with the domain "." gives that credential.
pub get_serialization-credential_iff :
    (env : Env) (usage : Usage) (s : State) (p : Packed)
    → ((get_serialization env true usage s).1.credential ≡ some p) ↔ (
        HasSession env s
        × ((m : Msg) × Received env "AUTH_SUCCESS" m × (pack_of env usage m ≡ some p)))
unfolding get_serialization poll_session
get_serialization-credential_iff env usage s p = polled (start_session env s) refl
  where
    polled :
        (q : State × Option Reply)
        → q ≡ start_session env s
        → ((poll_session env usage q).1.credential ≡ some p) ↔ (
            HasSession env s
            × ((m : Msg) × Received env "AUTH_SUCCESS" m × (pack_of env usage m ≡ some p)))
    polled (t, none) e = (
      λ h. (sym (ap (λ q. q.1) e), hands_over env usage env.read t refl h),
      λ h. is_handed_over env usage t h.1,
    )
    polled (t, some reply) e =
        let none-p = failed_start env s (sym (ap (λ q. q.1) e)) in
        (λ h. absurd_some (sym none-p ∙ h), λ h. absurd_some (sym h.0 ∙ sym (ap (λ q. q.1) e)))
