-- ===== src/Response/Delivery.antt =====
-- From the broker's message to the packed credential (src/broker/ProviderSerialization.cpp,
-- src/auth/Serialization.cpp).
use dot1xcp.Base.{◌≡◌, refl, sym, ap, ◌∙◌, true, some, arith, Bytes, codes, bytes_eq}
use dot1xcp.State.{State}
use dot1xcp.Json.Message.{Msg, parse_json_line}
use dot1xcp.Json.Message.Object.{empty_msg}
use dot1xcp.Packing.{Packed, Host, pack_auto, pack_msv}
use dot1xcp.Packing.Layout.{IsShort}
use dot1xcp.Packing.ReadBack.{read_string, pack_msv-read_string}
use dot1xcp.Response.{Env, Usage, scenario, get_serialization}
use dot1xcp.Response.Replies.{get_serialization-credential_iff}

pack_auto-dot :
    (host : Host) (user password : Bytes) (usage : Usage)
    → pack_auto host (codes ".") user password (scenario usage)
      ≡ pack_msv host (codes ".") user password (scenario usage)
unfolding pack_auto bytes_eq
pack_auto-dot host user password usage = refl

-- When a poll hands over a credential, its message parses to `m`, and the credential is packed by
-- `PackAutoEx`: then the user and the password read back from it are the `sam` and the `password` of
-- the message, widened, and the domain is ".", where both are short enough for a USHORT length.
pub get_serialization-read_string :
    (env : Env) (host : Host) (usage : Usage) (s : State) (m : Msg) (p : Packed)
    → env.pack ≡ pack_auto host
    → parse_json_line env.message empty_msg ≡ (m, true)
    → IsShort (env.widen m.sam) × IsShort (env.widen m.password)
    → (get_serialization env true usage s).1.credential ≡ some p
    → (read_string p.blob p.blob.domain ≡ codes ".")
      × (read_string p.blob p.blob.user ≡ env.widen m.sam)
      × (read_string p.blob p.blob.password ≡ env.widen m.password)
get_serialization-read_string env host usage s m p packs parsed (su, sp) h =
    let (session, (m', (is_ok, parsed', type), packed)) =
      (get_serialization-credential_iff env usage s p).0 h in
    let same : m' ≡ m = ap (λ q. q.0) (sym parsed' ∙ parsed) in
    let packed' =
      ap (λ m. env.pack (codes ".") (env.widen m.sam) (env.widen m.password) (scenario usage))
        (sym same)
      ∙ packed in
    let by_auto =
      sym (ap (λ f. f (codes ".") (env.widen m.sam) (env.widen m.password) (scenario usage)) packs)
      ∙ packed' in
    pack_msv-read_string host (codes ".") (env.widen m.sam) (env.widen m.password) (scenario usage)
      p (omega arith, su, sp)
      (sym (pack_auto-dot host (env.widen m.sam) (env.widen m.password) usage) ∙ by_auto)
