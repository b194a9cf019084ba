-- ===== src/Json/Message/Complete.antt =====
-- What is in the grammar of objects, `ParseFlatBrokerMessage` (src/broker/ProviderJson.cpp) reads.
use dot1xcp.Base.{
  ℕ, zero, suc, ◌≤◌, ◌<◌, ◌≡◌, refl, sym, ap, ◌∙◌, Bool, false, ◌||◌, some, List, [], ◌∷◌, ◌++◌,
  append-nil, arith, ◌==◌, if◌then◌else◌, length, length-append, Bytes, codes, bytes_eq,
}
use dot1xcp.Json.Chars.{is_ws, skip_ws}
use dot1xcp.Json.Token.{quoted_token, quoted_token_iff}
use dot1xcp.Json.Unescape.{unescape}
use dot1xcp.Json.Unescape.Complete.{unescape_iff}
use dot1xcp.Json.Message.{Msg, colon, read_member, set_field, finish, members, flat_message}
use dot1xcp.Json.Message.Object.{
  Ws, Quoted, quoted, Member, member, Body, close, last, more, Object, object, apply, has_key,
}
use dot1xcp.Json.Message.Spaces.{skip_to, Ws-skip_ws, skip_ws-cons}

Quoted-read :
    {s out rest : Bytes}
    → Quoted s out rest
    → (raw : Bytes) × (quoted_token s ≡ some (raw, rest))
      × (unescape raw ≡ some out)
      × (skip_ws s ≡ s)
Quoted-read {s} {out} {rest} (quoted {raw} g t e) = (
  raw,
  (quoted_token_iff s raw rest).1 (g, e),
  (unescape_iff raw out).1 t,
  rw e (skip_ws-cons b'"' (raw ++ (b'"' ∷ rest)) refl),
)

Member-read_member :
    {s key value rest : Bytes}
    → Member s key value rest
    → (read_member s ≡ some (key, value, rest)) × (skip_ws s ≡ s)
unfolding read_member colon
Member-read_member (member {s2} w1 w2 q a1 a2 p) =
    let (kr, t, u, z) = Quoted-read q in
    let (vr, t', u', z') = Quoted-read p in
    let at_colon = skip_to w1 b':' (w2 ++ s2) a1 refl in
    let at_value = Ws-skip_ws w2 s2 a2 ∙ z' in
    (rw t (rw u (rw at_colon (rw at_value (rw t' (rw u'))))), z)

Ws-finish :
    (w : Bytes) (out : Msg) (has_type : Bool) → Ws w → finish w out has_type ≡ (out, has_type)
unfolding finish skip_ws
Ws-finish w out has_type a =
    let e : skip_ws w ≡ [] = ap skip_ws (sym (append-nil w)) ∙ Ws-skip_ws w [] a in rw (e, finish)

Member-head : {s key value rest : Bytes} → Member s key value rest → (t : Bytes) × (s ≡ b'"' ∷ t)
Member-head (member w1 w2 (quoted {raw} {rest = r} g t e) a1 a2 p) = (raw ++ (b'"' ∷ r), e)

Quoted-length : {s out rest : Bytes} → Quoted s out rest → length rest < length s
Quoted-length (quoted {raw} {rest} g t e) =
    omega (arith, ap length e, length-append {0} raw (b'"' ∷ rest))

Member-length : {s key value rest : Bytes} → Member s key value rest → length rest < length s
Member-length (member {s2} w1 w2 q a1 a2 p) = omega (
  arith,
  Quoted-length q,
  Quoted-length p,
  length-append {0} w1 (b':' ∷ (w2 ++ s2)),
  length-append {0} w2 s2,
)

-- What the loop does at a member with a comma or a closing brace behind it.
members_step :
    (fuel : ℕ) {s m : Bytes} (w w' : Bytes) (d : ℕ) (s' : Bytes) {k v : Bytes} (out : Msg)
    (has_type : Bool)
    → Ws w
    → Member m k v (w' ++ (d ∷ s'))
    → Ws w'
    → s ≡ w ++ m
    → is_ws d ≡ false
    → members (suc fuel) s out has_type ≡ (
        let has' = bytes_eq k (codes "type") || has_type in
        if d == b','
        then members fuel s' (set_field k v out) has'
        else if d == b'}'
        then finish s' (set_field k v out) has'
        else (set_field k v out, false))
unfolding members
members_step fuel {s} {m} w w' d s' {k} {v} out has_type a g a' e nd =
    let (t, em) = Member-head g in
    let (r, z) = Member-read_member g in
    let at_member : skip_ws s ≡ b'"' ∷ t = ap skip_ws e ∙ Ws-skip_ws w m a ∙ z ∙ em in
    let at_end = skip_to w' d s' a' nd in
    let r' : read_member (b'"' ∷ t) ≡ some (k, v, w' ++ (d ∷ s')) = rw em at r in
    rw (at_member, members) (rw r' (rw at_end))

Body-members :
    (fuel : ℕ) {s rest : Bytes} {kvs : List (Bytes × Bytes)} (out : Msg) (has_type : Bool)
    → Body s kvs rest
    → Ws rest
    → length s ≤ fuel
    → members fuel s out has_type ≡ (apply kvs out, has_key (codes "type") kvs || has_type)
unfolding members
Body-members zero out has_type (close {s} {rest} w a e) b h =
    absurd (omega (arith, ap length e, length-append {0} w (b'}' ∷ rest)))
Body-members (suc fuel) out has_type (close {s} {rest} w a e) b h =
    let at_brace : skip_ws s ≡ b'}' ∷ rest = ap skip_ws e ∙ skip_to w b'}' rest a refl in
    rw (at_brace, members) (Ws-finish rest out has_type b)
Body-members zero out has_type (last {s} {m} w w' a g a' e) b h =
    absurd (omega (arith, ap length e, length-append {0} w m, Member-length g))
Body-members (suc fuel) out has_type (last {key} {value} {rest} w w' a g a' e) b h =
    members_step fuel w w' b'}' rest out has_type a g a' e refl
    ∙ Ws-finish rest (set_field key value out) _ b
    ∙ ground arith
Body-members zero out has_type (more {s} {m} w w' a g a' e t) b h =
    absurd (omega (arith, ap length e, length-append {0} w m, Member-length g))
Body-members (suc fuel) out has_type (more {s} {m} {s'} {key} {value} w w' a g a' e t) b h =
    members_step fuel w w' b',' s' out has_type a g a' e refl
    ∙ Body-members fuel (set_field key value out) _ t b (
        omega (
          arith,
          ap length e,
          length-append {0} w m,
          length-append {0} w' (b',' ∷ s'),
          Member-length g,
        ))
    ∙ ground arith

-- An object of the grammar is read to its end; the result is whether it has a key `type`, and the
-- message is what the members mean.
pub Object-flat_message :
    {s : Bytes} {kvs : List (Bytes × Bytes)} (out : Msg)
    → Object s kvs
    → flat_message s out ≡ (apply kvs out, has_key (codes "type") kvs)
unfolding flat_message
Object-flat_message out (object {s} {t} w a e body b) =
    let at_brace : skip_ws s ≡ b'{' ∷ t = ap skip_ws e ∙ skip_to w b'{' t a refl in
    rw (at_brace, flat_message)
      (Body-members (length t) out false body b (omega arith) ∙ ground arith)
