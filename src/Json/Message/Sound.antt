-- ===== src/Json/Message/Sound.antt =====
-- What `ParseFlatBrokerMessage` (src/broker/ProviderJson.cpp) accepts is in the grammar of objects.
use dot1xcp.Base.{
  ℕ, zero, suc, ◌≡◌, sym, ap, subst, ◌∙◌, inl, inr, Bool, true, false, ◌||◌, some, List, [], ◌∷◌,
  ◌++◌, append-nil, arith, ◌==◌, Bool-cases, Option-cases, >>=-eq-some, some-eq-some, length,
  List-cases, Bytes, codes, bytes_eq,
}
use dot1xcp.Json.Chars.{skip_ws}
use dot1xcp.Json.Token.{quoted_token, quoted_token_iff}
use dot1xcp.Json.Unescape.{unescape}
use dot1xcp.Json.Unescape.Sound.{unescape-Text}
use dot1xcp.Json.Message.{flat_message, set_field, members, Msg, colon, read_member, finish}
use dot1xcp.Json.Message.Object.{
  object, has_key, last, apply, Object, more, Body, close, Ws, Quoted, quoted, Member, member,
}
use dot1xcp.Json.Message.Spaces.{skip_ws-Ws}

token-Quoted :
    (s : Bytes) {raw out rest : Bytes}
    → quoted_token s ≡ some (raw, rest)
    → unescape raw ≡ some out
    → Quoted s out rest
token-Quoted s {raw} {out} {rest} t u =
    let (g, e) = (quoted_token_iff s raw rest).0 t in quoted g (unescape-Text raw u) e

colon-eq-some : (s : Bytes) {r : Bytes} → colon s ≡ some r → s ≡ b':' ∷ r
unfolding colon
colon-eq-some [] h = cc
colon-eq-some (c ∷ s) h = ground arith

parts-Member :
    (s s1 s2 : Bytes) {key_raw key value_raw value rest : Bytes}
    → quoted_token s ≡ some (key_raw, s1)
    → unescape key_raw ≡ some key
    → colon (skip_ws s1) ≡ some s2
    → quoted_token (skip_ws s2) ≡ some (value_raw, rest)
    → unescape value_raw ≡ some value
    → Member s key value rest
parts-Member s s1 s2 q u c p v =
    let (w1, a1, e1) = skip_ws-Ws s1 in
    let (w2, a2, e2) = skip_ws-Ws s2 in
    let back : s1 ≡ w1 ++ (b':' ∷ (w2 ++ skip_ws s2)) = cc (e1, e2, colon-eq-some (skip_ws s1) c) in
    member w1 w2 (subst (Quoted s _) back (token-Quoted s q u)) a1 a2
      (token-Quoted (skip_ws s2) p v)

Member-Member :
    (s : Bytes) {key value rest : Bytes}
    → read_member s ≡ some (key, value, rest)
    → Member s key value rest
unfolding read_member
Member-Member s {key} {value} {rest} h =
    let ((kr, s1), q, h1) = >>=-eq-some (quoted_token s) _ h in
    let (k, u, h2) = >>=-eq-some (unescape kr) _ h1 in
    let (s2, c, h3) = >>=-eq-some (colon (skip_ws s1)) _ h2 in
    let ((vr, s3), p, h4) = >>=-eq-some (quoted_token (skip_ws s2)) _ h3 in
    let (v, w, h5) = >>=-eq-some (unescape vr) _ h4 in
    subst (λ (t : Bytes × Bytes × Bytes). Member s t.0 t.1 t.2) (some-eq-some h5)
      (parts-Member s s1 s2 q u c p w)

finish-Ws :
    (s : Bytes) (out : Msg) (has_type : Bool) {m : Msg}
    → finish s out has_type ≡ (m, true)
    → Ws s × (m ≡ out) × (has_type ≡ true)
unfolding finish
finish-Ws s out has_type h =
    let (w, a, e) = skip_ws-Ws s in
    elim (List-cases (skip_ws s)) [
      | inl n ↦
          let h' = rw (n, finish) at h in
          (subst Ws (sym (e ∙ ap (λ t. w ++ t) n ∙ append-nil w)) a, cc h', cc h')
      | inr (c, r, n) ↦ let h' = rw (n, finish) at h in cc h'
    ]

abbrev type_key : Bytes
type_key = codes "type"

-- One round that does not fail: the closing brace, or a member with a comma or the brace behind it.
data Round (fuel : ℕ) (s : Bytes) (out : Msg) (has_type : Bool) (r : Msg × Bool) : Type 0 where
  closes :
      (s1 : Bytes)
      → skip_ws s ≡ b'}' ∷ s1
      → finish s1 out has_type ≡ r
      → Round fuel s out has_type r
  continues :
      (k v s2 s3 : Bytes)
      → read_member (skip_ws s) ≡ some (k, v, s2)
      → skip_ws s2 ≡ b',' ∷ s3
      → members fuel s3 (set_field k v out) (bytes_eq k type_key || has_type) ≡ r
      → Round fuel s out has_type r
  ends :
      (k v s2 s3 : Bytes)
      → read_member (skip_ws s) ≡ some (k, v, s2)
      → skip_ws s2 ≡ b'}' ∷ s3
      → finish s3 (set_field k v out) (bytes_eq k type_key || has_type) ≡ r
      → Round fuel s out has_type r

members-Round :
    (fuel : ℕ) (s : Bytes) (out : Msg) (has_type : Bool) {m : Msg}
    → members (suc fuel) s out has_type ≡ (m, true)
    → Round fuel s out has_type (m, true)
unfolding members
members-Round fuel s out has_type h = elim (List-cases (skip_ws s)) [
  | inl n ↦ cc (rw (n, members) at h)
  | inr (c, s1, n) ↦
      let h1 = rw (n, members) at h in
      elim (Bool-cases (c == b'}')) [
        | inl b ↦ closes s1 (n ∙ ap (λ x. x ∷ s1) (ground arith)) (rw b at h1)
        | inr b ↦
            let h2 = rw b at h1 in
            elim (Option-cases (read_member (c ∷ s1))) [
              | inl e ↦ cc (rw e at h2)
              | inr ((k, v, s2), e) ↦
                  let h3 = rw e at h2 in
                  elim (List-cases (skip_ws s2)) [
                    | inl n2 ↦ cc (rw n2 at h3)
                    | inr (d, s3, n2) ↦
                        let h4 = rw n2 at h3 in
                        elim (Bool-cases (d == b',')) [
                          | inl q ↦
                              continues k v s2 s3 (ap read_member n ∙ e)
                                (n2 ∙ ap (λ x. x ∷ s3) (ground arith)) (rw q at h4)
                          | inr q ↦ elim (Bool-cases (d == b'}')) [
                            | inl z ↦
                                ends k v s2 s3 (ap read_member n ∙ e)
                                  (n2 ∙ ap (λ x. x ∷ s3) (ground arith)) (rw (q, z) at h4)
                            | inr z ↦ cc (rw (q, z) at h4)
                          ]
                        ]
                  ]
            ]
      ]
]

-- What is read from `s` before the closing brace, what is left behind it, and what that means.
abbrev Accepts : Bytes → Msg → Bool → Msg → Type 0
Accepts s out has_type m =
    (kvs : List (Bytes × Bytes)) × (rest : Bytes) × Body s kvs rest
    × Ws rest
    × (m ≡ apply kvs out)
    × ((has_key type_key kvs || has_type) ≡ true)

Member-at :
    (s : Bytes) (d : ℕ) {k v s2 s3 : Bytes}
    → read_member s ≡ some (k, v, s2)
    → skip_ws s2 ≡ d ∷ s3
    → (w : Bytes) × Ws w × Member s k v (w ++ (d ∷ s3))
Member-at s d {k} {v} {s2} r n =
    let (w, a, e) = skip_ws-Ws s2 in
    (w, a, subst (Member s k v) (e ∙ ap (λ t. w ++ t) n) (Member-Member s r))

members-Accepts :
    (fuel : ℕ) (s : Bytes) (out : Msg) (has_type : Bool) {m : Msg}
    → members fuel s out has_type ≡ (m, true)
    → Accepts s out has_type m
unfolding members
members-Accepts zero s out has_type h = cc
members-Accepts (suc fuel) s out has_type {m} h =
    read (members-Round fuel s out has_type h) (λ k v s3.
      members-Accepts fuel s3 (set_field k v out) (bytes_eq k type_key || has_type) {m = m})
  where
    read :
        Round fuel s out has_type (m, true)
        → ((k v s3 : Bytes)
            → members fuel s3 (set_field k v out) (bytes_eq k type_key || has_type) ≡ (m, true)
            → Accepts s3 (set_field k v out) (bytes_eq k type_key || has_type) m)
        → Accepts s out has_type m
    read (closes s1 n f) ih =
        let (w, a, e) = skip_ws-Ws s in
        let (b, em, et) = finish-Ws s1 out has_type f in
        ([], s1, close w a (e ∙ ap (λ t. w ++ t) n), b, em, et)
    read (continues k v s2 s3 r n f) ih =
        let (w, a, e) = skip_ws-Ws s in
        let (w', a', g) = Member-at (skip_ws s) b',' r n in
        let (kvs, rest, body, b, em, et) = ih k v s3 f in
        ((k, v) ∷ kvs, rest, more w w' a g a' e body, b, em, ground arith)
    read (ends k v s2 s3 r n f) ih =
        let (w, a, e) = skip_ws-Ws s in
        let (w', a', g) = Member-at (skip_ws s) b'}' r n in
        let (b, em, et) = finish-Ws s3 (set_field k v out) (bytes_eq k type_key || has_type) f in
        ((k, v) ∷ [], s3, last w w' a g a' e, b, em, ground arith)

-- What `ParseFlatBrokerMessage` accepts is an object of the grammar with a key `type`, and the message
-- is what its members mean.
pub flat_message-Object :
    (s : Bytes) (out : Msg) {m : Msg}
    → flat_message s out ≡ (m, true)
    → (kvs : List (Bytes × Bytes)) × Object s kvs × (m ≡ apply kvs out)
unfolding flat_message
flat_message-Object s out {m} h = elim (List-cases (skip_ws s)) [
  | inl n ↦ cc (rw (n, flat_message) at h)
  | inr (c, t, n) ↦
      let h1 = rw (n, flat_message) at h in
      elim (Bool-cases (c == b'{')) [
        | inl b ↦
            let (w, a, e) = skip_ws-Ws s in
            let (kvs, rest, body, ws, em, et) =
              members-Accepts (length t) t out false (rw b at h1) in
            (
              kvs,
              object w a (e ∙ ap (λ t. w ++ t) (n ∙ ap (λ x. x ∷ t) (ground arith))) body ws,
              em,
            )
        | inr b ↦ cc (rw b at h1)
      ]
]
