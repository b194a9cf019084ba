-- ===== src/Json/Token.antt =====
-- Quoted tokens (src/broker/ProviderJson.cpp: `ParseJsonQuotedToken`).
use dot1xcp.Base.{
  ℕ, ◌≡◌, refl, ap, subst, ◌≢◌, ◌↔◌, inl, inr, Bool, true, false, Option, none, some, [], ◌∷◌, ◌++◌,
  arith, ◌==◌, if◌then◌else◌, Bool-cases, Bytes,
}

-- The loop behind the opening quote, with its flag `escaped`: the raw token and the suffix behind the
-- closing quote. `none` is the exit at the end of the text, which is the result `false`.
onto : ℕ → Option (Bytes × Bytes) → Option (Bytes × Bytes)
onto c none = none
onto c (some (raw, rest)) = some (c ∷ raw, rest)

scan_token : Bool → Bytes → Option (Bytes × Bytes)
unfolding onto
scan_token escaped [] = none
scan_token true (c ∷ s) = onto c (scan_token false s)
scan_token false (c ∷ s) =
    let rest = scan_token (c == b'\\') s in
    if c == b'\\' then onto c rest else if c == b'"' then some ([], s) else onto c rest

unfoldable pub quoted_token : Bytes → Option (Bytes × Bytes)
unfolding scan_token
quoted_token [] = none
quoted_token (c ∷ s) = if c == b'"' then scan_token false s else none

-- The text of a token: every quote stands behind a backslash that escapes it, and no backslash is
-- left open at the end. The flag says that the first character is escaped.
pub data Raw : Bool → Bytes → Type 0 where
  end : Raw false []
  escaped : {c : ℕ} {s : Bytes} → Raw false s → Raw true (c ∷ s)
  backslash : {c : ℕ} {s : Bytes} → c ≡ b'\\' → Raw true s → Raw false (c ∷ s)
  char : {c : ℕ} {s : Bytes} → c ≢ b'\\' → c ≢ b'"' → Raw false s → Raw false (c ∷ s)

onto-eq-some :
    (c : ℕ) (o : Option (Bytes × Bytes)) {raw rest : Bytes}
    → onto c o ≡ some (raw, rest)
    → (raw' : Bytes) × (raw ≡ c ∷ raw') × (o ≡ some (raw', rest))
unfolding onto
onto-eq-some c none h = cc
onto-eq-some c (some (raw', r)) h = (raw', ground arith, ground arith)

-- What the scan finds, read off one equation for the tail.
abbrev Splits : Bool → Bytes → Bytes → Bytes → Type 0
Splits b s raw rest = Raw b raw × (s ≡ raw ++ (b'"' ∷ rest))

onto-Splits :
    (b d : Bool) (c : ℕ) (s : Bytes) {raw rest : Bytes}
    → ((raw' : Bytes) → Raw d raw' → Raw b (c ∷ raw'))
    → ((raw' : Bytes) → scan_token d s ≡ some (raw', rest) → Splits d s raw' rest)
    → onto c (scan_token d s) ≡ some (raw, rest)
    → Splits b (c ∷ s) raw rest
onto-Splits b d c s wrap ih h =
    let (raw', e, t) = onto-eq-some c (scan_token d s) h in
    let (g, es) = ih raw' t in rw e (wrap raw' g, ap (◌∷◌ c) es)

scan_token-Splits :
    (b : Bool) (s : Bytes) {raw rest : Bytes}
    → scan_token b s ≡ some (raw, rest)
    → Splits b s raw rest
unfolding scan_token
scan_token-Splits true [] h = cc
scan_token-Splits false [] h = cc
scan_token-Splits true (c ∷ s) h =
    onto-Splits true false c s (λ _. escaped) (λ raw'. scan_token-Splits false s {raw = raw'}) h
scan_token-Splits false (c ∷ s) h = elim (Bool-cases (c == b'\\')) [
  | inl e ↦
      onto-Splits false true c s (λ _. backslash (ground arith))
        (λ raw'. scan_token-Splits true s {raw = raw'}) (rw e at h)
  | inr e ↦ elim (Bool-cases (c == b'"')) [
    | inl q ↦ (subst (Raw false) (ground arith) end, ground arith)
    | inr q ↦
        onto-Splits false false c s (λ _. char (ground arith) (ground arith))
          (λ raw'. scan_token-Splits false s {raw = raw'}) (rw (e, q) at h)
  ]
]

Raw-scan_token :
    {b : Bool} {raw : Bytes} (rest : Bytes)
    → Raw b raw
    → scan_token b (raw ++ (b'"' ∷ rest)) ≡ some (raw, rest)
unfolding scan_token
Raw-scan_token rest end = refl
Raw-scan_token rest (escaped g) = rw (Raw-scan_token rest g)
Raw-scan_token rest (backslash e g) = rw e (rw (Raw-scan_token rest g))
Raw-scan_token rest (char n q g) = ground (arith, Raw-scan_token rest g)

-- `ParseJsonQuotedToken` succeeds exactly on a quote, a token text and a closing quote; then the raw
-- token is that text, and the position is behind the closing quote.
pub quoted_token_iff :
    (s raw rest : Bytes)
    → (quoted_token s ≡ some (raw, rest)) ↔ (Raw false raw × (s ≡ b'"' ∷ (raw ++ (b'"' ∷ rest))))
unfolding quoted_token
quoted_token_iff s raw rest = (forth s, λ (g, e). rw e (Raw-scan_token rest g))
  where
    forth :
        (s : Bytes)
        → quoted_token s ≡ some (raw, rest)
        → Raw false raw × (s ≡ b'"' ∷ (raw ++ (b'"' ∷ rest)))
    forth [] h = cc
    forth (c ∷ s) h =
        let (g, e) = scan_token-Splits false s {raw = raw} {rest = rest} (ground arith) in
        (g, ground arith)
