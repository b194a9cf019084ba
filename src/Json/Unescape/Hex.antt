-- ===== src/Json/Unescape/Hex.antt =====
-- Four hexadecimal digits and the short escapes (src/broker/ProviderJson.cpp: `ParseHex4`, the switch
-- of `UnescapeJsonString`) against the grammar.
use dot1xcp.Base.{
  ℕ, suc, ◌+◌, ◌*◌, ◌≡◌, refl, subst, inl, inr, true, some, [], ◌∷◌, ◌++◌, arith, leb, Option-cases,
  length, Bytes,
}
use dot1xcp.Json.Chars.{hex_value}
use dot1xcp.Json.Unescape.{hex_digits, parse_hex4, skip4, short_escape}
use dot1xcp.Json.Unescape.Grammar.{HexDigit, Digits, digits, Short}

pub hex_value-HexDigit : (c v : ℕ) → hex_value c ≡ some v → HexDigit c v
unfolding hex_value
hex_value-HexDigit c v h = ground arith

pub HexDigit-hex_value : (c v : ℕ) → HexDigit c v → hex_value c ≡ some v
unfolding hex_value
HexDigit-hex_value c v h = ground arith

hex_digits-suc :
    (n cp c : ℕ) (s : Bytes) {r : ℕ}
    → hex_digits (suc n) cp (c ∷ s) ≡ some r
    → (v : ℕ) × (HexDigit c v) × (hex_digits n (cp * 16 + v) s ≡ some r)
unfolding hex_digits
hex_digits-suc n cp c s h = elim (Option-cases (hex_value c)) [
  | inl e ↦ cc (rw (e, hex_digits) at h)
  | inr (v, e) ↦ (v, hex_value-HexDigit c v e, rw (e, hex_digits) at h)
]

-- Four digits, or no value.
pub parse_hex4-Digits :
    (s : Bytes) {cp : ℕ} → parse_hex4 s ≡ some cp → (d : Bytes) × Digits d cp × (s ≡ d ++ skip4 s)
unfolding parse_hex4 hex_digits
parse_hex4-Digits (a ∷ b ∷ c ∷ d ∷ s) h =
    let (va, ha, h1) = hex_digits-suc 3 0 a (b ∷ c ∷ d ∷ s) h in
    let (vb, hb, h2) = hex_digits-suc 2 (0 * 16 + va) b (c ∷ d ∷ s) h1 in
    let (vc, hc, h3) = hex_digits-suc 1 ((0 * 16 + va) * 16 + vb) c (d ∷ s) h2 in
    let (vd, hd, h4) = hex_digits-suc 0 (((0 * 16 + va) * 16 + vb) * 16 + vc) d s h3 in
    (a ∷ b ∷ c ∷ d ∷ [], subst (Digits _) (ground arith) (digits ha hb hc hd), refl)
parse_hex4-Digits [] h = cc
parse_hex4-Digits (a ∷ []) h = ground arith
parse_hex4-Digits (a ∷ b ∷ []) h = ground arith
parse_hex4-Digits (a ∷ b ∷ c ∷ []) h = ground arith

pub Digits-parse_hex4 :
    {d : Bytes} {cp : ℕ} (s : Bytes) → Digits d cp → parse_hex4 (d ++ s) ≡ some cp
unfolding parse_hex4 hex_digits
Digits-parse_hex4 s (digits {a} {b} {c} {d} {va} {vb} {vc} {vd} ha hb hc hd) = ground (
  arith,
  HexDigit-hex_value a va ha,
  HexDigit-hex_value b vb hb,
  HexDigit-hex_value c vc hc,
  HexDigit-hex_value d vd hd,
)

pub Digits-skip4 : {d : Bytes} {cp : ℕ} (s : Bytes) → Digits d cp → skip4 (d ++ s) ≡ s
Digits-skip4 s (digits ha hb hc hd) = refl

pub Digits-length : {d : Bytes} {cp : ℕ} (s : Bytes) → Digits d cp → leb 4 (length (d ++ s)) ≡ true
Digits-length s (digits ha hb hc hd) = ground arith

pub short_escape-Short : (e v : ℕ) → short_escape e ≡ some v → Short e v
unfolding short_escape
short_escape-Short e v h = ground arith

pub Short-short_escape : (e v : ℕ) → Short e v → short_escape e ≡ some v
unfolding short_escape
Short-short_escape e v h = ground arith
