-- ===== src/Json/Unescape/Sound.antt =====
-- What `UnescapeJsonString` (src/broker/ProviderJson.cpp) accepts is in the grammar.
use dot1xcp.Base.{
  ℕ, zero, suc, ◌≤◌, ◌<◌, ◌≡◌, refl, sym, subst, ◌∙◌, inl, inr, some, [], ◌∷◌, ◌++◌, append-nil,
  append_assoc, arith, ◌==◌, Bool-cases, Option-cases, length, Bytes,
}
use dot1xcp.Json.Utf8.{utf8}
use dot1xcp.Json.Unescape.{
  parse_hex4, is_high, join, skip4, low_half, unicode, short_escape, escape, item, unescape_loop,
  unescape,
}
use dot1xcp.Json.Unescape.Grammar.{Digits, Item, plain, short, scalar, pair, Text, done, next}
use dot1xcp.Json.Unescape.Hex.{parse_hex4-Digits, short_escape-Short}

-- What stands at the front of `raw` is one character that means `m`, and `r` is left.
abbrev Reads : Bytes → Bytes → Bytes → Type 0
Reads raw m r = (chunk : Bytes) × Item chunk m × (raw ≡ chunk ++ r)

low_half_inv :
    (hi x u : ℕ) (s : Bytes) {m r : Bytes}
    → low_half hi (x ∷ u ∷ s) ≡ some (m, r)
    → (lo : ℕ) × (x ≡ b'\\')
      × (u ≡ b'u')
      × (parse_hex4 s ≡ some lo)
      × (0xDC00 ≤ lo)
      × (lo < 0xE000)
      × (m ≡ utf8 (join hi lo))
      × (r ≡ skip4 s)
unfolding low_half
low_half_inv hi x u s h = elim (Option-cases (parse_hex4 s)) [
  | inl e ↦ ground arith
  | inr (lo, e) ↦
      (lo, ground arith, ground arith, e, ground arith, ground arith, ground arith, ground arith)
]

low_half-Reads :
    (hi : ℕ) (d s : Bytes) {m r : Bytes}
    → Digits d hi
    → (0xD800 ≤ hi) × (hi < 0xDC00)
    → low_half hi s ≡ some (m, r)
    → Reads (b'\\' ∷ b'u' ∷ (d ++ s)) m r
low_half-Reads hi d [] g high h = unfold low_half in cc
low_half-Reads hi d (x ∷ []) g high h = unfold low_half in cc
low_half-Reads hi d (x ∷ u ∷ s) {m} {r} g high h =
    let (lo, ex, eu, p, l1, l2, em, er) = low_half_inv hi x u s h in
    let (e, ge, es) = parse_hex4-Digits s p in
    (
      b'\\' ∷ b'u' ∷ (d ++ (b'\\' ∷ b'u' ∷ e)),
      subst (Item _) (sym em) (pair g ge high (l1, l2) (omega arith)),
      cc (ex, eu, es, er, append_assoc d (b'\\' ∷ b'u' ∷ e) r),
    )

unicode-Reads : (s : Bytes) {m r : Bytes} → unicode s ≡ some (m, r) → Reads (b'\\' ∷ b'u' ∷ s) m r
unfolding unicode
unicode-Reads s {m} {r} h = elim (Option-cases (parse_hex4 s)) [
  | inl e ↦ cc (rw (e, unicode) at h)
  | inr (cp, e) ↦
      let (d, g, es) = parse_hex4-Digits s e in
      let h' = rw (e, unicode) at h in
      elim (Bool-cases (is_high cp)) [
        | inl high ↦ rw es (low_half-Reads cp d (skip4 s) g (ground arith) (rw high at h'))
        | inr not_high ↦
            let er : r ≡ skip4 s = ground arith in
            (
              b'\\' ∷ b'u' ∷ d,
              subst (Item _) (ground arith) (scalar {cp = cp} g (ground arith)),
              cc (es, er),
            )
      ]
]

escape-Reads :
    (e : ℕ) (s : Bytes) {m r : Bytes} → escape e s ≡ some (m, r) → Reads (b'\\' ∷ e ∷ s) m r
unfolding escape
escape-Reads e s {m} {r} h = elim (Option-cases (short_escape e)) [
  | inl other ↦
      let h' = rw (other, escape) at h in
      let eu : e ≡ b'u' = ground arith in rw eu (unicode-Reads s (ground arith))
  | inr (v, k) ↦
      let h' = rw (k, escape) at h in
      (
        b'\\' ∷ e ∷ [],
        subst (Item _) (ground arith) (short (short_escape-Short e v k)),
        ground arith,
      )
]

item-Reads : (c : ℕ) (s : Bytes) {m r : Bytes} → item c s ≡ some (m, r) → Reads (c ∷ s) m r
unfolding item
item-Reads c [] h =
    (c ∷ [], subst (Item _) (ground arith) (plain {c = c} (ground arith)), ground arith)
item-Reads c (e ∷ s) {m} {r} h = elim (Bool-cases (c == b'\\')) [
  | inl q ↦ let ec : c ≡ b'\\' = ground arith in rw ec (escape-Reads e s (ground arith))
  | inr q ↦ (c ∷ [], subst (Item _) (ground arith) (plain {c = c} (ground arith)), ground arith)
]

unescape_loop-Text :
    (fuel : ℕ) (out raw : Bytes) {res : Bytes}
    → unescape_loop fuel out raw ≡ some res
    → (t : Bytes) × Text raw t × (res ≡ out ++ t)
unfolding unescape_loop
unescape_loop-Text fuel out [] h = ([], done, rw append-nil (ground arith))
unescape_loop-Text zero out (c ∷ s) h = cc
unescape_loop-Text (suc fuel) out (c ∷ s) h = elim (Option-cases (item c s)) [
  | inl e ↦ cc (rw (e, unescape_loop) at h)
  | inr ((m, r), e) ↦
      let (t, g, et) = unescape_loop-Text fuel (out ++ m) r (rw (e, unescape_loop) at h) in
      let (chunk, i, es) = item-Reads c s e in (m ++ t, next i g es refl, et ∙ append_assoc out m t)
]

-- What `UnescapeJsonString` accepts is a JSON string, and it gives the bytes that it stands for.
pub unescape-Text : (raw : Bytes) {out : Bytes} → unescape raw ≡ some out → Text raw out
unfolding unescape
unescape-Text raw h =
    let (t, g, e) = unescape_loop-Text (length raw) [] raw h in subst (Text raw) (sym e) g
