-- ===== src/Json/Unescape/Complete.antt =====
-- What is in the grammar, `UnescapeJsonString` (src/broker/ProviderJson.cpp) accepts.
use dot1xcp.Base.{
  ℕ, zero, suc, ◌≤◌, ◌<◌, ◌≡◌, refl, ap, ◌∙◌, ◌↔◌, ◌⊎◌, some, [], ◌∷◌, ◌++◌, append-nil,
  append_assoc, arith, length, length-append, Bytes,
}
use dot1xcp.Json.Utf8.{utf8}
use dot1xcp.Json.Unescape.{
  join, low_half, unicode, short_escape, escape, item, unescape_loop, unescape,
}
use dot1xcp.Json.Unescape.Grammar.{Digits, Item, plain, short, scalar, pair, Text, done, next}
use dot1xcp.Json.Unescape.Sound.{unescape-Text}
use dot1xcp.Json.Unescape.Hex.{Digits-parse_hex4, Digits-skip4, Digits-length, Short-short_escape}

Digits-unicode :
    {d : Bytes} {cp : ℕ} (r : Bytes)
    → Digits d cp
    → (cp < 0xD800) ⊎ (0xDFFF < cp)
    → unicode (d ++ r) ≡ some (utf8 cp, r)
unfolding unicode
Digits-unicode {d} {cp} r g h =
    rw (Digits-parse_hex4 r g, unicode) (ground (arith, Digits-skip4 r g))

Digits-unicode_pair :
    {d e : Bytes} {hi lo : ℕ} (r : Bytes)
    → Digits d hi
    → Digits e lo
    → (0xD800 ≤ hi) × (hi < 0xDC00)
    → (0xDC00 ≤ lo) × (lo < 0xE000)
    → unicode (d ++ (b'\\' ∷ b'u' ∷ (e ++ r))) ≡ some (utf8 (join hi lo), r)
unfolding unicode low_half
Digits-unicode_pair {d} {e} {hi} {lo} r g k high low =
    let after = b'\\' ∷ b'u' ∷ (e ++ r) in
    rw (Digits-parse_hex4 after g, unicode)
      (rw (Digits-skip4 after g) (
        rw (Digits-parse_hex4 r k, low_half) (ground (arith, Digits-length r k, Digits-skip4 r k))))

unicode-item :
    (s : Bytes) {m r : Bytes} → unicode s ≡ some (m, r) → item b'\\' (b'u' ∷ s) ≡ some (m, r)
unfolding item escape short_escape
unicode-item s h = h

-- An item of the grammar is what one round of the loop reads.
Item-item :
    {chunk m : Bytes} (r : Bytes)
    → Item chunk m
    → (c : ℕ) × (s : Bytes) × (chunk ++ r ≡ c ∷ s) × (item c s ≡ some (m, r))
Item-item r (plain {c} h) = (c, r, refl, unfold item in ground arith)
Item-item r (short {e} {v} h) =
    (b'\\', e ∷ r, refl, unfold item escape in rw (Short-short_escape e v h, escape))
Item-item r (scalar {d} g h) =
    (b'\\', b'u' ∷ (d ++ r), refl, unicode-item (d ++ r) (Digits-unicode r g h))
Item-item r (pair {d} {e} {hi} {lo} g k high low eq) = (
  b'\\',
  b'u' ∷ (d ++ (b'\\' ∷ b'u' ∷ (e ++ r))),
  rw (append_assoc d (b'\\' ∷ b'u' ∷ e) r),
  unicode-item _ (Digits-unicode_pair r g k high low ∙ ap (λ c. some (utf8 c, r)) (omega arith)),
)

Item-length : {chunk m : Bytes} → Item chunk m → 0 < length chunk
Item-length (plain h) = omega arith
Item-length (short h) = omega arith
Item-length (scalar g h) = omega arith
Item-length (pair g k h l e) = omega arith

Text-unescape_loop :
    {raw t : Bytes} (fuel : ℕ) (out : Bytes)
    → Text raw t
    → length raw ≤ fuel
    → unescape_loop fuel out raw ≡ some (out ++ t)
unfolding unescape_loop
Text-unescape_loop fuel out done h = rw append-nil
Text-unescape_loop zero out (next {chunk} {meaning} {raw} i g er eo) h =
    absurd (omega (arith, Item-length i, ap length er, length-append {0} chunk raw))
Text-unescape_loop (suc fuel) out (next {chunk} {meaning} {raw} {out = t} i g er eo) h =
    let (c, s, ec, ei) = Item-item raw i in
    let shorter : length raw ≤ fuel =
      omega (arith, Item-length i, ap length er, length-append {0} chunk raw) in
    rw (er, ec)
      (rw (ei, unescape_loop)
        (Text-unescape_loop fuel (out ++ meaning) g shorter ∙ rw eo (rw append_assoc)))

-- `UnescapeJsonString` accepts exactly the strings of the grammar, and gives the bytes that they
-- stand for; in particular the fuel always suffices.
pub unescape_iff : (raw out : Bytes) → (unescape raw ≡ some out) ↔ Text raw out
unfolding unescape
unescape_iff raw out = (unescape-Text raw, λ g. Text-unescape_loop (length raw) [] g (omega arith))
