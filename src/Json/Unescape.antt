-- ===== src/Json/Unescape.antt =====
-- Escapes in JSON strings (src/broker/ProviderJson.cpp: `ParseHex4`, `UnescapeJsonString`).
pub mod Grammar
pub mod Hex
pub mod Sound
pub mod Complete
use dot1xcp.Base.{
  ℕ, zero, suc, ◌+◌, ◌-◌, ◌*◌, Bool, ◌&&◌, Option, none, some, [], ◌∷◌, ◌++◌, leb, ◌==◌,
  if◌then◌else◌, length, Bytes,
}
use dot1xcp.Json.Chars.{hex_value}
use dot1xcp.Json.Utf8.{utf8}

-- The loop of `ParseHex4`: `n` digits are still to be read. The shifted value has its low four bits
-- clear and a digit is below 16, so `|` is `+`. Running out is the guard `pos + 4 > s.size()`.
unfoldable pub hex_digits : ℕ → ℕ → Bytes → Option ℕ
hex_digits zero cp s = some cp
hex_digits (suc n) cp [] = none
hex_digits (suc n) cp (c ∷ s) = elim (hex_value c) [
  | none ↦ none
  | some v ↦ hex_digits n (cp * 16 + v) s
]

-- `ParseHex4` on the suffix that starts at `pos`; `none` is the result `false`.
unfoldable pub parse_hex4 : Bytes → Option ℕ
parse_hex4 s = hex_digits 4 0 s

abbrev pub is_high : ℕ → Bool
is_high cp = leb 0xD800 cp && leb cp 0xDBFF

abbrev pub is_low : ℕ → Bool
is_low cp = leb 0xDC00 cp && leb cp 0xDFFF

-- `0x10000 + (((cp1 - 0xD800) << 10) | (cp2 - 0xDC00))`, of a high and a low surrogate.
abbrev pub join : ℕ → ℕ → ℕ
join cp1 cp2 = 0x10000 + ((cp1 - 0xD800) * 1024 + (cp2 - 0xDC00))

-- The four characters that `i += 4` steps over.
abbrev pub skip4 : Bytes → Bytes
skip4 (a ∷ b ∷ c ∷ d ∷ s) = s
skip4 _ = []

-- After `\u` and a high surrogate, at the suffix behind the four digits: a second escape of a low
-- surrogate must follow. The guard `i + 6 < in.size()` is that the suffix has six characters.
unfoldable pub low_half : ℕ → Bytes → Option (Bytes × Bytes)
low_half cp1 (x ∷ u ∷ s) =
    if (leb 4 (length s) && x == b'\\') && u == b'u'
    then elim (parse_hex4 s) [
      | none ↦ none
      | some cp2 ↦ if is_low cp2 then some (utf8 (join cp1 cp2), skip4 s) else none
    ]
    else none
low_half cp1 _ = none

-- The case `'u'`, at the suffix behind the `u`.
unfoldable pub unicode : Bytes → Option (Bytes × Bytes)
unicode s = elim (parse_hex4 s) [
  | none ↦ none
  | some cp1 ↦
      if is_high cp1
      then low_half cp1 (skip4 s)
      else if is_low cp1
      then none
      else some (utf8 cp1, skip4 s)
]

-- The cases of the switch that push one character.
unfoldable pub short_escape : ℕ → Option ℕ
short_escape e =
    if e == b'"'
    then some b'"'
    else if e == b'\\'
    then some b'\\'
    else if e == b'/'
    then some b'/'
    else if e == b'b'
    then some 0x08
    else if e == b'f'
    then some 0x0C
    else if e == b'n'
    then some b'\n'
    else if e == b'r'
    then some b'\r'
    else if e == b't'
    then some b'\t'
    else none

-- The switch on the character `e` behind a backslash: what is pushed, and the suffix that is left.
unfoldable pub escape : ℕ → Bytes → Option (Bytes × Bytes)
escape e s = elim (short_escape e) [
  | some v ↦ some (v ∷ [], s)
  | none ↦ if e == b'u' then unicode s else none
]

-- One round of the loop at a suffix `c ∷ s`.
unfoldable pub item : ℕ → Bytes → Option (Bytes × Bytes)
item c s = if c == b'\\' then elim s [ [] ↦ none | e ∷ r ↦ escape e r ] else some (c ∷ [], s)

-- The loop, with `out` as it grows. Each round consumes a character, so the length of the input is
-- enough fuel.
unfoldable pub unescape_loop : ℕ → Bytes → Bytes → Option Bytes
unescape_loop fuel out [] = some out
unescape_loop zero out (c ∷ s) = none
unescape_loop (suc fuel) out (c ∷ s) = elim (item c s) [
  | none ↦ none
  | some (pushed, rest) ↦ unescape_loop fuel (out ++ pushed) rest
]

-- `UnescapeJsonString`; `none` is the result `false`.
unfoldable pub unescape : Bytes → Option Bytes
unescape s = unescape_loop (length s) [] s
