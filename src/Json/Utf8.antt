-- ===== src/Json/Utf8.antt =====
-- UTF-8 output of one code point (src/broker/ProviderJson.cpp: `AppendUtf8`), against a decoder.
use dot1xcp.Base.{
  ℕ, zero, suc, ◌+◌, ◌-◌, ◌*◌, ◌/◌, ◌%◌, ◌<◌, ◌≡◌, ◌&&◌, Option, none, some, [], ◌∷◌, ◌++◌, arith,
  leb, if◌then◌else◌, Bytes, All,
}

-- The bytes that `AppendUtf8` pushes. `cp >> k` is `cp / 2 ^ k` and `cp & 0x3F` is `cp % 64`; the
-- marker bits `0xC0`, `0x80`, `0xE0` and `0xF0` do not overlap the bits that they are joined to
-- while `cp` is a code point, so `|` is `+`, and a pushed `char` is a byte, `% 256`.
unfoldable pub utf8 : ℕ → Bytes
utf8 cp =
    if leb cp 0x7F
    then cp ∷ []
    else if leb cp 0x7FF
    then ((0xC0 + cp / 64) % 256) ∷ (0x80 + cp % 64) ∷ []
    else if leb cp 0xFFFF
    then ((0xE0 + cp / 4096) % 256) ∷ (0x80 + cp / 64 % 64) ∷ (0x80 + cp % 64) ∷ []
    else ((0xF0 + cp / 262144) % 256)
      ∷ (0x80 + cp / 4096 % 64)
      ∷ (0x80 + cp / 64 % 64)
      ∷ (0x80 + cp % 64)
      ∷ []

-- An independent reading of UTF-8: `more n cp s` reads `n` continuation bytes after the bits `cp`.
unfoldable pub more : ℕ → ℕ → Bytes → Option (ℕ × Bytes)
more zero cp s = some (cp, s)
more (suc n) cp [] = none
more (suc n) cp (b ∷ s) =
    let rest = more n (cp * 64 + (b - 0x80)) s in if leb 0x80 b && leb b 0xBF then rest else none

-- `within lo hi r` keeps a code point of the range only, so that overlong forms are refused.
abbrev within : ℕ → ℕ → Option (ℕ × Bytes) → Option (ℕ × Bytes)
within lo hi none = none
within lo hi (some (cp, s)) = if leb lo cp && leb cp hi then some (cp, s) else none

unfoldable pub decode : Bytes → Option (ℕ × Bytes)
unfolding more
decode [] = none
decode (b ∷ s) =
    if leb b 0x7F
    then some (b, s)
    else if leb 0xC0 b && leb b 0xDF
    then within 0x80 0x7FF (more 1 (b - 0xC0) s)
    else if leb 0xE0 b && leb b 0xEF
    then within 0x800 0xFFFF (more 2 (b - 0xE0) s)
    else if leb 0xF0 b && leb b 0xF7
    then within 0x10000 0x10FFFF (more 3 (b - 0xF0) s)
    else none

-- A strict UTF-8 decoder, which refuses overlong forms, reads back from `AppendUtf8`'s output the
-- code point that was written, whatever follows it, and stops right behind it.
pub decode-utf8 :
    (cp : ℕ) (rest : Bytes) → cp < 0x110000 → decode (utf8 cp ++ rest) ≡ some (cp, rest)
unfolding decode utf8
decode-utf8 cp rest h = ground arith

-- Every byte written is a byte.
pub utf8-bytes : (cp : ℕ) → cp < 0x110000 → All (λ b. b < 256) (utf8 cp)
unfolding utf8
utf8-bytes cp h = ground arith
