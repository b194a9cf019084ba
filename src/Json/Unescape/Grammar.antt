-- ===== src/Json/Unescape/Grammar.antt =====
-- The grammar of JSON string contents, as a relation between the raw characters and the bytes that
-- they stand for. Independent of src/broker/ProviderJson.cpp, whose unescaping is compared with it.
use dot1xcp.Base.{ℕ, ◌+◌, ◌-◌, ◌*◌, ◌≤◌, ◌<◌, ◌≡◌, ◌≢◌, ◌⊎◌, [], ◌∷◌, ◌++◌, Bytes}
use dot1xcp.Json.Utf8.{utf8}

-- `c` is a hexadecimal digit of value `v`.
abbrev pub HexDigit : ℕ → ℕ → Type 0
HexDigit c v =
    ((v < 10) × (c ≡ b'0' + v))
    ⊎ ((v < 16) × (10 ≤ v) × (c + 10 ≡ b'a' + v))
    ⊎ ((v < 16) × (10 ≤ v) × (c + 10 ≡ b'A' + v))

pub data Digits : Bytes → ℕ → Type 0 where
  digits :
      {a b c d va vb vc vd : ℕ}
      → HexDigit a va
      → HexDigit b vb
      → HexDigit c vc
      → HexDigit d vd
      → Digits (a ∷ b ∷ c ∷ d ∷ []) (((va * 16 + vb) * 16 + vc) * 16 + vd)

-- The escapes of two characters.
abbrev pub Short : ℕ → ℕ → Type 0
Short e v =
    ((e ≡ b'"') × (v ≡ b'"'))
    ⊎ ((e ≡ b'\\') × (v ≡ b'\\'))
    ⊎ ((e ≡ b'/') × (v ≡ b'/'))
    ⊎ ((e ≡ b'b') × (v ≡ 8))
    ⊎ ((e ≡ b'f') × (v ≡ 12))
    ⊎ ((e ≡ b'n') × (v ≡ 10))
    ⊎ ((e ≡ b'r') × (v ≡ 13))
    ⊎ ((e ≡ b't') × (v ≡ 9))

-- One character of the string, raw and as what it stands for.
pub data Item : Bytes → Bytes → Type 0 where
  plain : {c : ℕ} → c ≢ b'\\' → Item (c ∷ []) (c ∷ [])
  short : {e v : ℕ} → Short e v → Item (b'\\' ∷ e ∷ []) (v ∷ [])
  scalar :
      {d : Bytes} {cp : ℕ}
      → Digits d cp
      → (cp < 0xD800) ⊎ (0xDFFF < cp)
      → Item (b'\\' ∷ b'u' ∷ d) (utf8 cp)
  pair :
      {d e : Bytes} {hi lo cp : ℕ}
      → Digits d hi
      → Digits e lo
      → (0xD800 ≤ hi) × (hi < 0xDC00)
      → (0xDC00 ≤ lo) × (lo < 0xE000)
      → cp ≡ 0x10000 + (hi - 0xD800) * 0x400 + (lo - 0xDC00)
      → Item (b'\\' ∷ b'u' ∷ (d ++ (b'\\' ∷ b'u' ∷ e))) (utf8 cp)

pub data Text : Bytes → Bytes → Type 0 where
  done : Text [] []
  next :
      {chunk meaning raw out raw' out' : Bytes}
      → Item chunk meaning
      → Text raw out
      → raw' ≡ chunk ++ raw
      → out' ≡ meaning ++ out
      → Text raw' out'
