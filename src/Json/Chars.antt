-- ===== src/Json/Chars.antt =====
-- White space, trimming and hexadecimal digits (src/broker/ProviderJson.cpp: `Trim`, `HexValue`,
-- `SkipWs`). A position in a string is modelled by the suffix that starts there.
use dot1xcp.Base.{
  ℕ, ◌+◌, ◌-◌, ◌<◌, ◌≡◌, Bool, ◌&&◌, ◌||◌, Option, none, some, [], ◌∷◌, reverse, arith, leb, ◌==◌,
  if◌then◌else◌, Bytes,
}

abbrev pub is_ws : ℕ → Bool
is_ws c = c == b' ' || c == b'\t' || c == b'\r' || c == b'\n'

-- `SkipWs`: the suffix after the white space at the front.
unfoldable pub skip_ws : Bytes → Bytes
skip_ws [] = []
skip_ws (c ∷ s) = let rest = skip_ws s in if is_ws c then rest else c ∷ s

-- `Trim`: the first loop moves `i` up, the second moves `j` down, and `substr` is what is left.
unfoldable pub trim : Bytes → Bytes
trim s = reverse (skip_ws (reverse (skip_ws s)))

-- `HexValue`; `none` is the result -1.
unfoldable pub hex_value : ℕ → Option ℕ
hex_value c =
    if leb b'0' c && leb c b'9'
    then some (c - b'0')
    else if leb b'a' c && leb c b'f'
    then some (c - b'a' + 10)
    else if leb b'A' c && leb c b'F'
    then some (c - b'A' + 10)
    else none

-- A hexadecimal digit stands for a number below 16.
pub hex_value-lt : (c : ℕ) {v : ℕ} → hex_value c ≡ some v → v < 16
unfolding hex_value
hex_value-lt c h = ground arith
