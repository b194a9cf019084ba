-- ===== src/Json/Message.antt =====
-- Broker messages (src/broker/ProviderJson.h: `Msg`; src/broker/ProviderJson.cpp:
-- `SecureClearString`, `SecureClearMsg`, `ParseFlatBrokerMessage`, `ParseJsonLine`).
pub mod Object
pub mod Spaces
pub mod Sound
pub mod Complete
pub mod Trim
pub mod Line
pub mod Print
use dot1xcp.Base.{
  ◌>>=◌, ℕ, zero, suc, Bool, true, false, not, ◌||◌, Option, none, some, [], ◌∷◌, ◌==◌,
  if◌then◌else◌, length, is_empty, Bytes, codes, bytes_eq,
}
use dot1xcp.Json.Chars.{skip_ws, trim}
use dot1xcp.Json.Token.{quoted_token}
use dot1xcp.Json.Unescape.{unescape}

pub record Msg : Type 0 where
  pub type : Bytes
  pub sam : Bytes
  pub password : Bytes
  pub reason : Bytes

-- `SecureClearString`: the value that the string holds afterwards. That the old characters are
-- overwritten first is not visible in a value.
abbrev pub clear_string : Bytes → Bytes
clear_string s = []

-- `SecureClearMsg`
abbrev pub clear_msg : Msg → Msg
clear_msg m = record {
  type = clear_string m.type;
  sam = clear_string m.sam;
  password = clear_string m.password;
  reason = clear_string m.reason;
}

-- The test for `:` behind a key.
unfoldable pub colon : Bytes → Option Bytes
colon [] = none
colon (c ∷ s) = if c == b':' then some s else none

-- One key, its colon and its value: both as unescaped, and the suffix behind them.
unfoldable pub read_member : Bytes → Option (Bytes × Bytes × Bytes)
read_member s = do
  (key_raw, s1) ← quoted_token s
  key ← unescape key_raw
  s2 ← colon (skip_ws s1)
  (value_raw, s3) ← quoted_token (skip_ws s2)
  value ← unescape value_raw
  some (key, value, s3)

-- The chain of comparisons of the key. A key that is not known changes nothing.
unfoldable pub set_field : Bytes → Bytes → Msg → Msg
set_field key value m =
    if bytes_eq key (codes "type")
    then record m { type = value }
    else if bytes_eq key (codes "sam")
    then record m { sam = value }
    else if bytes_eq key (codes "password")
    then record m { password = value }
    else if bytes_eq key (codes "reason")
    then record m { reason = value }
    else m

-- Behind the closing brace only white space may follow.
unfoldable pub finish : Bytes → Msg → Bool → Msg × Bool
finish s out has_type = elim (skip_ws s) [ [] ↦ (out, has_type) | _ ∷ _ ↦ (out, false) ]

-- The `while (true)` loop, at the suffix at `i`, with `out` and `hasType` as they change. `out` keeps
-- the members read before a failure. Each round consumes a character, so the length is enough fuel.
unfoldable pub members : ℕ → Bytes → Msg → Bool → Msg × Bool
members zero s out has_type = (out, false)
members (suc fuel) s out has_type = elim (skip_ws s) [
  | [] ↦ (out, false)
  | c ∷ s1 ↦ if c == b'}' then finish s1 out has_type else elim (read_member (c ∷ s1)) [
    | none ↦ (out, false)
    | some (key, value, s2) ↦
        let out' = set_field key value out in
        let has_type' = bytes_eq key (codes "type") || has_type in
        elim (skip_ws s2) [
          | [] ↦ (out', false)
          | d ∷ s3 ↦
              let rest = members fuel s3 out' has_type' in
              if d == b','
              then rest
              else if d == b'}'
              then finish s3 out' has_type'
              else (out', false)
        ]
  ]
]

-- `ParseFlatBrokerMessage`: what `out` holds afterwards, and the result.
unfoldable pub flat_message : Bytes → Msg → Msg × Bool
flat_message obj out = elim (skip_ws obj) [
  | [] ↦ (out, false)
  | c ∷ s ↦ if c == b'{' then members (length s) s out false else (out, false)
]

-- The test behind `ParseFlatBrokerMessage`, which clears `out` on a failure.
unfoldable pub accept : Msg × Bool → Msg × Bool
accept (out, parsed) =
    if not parsed || is_empty out.type then (clear_msg out, false) else (out, true)

-- `ParseJsonLine`: what `out` holds afterwards, and the result.
unfoldable pub parse_json_line : Bytes → Msg → Msg × Bool
parse_json_line line out =
    let s = trim line in
    if is_empty s then (clear_msg out, false) else accept (flat_message s (clear_msg out))
