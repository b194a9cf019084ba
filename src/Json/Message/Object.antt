-- ===== src/Json/Message/Object.antt =====
-- The grammar of flat JSON objects whose keys and values are strings, with white space, as broker
-- messages are meant to be; and what the members of one mean for a message. Independent of the loop in
-- src/broker/ProviderJson.cpp, which is compared with it. A comma may stand before the closing brace.
use dot1xcp.Base.{ℕ, ◌≡◌, ◌⊎◌, Bool, false, ◌||◌, List, [], ◌∷◌, ◌++◌, Bytes, bytes_eq, All}
use dot1xcp.Json.Token.{Raw}
use dot1xcp.Json.Unescape.Grammar.{Text}
use dot1xcp.Json.Message.{Msg, set_field}

abbrev pub IsSpace : ℕ → Type 0
IsSpace c = (c ≡ b' ') ⊎ (c ≡ 9) ⊎ (c ≡ 13) ⊎ (c ≡ 10)

abbrev pub Ws : Bytes → Type 0
Ws = All IsSpace

-- A quoted string that stands for `out`, with `rest` behind it.
pub data Quoted : Bytes → Bytes → Bytes → Type 0 where
  quoted :
      {raw out rest s : Bytes}
      → Raw false raw
      → Text raw out
      → s ≡ b'"' ∷ (raw ++ (b'"' ∷ rest))
      → Quoted s out rest

-- `key : value`, with `rest` behind it.
pub data Member : Bytes → Bytes → Bytes → Bytes → Type 0 where
  member :
      {s key value s2 rest : Bytes} (w1 w2 : Bytes)
      → Quoted s key (w1 ++ (b':' ∷ (w2 ++ s2)))
      → Ws w1
      → Ws w2
      → Quoted s2 value rest
      → Member s key value rest

-- What stands behind an opening brace or a comma, up to and with the closing brace.
pub data Body : Bytes → List (Bytes × Bytes) → Bytes → Type 0 where
  close : {s rest : Bytes} (w : Bytes) → Ws w → s ≡ w ++ (b'}' ∷ rest) → Body s [] rest
  last :
      {s m key value rest : Bytes} (w w' : Bytes)
      → Ws w
      → Member m key value (w' ++ (b'}' ∷ rest))
      → Ws w'
      → s ≡ w ++ m
      → Body s ((key, value) ∷ []) rest
  more :
      {s m s' key value rest : Bytes} {kvs : List (Bytes × Bytes)} (w w' : Bytes)
      → Ws w
      → Member m key value (w' ++ (b',' ∷ s'))
      → Ws w'
      → s ≡ w ++ m
      → Body s' kvs rest
      → Body s ((key, value) ∷ kvs) rest

-- A whole text.
pub data Object : Bytes → List (Bytes × Bytes) → Type 0 where
  object :
      {s t w' : Bytes} {kvs : List (Bytes × Bytes)} (w : Bytes)
      → Ws w
      → s ≡ w ++ (b'{' ∷ t)
      → Body t kvs w'
      → Ws w'
      → Object s kvs

-- The members in their order; a later member wins over an earlier one with the same key.
abbrev pub apply : List (Bytes × Bytes) → Msg → Msg
apply [] m = m
apply ((k, v) ∷ kvs) m = apply kvs (set_field k v m)

abbrev pub has_key : Bytes → List (Bytes × Bytes) → Bool
has_key key [] = false
has_key key ((k, v) ∷ kvs) = bytes_eq k key || has_key key kvs

abbrev pub empty_msg : Msg
empty_msg = record { type = []; sam = []; password = []; reason = [] }
