-- ===== src/Json/Message/Print.antt =====
-- A writer of broker messages, as a reference for `ParseJsonLine` (src/broker/ProviderJson.cpp): what
-- it writes is read back. The writer stands for the other end of the pipe, which is another program.
use Prim.Native.String.{String}
use dot1xcp.Base.{
  ℕ, ◌+◌, ◌-◌, ◌/◌, ◌%◌, ◌<◌, ◌≡◌, refl, sym, subst, ◌≢◌, inl, inr, Bool, true, false, List, [],
  ◌∷◌, ◌++◌, arith, ltb, ◌==◌, if◌then◌else◌, Bool-cases, Bytes, codes, bytes_eq,
}
use dot1xcp.Json.Utf8.{utf8}
use dot1xcp.Json.Token.{Raw, end, escaped, backslash, char}
use dot1xcp.Json.Unescape.Grammar.{HexDigit, digits, Item, plain, short, scalar, Text, done, next}
use dot1xcp.Json.Message.{Msg, set_field, parse_json_line}
use dot1xcp.Json.Message.Object.{
  Quoted, quoted, Member, member, Body, close, last, more, Object, object, apply, empty_msg,
}
use dot1xcp.Json.Message.Line.{parse_json_line_iff}

unfoldable pub hex_char : ℕ → ℕ
hex_char v = if ltb v 10 then b'0' + v else b'a' + (v - 10)

-- Quotes, backslashes and control characters are escaped.
unfoldable pub escape_char : ℕ → Bytes
escape_char c =
    if c == b'"'
    then b'\\' ∷ b'"' ∷ []
    else if c == b'\\'
    then b'\\' ∷ b'\\' ∷ []
    else if ltb c 32
    then b'\\' ∷ b'u' ∷ b'0' ∷ b'0' ∷ hex_char (c / 16) ∷ hex_char (c % 16) ∷ []
    else c ∷ []

unfoldable pub escape_text : Bytes → Bytes
escape_text [] = []
escape_text (c ∷ s) = escape_char c ++ escape_text s

abbrev print_string : Bytes → Bytes → Bytes
print_string s rest = b'"' ∷ (escape_text s ++ (b'"' ∷ rest))

abbrev print_member : String → Bytes → Bytes → Bytes
print_member key value rest = b'"' ∷ (codes key ++ (b'"' ∷ b':' ∷ print_string value rest))

-- What stands behind the last member.
abbrev tail : Bool → Bytes
tail false = b'}' ∷ []
tail true = b',' ∷ b'}' ∷ []

-- One line; the flag puts a comma before the closing brace.
unfoldable pub print_msg : Msg → Bool → Bytes
print_msg m comma =
    b'{'
    ∷ print_member "type" m.type (
        b','
        ∷ print_member "sam" m.sam (
            b','
            ∷ print_member "password" m.password
                (b',' ∷ print_member "reason" m.reason (tail comma))))

hex_char-HexDigit : (v : ℕ) → v < 16 → HexDigit (hex_char v) v
unfolding hex_char
hex_char-HexDigit v h = ground arith

-- A control character as four hexadecimal digits.
control :
    (c : ℕ)
    → c < 32
    → Item (b'\\' ∷ b'u' ∷ b'0' ∷ b'0' ∷ hex_char (c / 16) ∷ hex_char (c % 16) ∷ []) (c ∷ [])
unfolding utf8
control c h =
    let zero_digit : HexDigit b'0' 0 = inl (omega arith, refl) in
    let d =
      digits zero_digit zero_digit (hex_char-HexDigit (c / 16) (omega arith))
        (hex_char-HexDigit (c % 16) (omega arith)) in
    subst (Item _) (ground arith) (scalar d (inl (omega arith)))

hex_char-plain : (v : ℕ) → (hex_char v ≢ b'\\') × (hex_char v ≢ b'"')
unfolding hex_char
hex_char-plain v = (ground arith, ground arith)

escape_char-Item : (c : ℕ) → Item (escape_char c) (c ∷ [])
unfolding escape_char
escape_char-Item c = elim (Bool-cases (c == b'"')) [
  | inl q ↦ rw q (short (ground arith))
  | inr q ↦ rw q (elim (Bool-cases (c == b'\\')) [
    | inl b ↦ rw b (short (ground arith))
    | inr b ↦ rw b (elim (Bool-cases (ltb c 32)) [
      | inl l ↦ rw l (control c (ground arith))
      | inr l ↦ rw l (plain (ground arith))
    ])
  ])
]

escape_char-Raw : (c : ℕ) (s : Bytes) → Raw false s → Raw false (escape_char c ++ s)
unfolding escape_char
escape_char-Raw c s g = elim (Bool-cases (c == b'"')) [
  | inl q ↦ rw q (backslash refl (escaped g))
  | inr q ↦ rw q (elim (Bool-cases (c == b'\\')) [
    | inl b ↦ rw b (backslash refl (escaped g))
    | inr b ↦ rw b (elim (Bool-cases (ltb c 32)) [
      | inl l ↦
          let (n, m) = hex_char-plain (c / 16) in
          let (n', m') = hex_char-plain (c % 16) in
          rw l (
            backslash refl (
              escaped (
                char (omega arith) (omega arith)
                  (char (omega arith) (omega arith) (char n m (char n' m' g))))))
      | inr l ↦ rw l (char (ground arith) (ground arith) g)
    ])
  ])
]

escape_text-Text : (s : Bytes) → Text (escape_text s) s
unfolding escape_text
escape_text-Text [] = done
escape_text-Text (c ∷ s) = next (escape_char-Item c) (escape_text-Text s) refl refl

escape_text-Raw : (s : Bytes) → Raw false (escape_text s)
unfolding escape_text
escape_text-Raw [] = end
escape_text-Raw (c ∷ s) = escape_char-Raw c (escape_text s) (escape_text-Raw s)

-- A string without quotes, backslashes and control characters stands for itself.
print_string-Quoted : (s rest : Bytes) → Quoted (print_string s rest) s rest
print_string-Quoted s rest = quoted (escape_text-Raw s) (escape_text-Text s) refl

plain-Quoted : (s rest : Bytes) → escape_text s ≡ s → Quoted (b'"' ∷ (s ++ (b'"' ∷ rest))) s rest
plain-Quoted s rest e = rw e at (print_string-Quoted s rest)

print_member-Member :
    (key : String) (value rest : Bytes)
    → escape_text (codes key) ≡ codes key
    → Member (print_member key value rest) (codes key) value rest
print_member-Member key value rest e =
    member [] [] (plain-Quoted (codes key) _ e) tt tt (print_string-Quoted value rest)

abbrev fields : Msg → List (Bytes × Bytes)
fields m =
    (codes "type", m.type)
    ∷ (codes "sam", m.sam)
    ∷ (codes "password", m.password)
    ∷ (codes "reason", m.reason)
    ∷ []

print_msg-Object : (m : Msg) (comma : Bool) → Object (print_msg m comma) (fields m)
unfolding print_msg escape_text escape_char
print_msg-Object m comma =
    object [] tt refl
      (more [] [] tt (print_member-Member "type" m.type _ refl) tt refl (
        more [] [] tt (print_member-Member "sam" m.sam _ refl) tt refl (
          more [] [] tt (print_member-Member "password" m.password _ refl) tt refl (end_of comma))))
      tt
  where
    end_of :
        (comma : Bool)
        → Body (print_member "reason" m.reason (tail comma)) ((codes "reason", m.reason) ∷ []) []
    end_of false = last [] [] tt (print_member-Member "reason" m.reason _ refl) tt refl
    end_of true =
        more [] [] tt (print_member-Member "reason" m.reason _ refl) tt refl (close [] tt refl)

apply-fields : (m : Msg) → apply (fields m) empty_msg ≡ m
unfolding set_field bytes_eq
apply-fields m = refl

-- `ParseJsonLine` reads back what the reference writer writes: every message whose type is not
-- empty, whatever bytes its fields hold, and whatever the output message held before. It does so too
-- where a comma stands before the closing brace, which JSON forbids.
pub parse_json_line-print_msg :
    (m out : Msg) (comma : Bool) → m.type ≢ [] → parse_json_line (print_msg m comma) out ≡ (m, true)
parse_json_line-print_msg m out comma h =
    (parse_json_line_iff (print_msg m comma) out m).1
      (fields m, print_msg-Object m comma, sym (apply-fields m), h)
