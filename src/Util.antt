-- ===== src/Util.antt =====
-- Texts and conversions (src/common/ProviderUtil.cpp).
pub mod Status
use dot1xcp.Base.{
  ℕ, zero, suc, ◌+◌, ◌-◌, ◌/◌, ◌%◌, ◌^◌, Bool, false, not, ◌||◌, Option, none, some, List, [], ◌∷◌,
  ◌++◌, reverse, ltb, ◌==◌, if◌then◌else◌, is_empty, Bytes, codes,
}
use dot1xcp.Json.Chars.{skip_ws}

-- `DupSysAlloc`, on a text that may be null and with the answer of `CoTaskMemAlloc`.
unfoldable pub dup_sys_alloc : Bool → Option Bytes → Option Bytes
dup_sys_alloc allocates none = none
dup_sys_alloc allocates (some s) = if allocates then some s else none

-- `HasActiveConsoleUser`: the console's session, and the user's name that is found for a session.
unfoldable pub has_active_console_user : ℕ → (ℕ → Option Bytes) → Bool
has_active_console_user session user_name =
    if session == 2 ^ 32 - 1
    then false
    else elim (user_name session) [ none ↦ false | some name ↦ not (is_empty name) ]

-- `MultiByteToWideChar` for UTF-8: how many units the bytes convert to, 0 on a failure; and the units,
-- or none on a failure.
pub record Converter : Type 0 where
  pub size : Bytes → ℕ
  pub units : Bytes → Option Bytes

-- `Widen`
unfoldable pub widen : Converter → Bytes → Bytes
widen converter s =
    if is_empty s
    then []
    else if converter.size s == 0
    then []
    else elim (converter.units s) [ none ↦ [] | some w ↦ w ]

-- The digit of `%X`.
abbrev pub upper_hex : ℕ → ℕ
upper_hex d = if ltb d 10 then b'0' + d else b'A' + (d - 10)

-- The last `n` digits of a number, as `%0nX` prints one that has no more of them.
unfoldable pub hex : ℕ → ℕ → Bytes
hex zero v = []
hex (suc n) v = hex n (v / 16) ++ (upper_hex (v % 16) ∷ [])

-- The characters that the `while` loop of `NtStatusToText` takes off the end.
abbrev pub is_end : ℕ → Bool
is_end c = c == b'.' || c == b'\r' || c == b'\n' || c == b' '

unfoldable pub skip_ends : Bytes → Bytes
skip_ends [] = []
skip_ends (c ∷ s) = let rest = skip_ends s in if is_end c then rest else c ∷ s

abbrev pub strip_end : Bytes → Bytes
strip_end s = reverse (skip_ends (reverse s))

-- The table `map`, with a code as its bit pattern.
abbrev pub table : List (ℕ × Bytes)
table =
    (0xC000000D, codes "직렬화 형식 오류 (STATUS_INVALID_PARAMETER)")
    ∷ (0xC0000064, codes "사용자 없음 (STATUS_NO_SUCH_USER)")
    ∷ (0xC000006A, codes "비밀번호 불일치 (STATUS_WRONG_PASSWORD)")
    ∷ (0xC000006D, codes "로그온 실패 (STATUS_LOGON_FAILURE)")
    ∷ (0xC000006E, codes "계정 제한 (STATUS_ACCOUNT_RESTRICTION)")
    ∷ (0xC0000225, codes "인터랙티브 로그온 불가 (STATUS_NOT_FOUND)")
    ∷ []

unfoldable pub pick_text : ℕ → List (ℕ × Bytes) → Option Bytes
pick_text st [] = none
pick_text st ((code, text) ∷ rest) =
    let later = pick_text st rest in if code == st then some text else later

-- What the system says about a status: the Win32 error, none for ERROR_MR_MID_NOT_FOUND; the text that
-- `FormatMessageW` writes for one, empty on a failure, of at most 511 units; and `PathRemoveBlanksW`.
pub record Messages : Type 0 where
  pub win_error : ℕ → Option ℕ
  pub format : ℕ → Bytes
  pub remove_blanks : Bytes → Bytes

-- `msgBuf`
unfoldable pub system_text : Messages → ℕ → Bytes
system_text messages st = elim (messages.win_error st) [
  | none ↦ []
  | some error ↦ strip_end (messages.remove_blanks (messages.format error))
]

-- `(NT=0x%08X, Sub=0x%08X)`, with the blank before it.
abbrev pub numbers : ℕ → ℕ → Bytes
numbers st sub = codes " (NT=0x" ++ (hex 8 st ++ (codes ", Sub=0x" ++ (hex 8 sub ++ codes ")")))

-- The four formats of `NtStatusToText`.
unfoldable pub format_status : Option Bytes → Bytes → ℕ → ℕ → Bytes
format_status (some picked) text st sub =
    if is_empty text
    then picked ++ numbers st sub
    else picked ++ (numbers st sub ++ (codes " — " ++ text))
format_status none text st sub =
    if is_empty text then codes "로그온 실패" ++ numbers st sub else text ++ numbers st sub

-- `buf` of `NtStatusToText`, before it is copied.
unfoldable pub status_text : Messages → ℕ → ℕ → Bytes
status_text messages st sub = format_status (pick_text st table) (system_text messages st) st sub

-- `NtStatusToText`
unfoldable pub nt_status_to_text : Bool → Messages → ℕ → ℕ → Option Bytes
nt_status_to_text allocates messages st sub =
    dup_sys_alloc allocates (some (status_text messages st sub))
