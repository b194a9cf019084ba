-- ===== src/Util/Status.antt =====
-- What `NtStatusToText` writes (src/common/ProviderUtil.cpp).
use mathlib.Core.List.{reverse-cons}
use dot1xcp.Base.{
  ℕ, zero, suc, ◌+◌, ◌/◌, ◌%◌, ◌≤◌, ◌≡◌, refl, ap, subst, ◌∙◌, inl, inr, Option, none, some, List,
  [], ◌∷◌, ◌++◌, reverse, arith, ◌==◌, Bool-cases, Option-cases, some-eq-some, length,
  length-append, Bytes, codes, All,
}
use dot1xcp.Util.{
  hex, skip_ends, strip_end, table, pick_text, Messages, system_text, numbers, format_status,
  status_text, upper_hex,
}

length-hex : (n v : ℕ) → length (hex n v) ≡ n
unfolding hex
length-hex zero v = refl
length-hex (suc n) v =
    length-append (hex n (v / 16)) (upper_hex (v % 16) ∷ []) ∙ omega (arith, length-hex n (v / 16))

length-skip_ends : (s : Bytes) → length (skip_ends s) ≤ length s
unfolding skip_ends
length-skip_ends [] = omega arith
length-skip_ends (c ∷ s) = ground (arith, length-skip_ends s)

length-reverse : (s : Bytes) → length (reverse s) ≡ length s
length-reverse [] = refl
length-reverse (c ∷ s) =
    ap length (reverse-cons c s)
    ∙ length-append (reverse s) (c ∷ [])
    ∙ omega (arith, length-reverse s)

length-strip_end : (s : Bytes) → length (strip_end s) ≤ length s
length-strip_end s =
    omega (
      arith,
      length-reverse s,
      length-reverse (skip_ends (reverse s)),
      length-skip_ends (reverse s),
    )

length-numbers : (st sub : ℕ) → length (numbers st sub) ≡ 32
length-numbers st sub = omega (
  arith,
  length-append (hex 8 st) (codes ", Sub=0x" ++ (hex 8 sub ++ codes ")")),
  length-append (hex 8 sub) (codes ")"),
  length-hex 8 st,
  length-hex 8 sub,
)

-- Every text of a table that is found is one of its texts.
pick_text-short :
    (n st : ℕ) (entries : List (ℕ × Bytes)) {text : Bytes}
    → All (λ e. length e.1 ≤ n) entries
    → pick_text st entries ≡ some text
    → length text ≤ n
unfolding pick_text
pick_text-short n st [] short h = cc
pick_text-short n st ((code, t) ∷ rest) short h = elim (Bool-cases (code == st)) [
  | inl e ↦ subst (λ x. length x ≤ n) (some-eq-some (rw e at h)) short.0
  | inr e ↦ pick_text-short n st rest short.1 (rw e at h)
]

table-short : All (λ e. length e.1 ≤ 40) table
table-short = ground arith

format_status-short :
    (picked : Option Bytes) (text : Bytes) (st sub : ℕ)
    → ((t : Bytes) → picked ≡ some t → length t ≤ 40)
    → length (format_status picked text st sub) ≤ 75 + length text
unfolding format_status
format_status-short none text st sub short =
    ground (arith, length-numbers st sub, length-append text (numbers st sub))
format_status-short (some picked) text st sub short = ground (
  arith,
  short picked refl,
  length-numbers st sub,
  length-append picked (numbers st sub),
  length-append picked (numbers st sub ++ (codes " — " ++ text)),
  length-append (numbers st sub) (codes " — " ++ text),
)

system_text-short :
    (messages : Messages) (st : ℕ)
    → ((error : ℕ) → length (messages.format error) ≤ 511)
    → ((s : Bytes) → length (messages.remove_blanks s) ≤ length s)
    → length (system_text messages st) ≤ 511
unfolding system_text
system_text-short messages st small trims = elim (Option-cases (messages.win_error st)) [
  | inl e ↦ rw (e, system_text) (omega arith)
  | inr (error, e) ↦
      let blank_free = messages.remove_blanks (messages.format error) in
      rw (e, system_text)
        (omega (arith, length-strip_end blank_free, trims (messages.format error), small error))
]

-- The text of a status fits its buffer of 768 units with the zero behind it, where the system's text
-- fits its own of 512 units and removing blanks makes no text longer.
pub length-status_text :
    (messages : Messages) (st sub : ℕ)
    → ((error : ℕ) → length (messages.format error) ≤ 511)
    → ((s : Bytes) → length (messages.remove_blanks s) ≤ length s)
    → length (status_text messages st sub) + 1 ≤ 768
unfolding status_text
length-status_text messages st sub small trims = omega (
  arith,
  format_status-short (pick_text st table) (system_text messages st) st sub
      (λ t. pick_text-short 40 st table table-short),
  system_text-short messages st small trims,
)
