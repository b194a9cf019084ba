-- ===== src/Json/Message/Line.antt =====
-- `ParseJsonLine` (src/broker/ProviderJson.cpp) against the grammar of objects, and what it leaves in
-- its output message when it fails.
use dot1xcp.Base.{
  ◌≡◌, refl, ap, ◌∙◌, ◌≢◌, ◌↔◌, ◌⊎◌, inl, inr, Bool, true, false, not, ◌||◌, List, [], ◌∷◌, arith,
  Bool-cases, is_empty, Bytes, codes, bytes_eq,
}
use dot1xcp.Json.Chars.{trim}
use dot1xcp.Json.Message.{Msg, set_field, flat_message, accept, parse_json_line}
use dot1xcp.Json.Message.Object.{Object, object, apply, has_key, empty_msg}
use dot1xcp.Json.Message.Sound.{flat_message-Object}
use dot1xcp.Json.Message.Complete.{Object-flat_message}
use dot1xcp.Json.Message.Trim.{Object-trim, trim-Object}

set_field-type :
    (k v : Bytes) (m : Msg) → bytes_eq k (codes "type") ≡ false → (set_field k v m).type ≡ m.type
unfolding set_field
set_field-type k v m h = ground arith

-- Without a key `type` the type stays.
apply-type :
    (kvs : List (Bytes × Bytes)) (m : Msg)
    → has_key (codes "type") kvs ≡ false
    → (apply kvs m).type ≡ m.type
apply-type [] m h = refl
apply-type ((k, v) ∷ kvs) m h =
    apply-type kvs (set_field k v m) (ground arith) ∙ set_field-type k v m (ground arith)

accept-eq-true : (r : Msg × Bool) {m : Msg} → accept r ≡ (m, true) → (r ≡ (m, true)) × (m.type ≢ [])
unfolding accept
accept-eq-true (out, parsed) {m} h = (ground arith, ground arith)

accept-true : (m : Msg) → m.type ≢ [] → accept (m, true) ≡ (m, true)
unfolding accept
accept-true m h = ground arith

accept_outcome :
    (r : Msg × Bool)
    → (accept r ≡ (empty_msg, false)) ⊎ ((m : Msg) × (accept r ≡ (m, true)) × (m.type ≢ []))
unfolding accept
accept_outcome (m, parsed) = elim (Bool-cases (not parsed || is_empty m.type)) [
  | inl e ↦ inl (rw e)
  | inr e ↦ inr (m, rw e, ground arith)
]

Object-ne-nil : {s : Bytes} {kvs : List (Bytes × Bytes)} → Object s kvs → is_empty s ≡ false
Object-ne-nil (object [] a e body b) = ap is_empty e
Object-ne-nil (object (c ∷ w) a e body b) = ap is_empty e

-- `ParseJsonLine` accepts a line exactly if it is, but for white space around it, a flat object of
-- strings whose members give a type that is not empty. The message is then what the members mean, and
-- nothing of the message that was there before is left in it.
pub parse_json_line_iff :
    (line : Bytes) (out m : Msg)
    → (parse_json_line line out ≡ (m, true))
      ↔ ((kvs : List (Bytes × Bytes)) × Object line kvs × (m ≡ apply kvs empty_msg) × (m.type ≢ []))
unfolding parse_json_line
parse_json_line_iff line out m = (forth, λ (kvs, g, e, h). back kvs g e h)
  where
    forth :
        parse_json_line line out ≡ (m, true)
        → (kvs : List (Bytes × Bytes)) × Object line kvs × (m ≡ apply kvs empty_msg) × (m.type ≢ [])
    forth h = elim (Bool-cases (is_empty (trim line))) [
      | inl e ↦ cc (rw e at h)
      | inr e ↦
          let (r, t) = accept-eq-true (flat_message (trim line) empty_msg) (rw e at h) in
          let (kvs, g, em) = flat_message-Object (trim line) empty_msg r in
          (kvs, trim-Object line g, em, t)
    ]

    back :
        (kvs : List (Bytes × Bytes))
        → Object line kvs
        → m ≡ apply kvs empty_msg
        → m.type ≢ []
        → parse_json_line line out ≡ (m, true)
    back kvs g e h = elim (Bool-cases (has_key (codes "type") kvs)) [
      | inl t ↦
          let read = Object-flat_message empty_msg (Object-trim g) in
          rw (Object-ne-nil (Object-trim g)) (rw read (rw (← e, t) (accept-true m h)))
      | inr t ↦ absurd (h (ap (λ x. x.type) e ∙ apply-type kvs empty_msg t))
    ]

-- When `ParseJsonLine` fails, every field of the output message is empty, whatever was read before
-- the failure and whatever the message held before; when it succeeds, the type is not empty.
pub parse_json_line_outcome :
    (line : Bytes) (out : Msg)
    → (parse_json_line line out ≡ (empty_msg, false))
      ⊎ ((m : Msg) × (parse_json_line line out ≡ (m, true)) × (m.type ≢ []))
unfolding parse_json_line
parse_json_line_outcome line out = elim (Bool-cases (is_empty (trim line))) [
  | inl e ↦ inl (rw e)
  | inr e ↦ rw e (accept_outcome (flat_message (trim line) empty_msg))
]
