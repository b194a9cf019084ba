-- ===== src/Fields/Descriptors.antt =====
-- The fields of the tile as the calls on them agree (src/core/ProviderCore.cpp,
-- src/core/ProviderCredentialFields.cpp).
use dot1xcp.Base.{
  ℕ, zero, suc, ◌+◌, ◌≤◌, ◌<◌, ◌≡◌, refl, sym, ap, ◌∙◌, ◌⊎◌, inl, inr, Bool, true, false, Option,
  none, some, List, [], ◌∷◌, arith, leb, if◌then◌else◌, some-eq-some, Bytes, codes,
}
use dot1xcp.Response.{HResult}
use dot1xcp.Fields.{
  hidden, in_selected_tile, submit_label, field_count, title_id, title_text, Memory, allocate,
  answer, large_text, submit_button, Descriptor, fields_template, label_of, alloc_label_copy,
  with_label, get_field_descriptor_at, get_field_state, get_string_value, get_submit_button_value,
}

-- An allocation takes a block, or none.
answer-cases :
    (answers : List Bool) (n : ℕ)
    → (((answer answers n).0 ≡ true) × ((answer answers n).1.in_use ≡ n + 1))
      ⊎ (((answer answers n).0 ≡ false) × ((answer answers n).1.in_use ≡ n))
answer-cases [] n = inr (refl, refl)
answer-cases (false ∷ rest) n = inr (refl, refl)
answer-cases (true ∷ rest) n = inl (refl, refl)

pub allocate-cases :
    (m : Memory)
    → (((allocate m).0 ≡ true) × ((allocate m).1.in_use ≡ m.in_use + 1))
      ⊎ (((allocate m).0 ≡ false) × ((allocate m).1.in_use ≡ m.in_use))
allocate-cases m = answer-cases m.answers m.in_use

-- The two fields, with their labels.
abbrev pub IsField : ℕ → Descriptor → Type 0
IsField index d =
    ((index ≡ 0)
      × (d.field_id ≡ 0)
      × (d.type ≡ large_text)
      × (d.label ≡ some (codes "Network sign-in\n(Press ESC to use local account)")))
    ⊎ ((index ≡ 1)
        × (d.field_id ≡ 1)
        × (d.type ≡ submit_button)
        × (d.label ≡ some (codes "Retry / Sign in")))

-- Whether the two allocations succeed.
abbrev pub first : Memory → Bool
first m = (allocate m).0

abbrev pub second : Memory → Bool
second m = (allocate (allocate m).1).0

-- There is a place for the result and a field of this index, and memory for the descriptor and its
-- label; and what the call then gives.
abbrev pub Succeeds : Bool → ℕ → Memory → (HResult × Option Descriptor) × Memory → Type 0
Succeeds has_out index m ((r, out), m') =
    ((has_out ≡ true) × (index < 2) × (first m ≡ true) × (second m ≡ true))
    × (r ≡ HResult.s_ok)
    × (m'.in_use ≡ m.in_use + 2)
    × (d : Descriptor) × (out ≡ some d)
    × IsField index d

-- What is missing, and the error that says so.
abbrev pub Lacks : Bool → ℕ → Memory → HResult → Type 0
Lacks has_out index m r =
    ((has_out ≡ false) × (r ≡ HResult.e_pointer))
    ⊎ ((has_out ≡ true) × (2 ≤ index) × (r ≡ HResult.e_invalidarg))
    ⊎ ((has_out ≡ true)
        × (index < 2)
        × ((first m ≡ false) ⊎ (second m ≡ false))
        × (r ≡ HResult.e_outofmemory))

abbrev pub Fails : Bool → ℕ → Memory → (HResult × Option Descriptor) × Memory → Type 0
Fails has_out index m ((r, out), m') =
    Lacks has_out index m r × (out ≡ none) × (m'.in_use ≡ m.in_use)

-- The second allocation.
with_label-outcome :
    (index : ℕ) (d : Descriptor) (text : Bytes) (m : Memory)
    → index < 2
    → IsField index (record d { label = some text })
    → first m ≡ true
    → (allocate m).1.in_use ≡ m.in_use + 1
    → let result = with_label d (alloc_label_copy (some text) (allocate m).1) in
      Succeeds true index m result ⊎ Fails true index m result
unfolding with_label alloc_label_copy
with_label-outcome index d text m h is took more = elim (allocate-cases (allocate m).1) [
  | inl (again, more') ↦ rw again (
      inl (
        (refl, h, took, refl),
        refl,
        omega (arith, more, more'),
        record d { label = some text },
        refl,
        is,
      ))
  | inr (refused, same) ↦
      rw refused (inr (inr (inr (refl, h, inr refl, refl)), refl, omega (arith, more, same)))
]

-- `GetFieldDescriptorAt` succeeds exactly if there is a place for the result, the index is 0 or 1, and
-- both allocations succeed. It then hands out the descriptor of the field, with the label that belongs
-- to it, and two blocks more are in use. Else it hands nothing out, leaves as many blocks in use as
-- before, and its error says whether the place, the field or the memory is missing.
pub descriptor_at-outcome :
    (has_out : Bool) (index : ℕ) (m : Memory)
    → let result = get_field_descriptor_at has_out index m in
      Succeeds has_out index m result ⊎ Fails has_out index m result
unfolding get_field_descriptor_at
descriptor_at-outcome false index m = inr (inl (refl, refl), refl, refl)
descriptor_at-outcome true zero m = elim (allocate-cases m) [
  | inl (took, more) ↦ rw took (
      rw took at (
        with_label-outcome 0 (fields_template 0) title_text m (omega arith)
          (inl (refl, refl, refl, refl)) took more))
  | inr (refused, same) ↦
      rw refused (inr (inr (inr (refl, omega arith, inl refl, refl)), refl, same))
]
descriptor_at-outcome true (suc zero) m = elim (allocate-cases m) [
  | inl (took, more) ↦ rw took (
      rw took at (
        with_label-outcome 1 (fields_template 1) submit_label m (omega arith)
          (inr (refl, refl, refl, refl)) took more))
  | inr (refused, same) ↦
      rw refused (inr (inr (inr (refl, omega arith, inl refl, refl)), refl, same))
]
descriptor_at-outcome true (suc (suc i)) m =
    let beyond : leb field_count (suc (suc i)) ≡ true = ground arith in
    rw beyond (inr (inr (inl (refl, omega arith, refl)), refl, refl))

-- The descriptor that a call hands out is that of its field, with the label.
with_label-is :
    (d d' : Descriptor) (text : Bytes) (m : Memory)
    → (with_label d (alloc_label_copy (some text) m)).0 ≡ (HResult.s_ok, some d')
    → d' ≡ record d { label = some text }
unfolding with_label alloc_label_copy
with_label-is d d' text m h = elim (allocate-cases m) [
  | inl (took, more) ↦
      let h' : (HResult.s_ok, some (record d { label = some text })) ≡ (HResult.s_ok, some d') =
        rw took at h in
      sym (some-eq-some (ap (λ q. q.1) h'))
  | inr (refused, same) ↦
      let h' : (HResult.e_outofmemory, none) ≡ (HResult.s_ok, some d') = rw refused at h in cc h'
]

descriptor_at-is :
    (index : ℕ) (d : Descriptor) (text : Bytes) (m : Memory)
    → leb field_count index ≡ false
    → label_of index ≡ some text
    → (get_field_descriptor_at true index m).0 ≡ (HResult.s_ok, some d)
    → d ≡ record (fields_template index) { label = some text }
unfolding get_field_descriptor_at
descriptor_at-is index d text m e l h = elim (allocate-cases m) [
  | inl (took, more) ↦
      with_label-is (fields_template index) d text (allocate m).1 (rw (e, took, l) at h)
  | inr (refused, same) ↦ cc (rw (e, refused) at h)
]

-- The calls agree on a field that has a descriptor. It is a text that is shown, whose value is the
-- descriptor's label if there is memory for it, and it is no button; or it is a button that is hidden,
-- has no text, and stands beside a field that is counted.
pub descriptor_at-fields :
    (index : ℕ) (m m' : Memory) (d : Descriptor)
    → (get_field_descriptor_at true index m).0 ≡ (HResult.s_ok, some d)
    → ((d.type ≡ large_text)
        × (get_field_state true index ≡ (HResult.s_ok, some in_selected_tile))
        × ((get_string_value true index m').0
            ≡ (if (allocate m').0 then (HResult.s_ok, d.label) else (HResult.e_outofmemory, none)))
        × (get_submit_button_value true index ≡ (HResult.e_notimpl, none)))
      ⊎ ((d.type ≡ submit_button)
          × (get_field_state true index ≡ (HResult.s_ok, some hidden))
          × ((get_string_value true index m').0 ≡ (HResult.e_notimpl, none))
          × (beside : ℕ) × (beside < field_count)
          × (get_submit_button_value true index ≡ (HResult.s_ok, some beside)))
unfolding get_field_state get_string_value get_submit_button_value alloc_label_copy
descriptor_at-fields zero m m' d h =
    let is = descriptor_at-is 0 d title_text m refl refl h in
    let labels : Option Bytes → HResult × Option Bytes =
      λ l. if (allocate m').0 then (HResult.s_ok, l) else (HResult.e_outofmemory, none) in
    let same = ap (λ x. labels x.label) (sym is) in inl (ap (λ x. x.type) is, refl, same, refl)
descriptor_at-fields (suc zero) m m' d h =
    let is = descriptor_at-is 1 d submit_label m refl refl h in
    inr (ap (λ x. x.type) is, refl, refl, title_id, omega arith, refl)
descriptor_at-fields (suc (suc i)) m m' d h = elim (descriptor_at-outcome true (suc (suc i)) m) [
  | inl succeeds ↦ absurd (omega (arith, succeeds.0.1))
  | inr fails ↦ cc (sym (ap (λ q. q.1) h) ∙ fails.1)
]
