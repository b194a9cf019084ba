-- ===== src/Fields.antt =====
-- The fields of the tile and the result of a logon (src/core/Provider.h; src/core/ProviderCore.cpp:
-- `AllocLabelCopy`, `GetFieldDescriptorCount`, `GetFieldDescriptorAt`, `ReportResult`;
-- src/core/ProviderCredentialFields.cpp).
pub mod Descriptors
pub mod Report
use dot1xcp.Base.{
  ℕ, zero, suc, ◌+◌, ◌-◌, ◌/◌, Bool, true, false, not, Option, none, some, List, [], ◌∷◌, leb, ◌==◌,
  if◌then◌else◌, Bytes, codes,
}
use dot1xcp.Response.{HResult}
use dot1xcp.Util.{dup_sys_alloc, Messages, nt_status_to_text}

-- FIELD_IDS
abbrev pub title_id : ℕ
title_id = 0

abbrev pub submit_id : ℕ
submit_id = 1

abbrev pub field_count : ℕ
field_count = 2

-- `kCpTitleText`, `kCpSubmitLabel`
abbrev pub title_text : Bytes
title_text = codes "Network sign-in\n(Press ESC to use local account)"

abbrev pub submit_label : Bytes
submit_label = codes "Retry / Sign in"

-- The allocator: what it answers to the next requests, and how many blocks are in use.
pub record Memory : Type 0 where
  pub answers : List Bool
  pub in_use : ℕ

-- `CoTaskMemAlloc`; without a further answer there is no memory.
abbrev pub answer : List Bool → ℕ → Bool × Memory
answer [] n = (false, record { answers = []; in_use = n })
answer (false ∷ rest) n = (false, record { answers = rest; in_use = n })
answer (true ∷ rest) n = (true, record { answers = rest; in_use = n + 1 })

abbrev pub allocate : Memory → Bool × Memory
allocate m = answer m.answers m.in_use

-- `CoTaskMemFree`
abbrev pub free : Memory → Memory
free m = record m { in_use = m.in_use - 1 }

pub data FieldType : Type 0 where
  large_text submit_button : FieldType

-- CREDENTIAL_PROVIDER_FIELD_DESCRIPTOR
pub record Descriptor : Type 0 where
  pub field_id : ℕ
  pub type : FieldType
  pub label : Option Bytes

-- `g_fields_template`
abbrev pub fields_template : ℕ → Descriptor
fields_template zero = record { field_id = title_id; type = large_text; label = none }
fields_template (suc i) = record { field_id = submit_id; type = submit_button; label = none }

-- The `switch` of `GetFieldDescriptorAt`.
abbrev pub label_of : ℕ → Option Bytes
label_of index =
    if index == title_id
    then some title_text
    else if index == submit_id
    then some submit_label
    else none

-- `AllocLabelCopy`, with a pointer for its result
unfoldable pub alloc_label_copy : Option Bytes → Memory → (HResult × Option Bytes) × Memory
alloc_label_copy none m = ((HResult.s_ok, none), m)
alloc_label_copy (some s) m =
    let (allocated, m') = allocate m in
    (if allocated then (HResult.s_ok, some s) else (HResult.e_outofmemory, none), m')

-- `GetFieldDescriptorCount`
unfoldable pub get_field_descriptor_count : Bool → HResult × Option ℕ
get_field_descriptor_count has_out =
    if has_out then (HResult.s_ok, some field_count) else (HResult.e_pointer, none)

-- The end of `GetFieldDescriptorAt`, with the result of `AllocLabelCopy`.
unfoldable pub with_label :
    Descriptor → (HResult × Option Bytes) × Memory → (HResult × Option Descriptor) × Memory
with_label d ((HResult.s_ok, label), m) = ((HResult.s_ok, some (record d { label = label })), m)
with_label d ((r, label), m) = ((r, none), free m)

-- `GetFieldDescriptorAt`
unfoldable pub get_field_descriptor_at : Bool → ℕ → Memory → (HResult × Option Descriptor) × Memory
get_field_descriptor_at has_out index m =
    if not has_out
    then ((HResult.e_pointer, none), m)
    else if leb field_count index
    then ((HResult.e_invalidarg, none), m)
    else (let (allocated, m') = allocate m in
        if allocated
        then with_label (fields_template index) (alloc_label_copy (label_of index) m')
        else ((HResult.e_outofmemory, none), m'))

-- CREDENTIAL_PROVIDER_FIELD_STATE; the interactive state is always CPFIS_NONE.
pub data FieldState : Type 0 where
  hidden in_selected_tile : FieldState

-- `GetFieldState`
unfoldable pub get_field_state : Bool → ℕ → HResult × Option FieldState
get_field_state has_out field =
    if not has_out
    then (HResult.e_pointer, none)
    else if leb field_count field
    then (HResult.e_invalidarg, none)
    else (HResult.s_ok, some (if field == title_id then in_selected_tile else hidden))

-- `GetStringValue`
unfoldable pub get_string_value : Bool → ℕ → Memory → (HResult × Option Bytes) × Memory
get_string_value has_out field m =
    if not has_out
    then ((HResult.e_pointer, none), m)
    else if field == title_id
    then alloc_label_copy (some title_text) m
    else ((HResult.e_notimpl, none), m)

-- `GetSubmitButtonValue`: the field that the button stands beside
unfoldable pub get_submit_button_value : Bool → ℕ → HResult × Option ℕ
get_submit_button_value has_out field =
    if not has_out
    then (HResult.e_pointer, none)
    else if field == submit_id
    then (HResult.s_ok, some title_id)
    else (HResult.e_notimpl, none)

-- What is written through a pointer, if it is not null.
abbrev pub written {ℓ} : {A : Type ℓ} → Bool → A → Option A
written has_out a = if has_out then some a else none

-- `GetBitmapValue`, `GetCheckboxValue`, `GetComboBoxValueCount`, `GetComboBoxValueAt`, with the values
-- that they write
unfoldable pub get_bitmap_value : Bool → HResult × Option (Option ℕ)
get_bitmap_value has_out = (HResult.e_notimpl, written has_out none)

unfoldable pub get_checkbox_value : Bool → Bool → HResult × Option Bool × Option (Option Bytes)
get_checkbox_value has_checked has_label =
    (HResult.e_notimpl, written has_checked false, written has_label none)

unfoldable pub get_combo_box_value_count : Bool → Bool → HResult × Option ℕ × Option ℕ
get_combo_box_value_count has_items has_selected =
    (HResult.e_notimpl, written has_items 0, written has_selected 0)

unfoldable pub get_combo_box_value_at : Bool → HResult × Option (Option Bytes)
get_combo_box_value_at has_out = (HResult.e_notimpl, written has_out none)

-- `ReportResult`: the text, and whether the icon is set to CPSI_ERROR
unfoldable pub report_result :
    Bool → Bool → Messages → ℕ → ℕ → Memory → (Option Bytes × Bool) × Memory
report_result false has_icon messages st sub m = ((none, has_icon), m)
report_result true has_icon messages st sub m =
    let (first, m') = allocate m in
    elim (nt_status_to_text first messages st sub) [
      | some text ↦ ((some text, has_icon), m')
      | none ↦
          let (second, m'') = allocate m' in
          ((dup_sys_alloc second (some (codes "로그온 실패")), has_icon), m'')
    ]

-- `SetComboBoxSelectedValue`, `SetStringValue`, `SetCheckboxValue`, `CommandLinkClicked`
abbrev pub unsupported : HResult
unsupported = HResult.e_notimpl
