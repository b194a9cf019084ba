-- ===== src/Fields/Report.antt =====
-- What the user is told about a failed logon (src/core/ProviderCore.cpp: `ReportResult`).
use dot1xcp.Base.{ℕ, ◌+◌, ◌≡◌, refl, ◌⊎◌, inl, inr, Bool, true, false, none, some, arith, codes}
use dot1xcp.Util.{dup_sys_alloc, Messages, status_text, nt_status_to_text}
use dot1xcp.Fields.{Memory, allocate, report_result}
use dot1xcp.Fields.Descriptors.{allocate-cases}

-- `ReportResult` with a pointer for the text: with memory at once, the text of the status; with memory
-- only at the second request, the fixed text; each is one block more in use. With none, there is no
-- text, and as many blocks in use as before.
pub report_result-outcome :
    (has_icon : Bool) (messages : Messages) (st sub : ℕ) (m : Memory)
    → let ((text, icon), m') = report_result true has_icon messages st sub m in
      let first = (allocate m).0 in
      let second = (allocate (allocate m).1).0 in
      ((first ≡ true) × (text ≡ some (status_text messages st sub)) × (m'.in_use ≡ m.in_use + 1))
      ⊎ ((first ≡ false)
          × (second ≡ true)
          × (text ≡ some (codes "로그온 실패"))
          × (m'.in_use ≡ m.in_use + 1))
      ⊎ ((first ≡ false) × (second ≡ false) × (text ≡ none) × (m'.in_use ≡ m.in_use))
unfolding report_result nt_status_to_text dup_sys_alloc
report_result-outcome has_icon messages st sub m = elim (allocate-cases m) [
  | inl (took, more) ↦
      rw (report_result, nt_status_to_text, dup_sys_alloc, took) (inl (refl, refl, more))
  | inr (refused, same) ↦ elim (allocate-cases (allocate m).1) [
    | inl (took, more) ↦
        rw (report_result, nt_status_to_text, dup_sys_alloc, refused, took)
          (inr (inl (refl, refl, refl, omega (arith, same, more))))
    | inr (refused', same') ↦
        rw (report_result, nt_status_to_text, dup_sys_alloc, refused, refused')
          (inr (inr (refl, refl, refl, omega (arith, same, same'))))
  ]
]
