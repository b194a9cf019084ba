-- ===== src/Tests/Fields.antt =====
-- The theorems on the fields and on the report of a logon at concrete inputs.
use dot1xcp.Base.{◌+◌, ◌≡◌, ◌⊎◌, true, false, none, some, [], ◌∷◌, codes}
use dot1xcp.Util.{status_text}
use dot1xcp.Fields.{Memory, allocate, get_field_descriptor_at, report_result}
use dot1xcp.Fields.Descriptors.{Succeeds, Fails, descriptor_at-outcome}
use dot1xcp.Fields.Report.{report_result-outcome}
use dot1xcp.Tests.Texts.{messages}

abbrev memory : Memory
memory = record { answers = true ∷ true ∷ false ∷ true ∷ []; in_use = 3 }

descriptor_at-outcome_example :
    let result = get_field_descriptor_at true 1 memory in
    Succeeds true 1 memory result ⊎ Fails true 1 memory result
descriptor_at-outcome_example = descriptor_at-outcome true 1 memory

-- Memory only at the second request.
abbrev scarce : Memory
scarce = record { answers = false ∷ true ∷ []; in_use = 0 }

report_result-outcome_example :
    let ((text, icon), m') = report_result true true messages 0xC000006D 0 scarce in
    let first = (allocate scarce).0 in
    let second = (allocate (allocate scarce).1).0 in
    ((first ≡ true)
      × (text ≡ some (status_text messages 0xC000006D 0))
      × (m'.in_use ≡ scarce.in_use + 1))
    ⊎ ((first ≡ false)
        × (second ≡ true)
        × (text ≡ some (codes "로그온 실패"))
        × (m'.in_use ≡ scarce.in_use + 1))
    ⊎ ((first ≡ false) × (second ≡ false) × (text ≡ none) × (m'.in_use ≡ scarce.in_use))
report_result-outcome_example = report_result-outcome true messages 0xC000006D 0 scarce
