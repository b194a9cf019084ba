-- ===== src/Tests/Texts.antt =====
-- The theorem on status texts at a concrete input.
use dot1xcp.Base.{◌+◌, ◌≤◌, ◌≡◌, refl, none, some, arith, ◌==◌, if◌then◌else◌, length, codes}
use dot1xcp.Util.{Messages, status_text, format_status, pick_text, system_text, hex, skip_ends}
use dot1xcp.Util.Status.{length-status_text}

abbrev pub messages : Messages
messages = record {
  win_error = λ st. if st == 0xC000006D then some 1326 else none;
  format = λ error. codes "The user name or password is incorrect. ";
  remove_blanks = λ s. s;
}

writes :
    status_text messages 0xC000006D 0
    ≡ codes
        "로그온 실패 (STATUS_LOGON_FAILURE) (NT=0xC000006D, Sub=0x00000000) — The user name or password is incorrect"
unfolding status_text format_status pick_text system_text hex skip_ends
writes = refl

length-status_text_example : length (status_text messages 0xC000006D 0) + 1 ≤ 768
length-status_text_example =
    length-status_text messages 0xC000006D 0 (λ error. omega arith) (λ s. omega arith)
