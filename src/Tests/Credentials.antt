-- ===== src/Tests/Credentials.antt =====
-- The theorems on packed credentials at concrete inputs.
use dot1xcp.Base.{ℕ, ◌+◌, ◌≤◌, ◌≡◌, refl, ◌≢◌, true, false, none, some, [], arith, codes, bytes_eq}
use dot1xcp.Json.Message.{parse_json_line}
use dot1xcp.Json.Message.Object.{empty_msg}
use dot1xcp.Json.Message.Print.{parse_json_line-print_msg}
use dot1xcp.Packing.{
  console_logon_id, Packed, Host, logon, unlock, structure, msv_unlock, kerb_logon, bytes_with_null,
  pack_structure, pack_scenario, pack_msv, pack_kerb, pack_auto,
}
use dot1xcp.Packing.ReadBack.{read_string, pack_msv-read_string, pack_msv-bounds}
use dot1xcp.Packing.Account.{IsFor, pack_auto-local, pack_kerb-pointers}
use dot1xcp.Response.{usage_logon, start_session, get_serialization}
use dot1xcp.Response.Replies.{HasSession, pack_of, get_serialization-credential_iff}
use dot1xcp.Response.Delivery.{get_serialization-read_string}
use dot1xcp.Tests.Data.{success, host, packed, succeeds, session}

packs : pack_msv host [] success.sam success.password logon ≡ some packed
unfolding pack_msv pack_scenario pack_structure
packs = refl

pack_msv-read_string_example :
    (read_string packed.blob packed.blob.domain ≡ codes ".")
    × (read_string packed.blob packed.blob.user ≡ success.sam)
    × (read_string packed.blob packed.blob.password ≡ success.password)
pack_msv-read_string_example =
    pack_msv-read_string host [] success.sam success.password logon packed
      (omega arith, omega arith, omega arith) packs

pack_msv-bounds_example :
    let b = packed.blob in
    (b.header ≤ b.domain.buffer)
    × (b.domain.buffer + b.domain.maximum_length ≤ b.user.buffer)
    × (b.user.buffer + b.user.maximum_length ≤ b.password.buffer)
    × (b.password.buffer + b.password.maximum_length ≡ packed.size)
pack_msv-bounds_example =
    pack_msv-bounds host [] success.sam success.password logon packed
      (omega arith, omega arith, omega arith) (omega arith) packs

abbrev unlocking : Packed
unlocking = structure 4096 0 64 msv_unlock (some 999) 3 (codes ".") success.sam success.password

unlocks : pack_auto host (codes ".") success.sam success.password unlock ≡ some unlocking
unfolding pack_auto pack_msv pack_scenario pack_structure console_logon_id bytes_eq
unlocks = refl

pack_auto-local_example :
    (success.sam ≢ []) × ((pkg : ℕ) × (host.msv ≡ some pkg) × IsFor host unlock pkg unlocking)
unfolding bytes_eq
pack_auto-local_example =
    pack_auto-local host (codes ".") success.sam success.password unlock unlocking refl unlocks

-- A machine that knows the Kerberos package.
abbrev domain_host : Host
domain_host = record host { negotiate = some 2 }

abbrev ticket : Packed
ticket = structure 4096 4096 56 kerb_logon none 2 (codes "CORP") success.sam success.password

packs_ticket : pack_kerb domain_host (codes "CORP") success.sam success.password logon ≡ some ticket
unfolding pack_kerb pack_scenario pack_structure bytes_eq
packs_ticket = refl

pack_kerb-pointers_example :
    let b = ticket.blob in
    (b.domain.buffer ≡ b.address + b.header)
    × (b.user.buffer ≡ b.address + b.header + bytes_with_null (codes "CORP"))
    × (b.password.buffer
        ≡ b.address + b.header + bytes_with_null (codes "CORP") + bytes_with_null success.sam)
unfolding bytes_eq
pack_kerb-pointers_example =
    pack_kerb-pointers domain_host (codes "CORP") success.sam success.password logon ticket refl
      packs_ticket

parses : parse_json_line succeeds.message empty_msg ≡ (success, true)
parses = parse_json_line-print_msg success empty_msg false (λ e. cc e)

packs_message : pack_of succeeds usage_logon success ≡ some packed
unfolding pack_auto pack_msv pack_scenario pack_structure bytes_eq dot1xcp.Response.scenario
packs_message = refl

has_session : HasSession succeeds session
unfolding start_session
has_session = refl

delivers : (get_serialization succeeds true usage_logon session).1.credential ≡ some packed
delivers =
    (get_serialization-credential_iff succeeds usage_logon session packed).1
      (has_session, (success, (refl, parses, refl), packs_message))

get_serialization-read_string_example :
    (read_string packed.blob packed.blob.domain ≡ codes ".")
    × (read_string packed.blob packed.blob.user ≡ success.sam)
    × (read_string packed.blob packed.blob.password ≡ success.password)
get_serialization-read_string_example =
    get_serialization-read_string succeeds host usage_logon session success packed refl parses
      (omega arith, omega arith) delivers
