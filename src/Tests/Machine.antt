-- ===== src/Tests/Machine.antt =====
-- The theorem on a whole poll at a concrete machine.
use dot1xcp.Json.Message.Print.{escape_text, escape_char}
use dot1xcp.Auth.{resolve_negotiate, resolve_msv, resolve_cached, resolve_pkg}
use dot1xcp.Packing.{pack_msv, pack_scenario, pack_structure}
use dot1xcp.Base.{
  ℕ, zero, suc, ◌+◌, ◌≤◌, ◌≡◌, refl, true, false, none, some, arith, length, Bytes, codes, bytes_eq,
}
use dot1xcp.Tests.Data.{success, host, os, session, packed}
use dot1xcp.Machine.{Machine, overall_timeout, slices, host_of, poll_env}
use dot1xcp.Machine.EndToEnd.{poll_env-credential}
use dot1xcp.Transport.{at_once, part, pending, signalled, done, Round}
use dot1xcp.Transport.Message.{Delivers, last, next}
use dot1xcp.Transport.Deadline.{Ticks}
use dot1xcp.Environment.Launch.{created}
use dot1xcp.Response.{usage_logon, get_serialization}
use dot1xcp.Json.Message.Print.{escape_char, escape_text, print_msg}
use dot1xcp.Transport.{max_msg_bytes}
use dot1xcp.Response.{scenario}
use dot1xcp.Util.{widen}
use dot1xcp.Packing.ReadBack.{read_string}
use dot1xcp.Packing.{pack_structure, pack_scenario, pack_msv, pack_auto}

abbrev rest : Bytes
rest =
    codes "type\":\"AUTH_SUCCESS\",\"sam\":\"user\",\"password\":\"a\\\"b\\\\c\",\"reason\":\"\"}"

-- The message in two parts, the second of which is waited for.
abbrev parts : ℕ → Round
parts zero = part (codes "{\"")
parts (suc i) = pending (signalled (done rest))

abbrev machine : Machine
machine = record {
  guid = some (codes "{A-B}");
  tick = 77;
  pipes = record { converts = λ d. true; create = λ name d. some 5 };
  base_environment = none;
  create_process = λ s. created (record { process = 6; thread = 7 });
  connect = at_once;
  start = 1000;
  rounds = λ k. parts;
  has_exited = λ k. false;
  slice_tick = λ k. 1000 + k;
  converter = record { size = length; units = λ s. some s };
  lsa = record { connects = some 3; lookup = λ name. some 3 };
  packages = record { kerberos = 0; msv = 0 };
  host = host;
  os = os;
}

delivers : Delivers parts 0 (print_msg success false)
unfolding print_msg escape_text escape_char
delivers = next refl refl (last refl refl)

is_small : length (print_msg success false) ≤ max_msg_bytes
unfolding print_msg escape_text escape_char
is_small = omega arith

packs_here :
    pack_auto (host_of machine) (codes ".") success.sam success.password (scenario usage_logon)
    ≡ some packed
unfolding pack_auto pack_msv pack_scenario pack_structure bytes_eq resolve_negotiate resolve_msv
    resolve_cached resolve_pkg scenario
packs_here = refl

machine-Ticks : Ticks overall_timeout machine.start (slices machine)
machine-Ticks k h = (omega arith, omega (arith, h))

poll_env-credential_example :
    ((get_serialization (poll_env machine machine-Ticks) true usage_logon session).1.credential
      ≡ some packed)
    × (read_string packed.blob packed.blob.user ≡ success.sam)
    × (read_string packed.blob packed.blob.password ≡ success.password)
unfolding widen
poll_env-credential_example =
    poll_env-credential machine machine-Ticks usage_logon session success false packed refl refl
      delivers is_small (omega arith, omega arith) packs_here
