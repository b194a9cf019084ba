-- ===== src/Packing.antt =====
-- Packing a credential (src/auth/Serialization.cpp): `PackKerb`, `PackMsv` and `PackAutoEx`.
pub mod Layout
pub mod ReadBack
pub mod Account
use dot1xcp.Base.{
  length, ℕ, ◌+◌, ◌-◌, ◌*◌, ◌%◌, ◌^◌, Bool, ◌||◌, Option, none, some, [], ◌∷◌, ◌++◌, ◌==◌,
  if◌then◌else◌, ◌>>=◌, is_empty, Bytes, codes, bytes_eq,
}

-- src/auth/Serialization.h
pub data Scenario : Type 0 where
  logon unlock : Scenario

-- UNICODE_STRING: two USHORTs and a pointer.
pub record UnicodeString : Type 0 where
  pub length : ℕ
  pub maximum_length : ℕ
  pub buffer : ℕ

-- The message types that the code names.
pub data MessageType : Type 0 where
  msv_logon msv_unlock kerb_logon kerb_unlock : MessageType

-- The memory that `CoTaskMemAlloc` gave, from `address` on: a structure of `header` bytes, of which the
-- members are modelled, and behind it the units that were copied. `logon_id` is a member of the
-- structures for unlocking only.
pub record Blob : Type 0 where
  pub address : ℕ
  pub header : ℕ
  pub message : MessageType
  pub domain : UnicodeString
  pub user : UnicodeString
  pub password : UnicodeString
  pub logon_id : Option ℕ
  pub chars : Bytes

pub record Packed : Type 0 where
  pub blob : Blob
  pub size : ℕ
  pub auth_pkg : ℕ

-- What the packing gets from the system: the two authentication packages, the computer's name, the
-- console's session with its user's token and the identifier that the token's statistics give, the
-- address of an allocation of that many bytes, and the `sizeof` of the structures for a logon and for
-- unlocking, which the headers of the Windows SDK define.
pub record Host : Type 0 where
  pub negotiate : Option ℕ
  pub msv : Option ℕ
  pub computer_name : Option Bytes
  pub console_session : ℕ
  pub user_token : ℕ → Option ℕ
  pub authentication_id : ℕ → Option ℕ
  pub allocate : ℕ → Option ℕ
  pub logon_size : ℕ
  pub unlock_size : ℕ

-- `LocalMachineName`
unfoldable pub local_machine_name : Host → Bytes
local_machine_name host = elim host.computer_name [ some name ↦ name | none ↦ codes "." ]

-- `GetConsoleLogonId`; `none` is the result `false`.
unfoldable pub console_logon_id : Host → Option ℕ
console_logon_id host =
    if host.console_session == 2 ^ 32 - 1
    then none
    else do token ← host.user_token host.console_session; host.authentication_id token

-- A conversion to USHORT.
abbrev pub ushort : ℕ → ℕ
ushort n = n % 2 ^ 16

-- The bytes of a string with the zero behind it.
abbrev pub bytes_with_null : Bytes → ℕ
bytes_with_null s = (length s + 1) * 2

-- `FillUS`, with the two lengths of `s`.
abbrev pub fill : ℕ → Bytes → UnicodeString
fill buffer s = record {
  length = ushort (length s * 2);
  maximum_length = ushort (bytes_with_null s);
  buffer = buffer;
}

-- `cbT`
abbrev pub total : ℕ → Bytes → Bytes → Bytes → ℕ
total header domain user password =
    header + bytes_with_null domain + bytes_with_null user + bytes_with_null password

-- What stands at `address` and behind it, with the pointers counted from `base`.
abbrev pub structure : ℕ → ℕ → ℕ → MessageType → Option ℕ → ℕ → Bytes → Bytes → Bytes → Packed
structure address base header message logon_id pkg domain user password =
    let d = base + header in
    let u = d + bytes_with_null domain in
    let w = u + bytes_with_null user in
    record {
      blob = record {
        address = address;
        header = header;
        message = message;
        domain = fill d domain;
        user = fill u user;
        password = fill w password;
        logon_id = logon_id;
        chars = domain ++ (0 ∷ (user ++ (0 ∷ (password ++ (0 ∷ [])))));
      };
      size = total header domain user password % 2 ^ 32;
      auth_pkg = pkg;
    }

-- The part that each branch has: the allocation, the three copies, the structure, and the result. The
-- pointers are counted from `base`, as a function of the address.
unfoldable pub pack_structure :
    Host → (ℕ → ℕ) → ℕ → MessageType → Option ℕ → ℕ → Bytes → Bytes → Bytes → Option Packed
pack_structure host base header message logon_id pkg domain user password = do
  address ← host.allocate (total header domain user password)
  some (structure address (base address) header message logon_id pkg domain user password)

-- The two scenarios behind the choice of the package.
unfoldable pub pack_scenario :
    Host
    → (ℕ → ℕ)
    → MessageType
    → MessageType
    → Scenario
    → ℕ
    → Bytes
    → Bytes
    → Bytes
    → Option Packed
pack_scenario host base on_logon on_unlock logon pkg domain user password =
    pack_structure host base host.logon_size on_logon none pkg domain user password
pack_scenario host base on_logon on_unlock unlock pkg domain user password = do
  id ← console_logon_id host
  pack_structure host base host.unlock_size on_unlock (some id) pkg domain user password

-- `domain.empty() || domain == L"."`
abbrev pub is_local : Bytes → Bool
is_local domain = is_empty domain || bytes_eq domain (codes ".")

-- `if (user.empty()) return false;`
abbrev pub not_empty : Bytes → Option Bytes
not_empty s = if is_empty s then none else some s

-- `PackKerb`: the pointers are addresses.
unfoldable pub pack_kerb : Host → Bytes → Bytes → Bytes → Scenario → Option Packed
pack_kerb host domain user password scenario = do
  name ← not_empty user
  pkg ← host.negotiate
  let domain' = if is_local domain then local_machine_name host else domain
  pack_scenario host (λ address. address) kerb_logon kerb_unlock scenario pkg domain' name password

-- `PackMsv`: the pointers are offsets in the blob.
unfoldable pub pack_msv : Host → Bytes → Bytes → Bytes → Scenario → Option Packed
pack_msv host domain user password scenario = do
  name ← not_empty user
  pkg ← host.msv
  let domain' = if is_empty domain then codes "." else domain
  pack_scenario host (λ address. 0) msv_logon msv_unlock scenario pkg domain' name password

-- `PackAutoEx`
unfoldable pub pack_auto : Host → Bytes → Bytes → Bytes → Scenario → Option Packed
pack_auto host domain user password scenario =
    if is_local domain
    then pack_msv host domain user password scenario
    else pack_kerb host domain user password scenario
