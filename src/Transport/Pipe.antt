-- ===== src/Transport/Pipe.antt =====
-- The name and the creation of the pipe (src/broker/ProviderPipeTransport.cpp: `MakePipeName`,
-- `CreateRestrictedPipeServer`).
use dot1xcp.Base.{ℕ, Bool, ◌||◌, Option, none, some, ◌++◌, map, ◌==◌, if◌then◌else◌, Bytes, codes}
use dot1xcp.Util.{hex}

abbrev pub prefix : Bytes
prefix = codes "\\\\.\\pipe\\cp.dot1x."

-- The loop over the characters of the GUID's text.
abbrev pub clean : ℕ → ℕ
clean c = if c == b'{' || c == b'}' || c == b'-' then b'_' else c

-- `MakePipeName`: the text that `CoCreateGuid` and `StringFromGUID2` give, none if either fails, and
-- the 64-bit tick count.
unfoldable pub make_pipe_name : Option Bytes → ℕ → Bytes
make_pipe_name none tick = prefix ++ hex 16 tick
make_pipe_name (some guid) tick = prefix ++ map clean guid

-- The two security descriptors.
pub data Sddl : Type 0 where
  strict relaxed : Sddl

-- The answers of `ConvertStringSecurityDescriptorToSecurityDescriptorW`, and of `CreateNamedPipeW` for a
-- name and a descriptor, `none` being the default one.
pub record Pipes : Type 0 where
  pub converts : Sddl → Bool
  pub create : Bytes → Option Sddl → Option ℕ

-- `make_pipe`
unfoldable pub make_pipe : Pipes → Bytes → Sddl → Option ℕ
make_pipe pipes name sddl = pipes.create name (if pipes.converts sddl then some sddl else none)

abbrev pub or_else {ℓ} : {A : Type ℓ} → Option A → Option A → Option A
or_else (some a) b = some a
or_else none b = b

-- `CreateRestrictedPipeServer`
unfoldable pub create_pipe_server : Pipes → Bytes → Option ℕ
create_pipe_server pipes name =
    or_else (make_pipe pipes name strict)
      (or_else (make_pipe pipes name relaxed) (pipes.create name none))
