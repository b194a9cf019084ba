-- ===== src/Environment.antt =====
-- The environment block that the broker is started with (src/broker/ProviderPipe.cpp:
-- `BuildChildEnvironmentWithPipe`).
pub mod Entries
pub mod Launch
use dot1xcp.Base.{
  ℕ, zero, suc, ◌+◌, Bool, true, false, ◌&&◌, Option, none, some, [], ◌∷◌, ◌++◌, leb, ◌==◌,
  if◌then◌else◌, length, Bytes, codes,
}

-- `towlower` on the letters of ASCII, as `_wcsnicmp` compares in the C locale.
abbrev pub lower : ℕ → ℕ
lower c = if leb b'A' c && leb c b'Z' then c + 32 else c

-- `_wcsnicmp(s, prefix, n) == 0` for a prefix of `n` units. At the end of `s` stands a zero, which is no
-- unit of the prefix.
abbrev pub starts_with : Bytes → Bytes → Bool
starts_with [] s = true
starts_with (p ∷ prefix) [] = false
starts_with (p ∷ prefix) (c ∷ s) = lower p == lower c && starts_with prefix s

abbrev pub cp_pipe : Bytes
cp_pipe = codes "CP_PIPE="

-- The string that starts at a pointer, and what stands behind its zero: `wcslen(p)` and
-- `p += wcslen(p) + 1`. An end without a zero is not met in a block.
unfoldable pub cut : Bytes → Bytes × Bytes
cut [] = ([], [])
cut (c ∷ s) = let (entry, rest) = cut s in if c == 0 then ([], s) else (c ∷ entry, rest)

-- The loop over the strings of the block, up to an empty one.
unfoldable pub copy_entries : ℕ → Bytes → Bytes
copy_entries zero s = []
copy_entries (suc fuel) [] = []
copy_entries (suc fuel) (c ∷ s) =
    let (entry, rest) = cut (c ∷ s) in
    let copied = copy_entries fuel rest in
    if c == 0 then [] else if starts_with cp_pipe entry then copied else entry ++ (0 ∷ copied)

-- `BuildChildEnvironmentWithPipe`: the block, or none if there is no block to start from. Each round
-- steps over a string, so the length is enough fuel.
unfoldable pub child_environment : Option Bytes → Bytes → Option Bytes
child_environment none pipe_name = none
child_environment (some base) pipe_name =
    some (copy_entries (length base) base ++ ((cp_pipe ++ pipe_name) ++ (0 ∷ 0 ∷ [])))
