-- ===== src/Auth.antt =====
-- The identifiers of the authentication packages (src/auth/SerializationAuth.cpp): looking one up at
-- the LSA, and the cache of each.
pub mod Cache
use dot1xcp.Base.{ℕ, Option, none, some, ◌∷◌, ◌==◌, if◌then◌else◌, Bytes, codes}
use dot1xcp.State.{Trace, is_positive, opened, closed}

-- The answers of the LSA to one lookup: the handle of the connection, and the identifier of a package.
-- `none` is a negative NTSTATUS.
pub record Lsa : Type 0 where
  pub connects : Option ℕ
  pub lookup : Bytes → Option ℕ

-- `t == 0` is a failure too.
abbrev pub nonzero : Option ℕ → Option ℕ
nonzero none = none
nonzero (some id) = if id == 0 then none else some id

-- `ResolvePkgA`: the identifier, and the trace with the connection that is opened and closed.
unfoldable pub resolve_pkg : Lsa → Bytes → Trace → Option ℕ × Trace
resolve_pkg lsa name t = elim lsa.connects [
  | none ↦ (none, t)
  | some h ↦ (nonzero (lsa.lookup name), closed h ∷ opened h ∷ t)
]

-- Behind a lookup that `ResolvePkgCached` makes: the identifier, the slot and the trace. The
-- compare-and-exchange stores the identifier in a slot that holds 0, and gives the slot's old value.
abbrev pub store : ℕ → Option ℕ × Trace → Option ℕ × ℕ × Trace
store slot (none, t) = (none, slot, t)
store slot (some resolved, t) =
    (some (if is_positive slot then slot else resolved), if slot == 0 then resolved else slot, t)

-- `ResolvePkgCached`, on the cache slot, a LONG.
unfoldable pub resolve_cached : Lsa → Bytes → ℕ → Trace → Option ℕ × ℕ × Trace
resolve_cached lsa name slot t =
    if is_positive slot then (some slot, slot, t) else store slot (resolve_pkg lsa name t)

-- `g_cachedKerberosPkg` and `g_cachedMsvPkg`
pub record Packages : Type 0 where
  pub kerberos : ℕ
  pub msv : ℕ

-- `ResolveNegotiate`
unfoldable pub resolve_negotiate : Lsa → Packages → Trace → Option ℕ × Packages × Trace
resolve_negotiate lsa cached t =
    let (id, slot, t') = resolve_cached lsa (codes "Kerberos") cached.kerberos t in
    (id, record cached { kerberos = slot }, t')

-- `ResolveMsv`
unfoldable pub resolve_msv : Lsa → Packages → Trace → Option ℕ × Packages × Trace
resolve_msv lsa cached t =
    let (id, slot, t') =
      resolve_cached lsa (codes "MICROSOFT_AUTHENTICATION_PACKAGE_V1_0") cached.msv t in
    (id, record cached { msv = slot }, t')
