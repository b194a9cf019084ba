-- ===== src/Auth/Cache.antt =====
-- What the cache of package identifiers promises (src/auth/SerializationAuth.cpp).
use dot1xcp.Base.{ℕ, ◌+◌, ◌≡◌, refl, ap, ◌∙◌, ◌≢◌, true, some, arith, Bytes, codes}
use dot1xcp.State.{Trace, is_positive}
use dot1xcp.Auth.{Lsa, Packages, resolve_pkg, resolve_cached, resolve_negotiate, resolve_msv}
use dot1xcp.Invariant.Handles.{opens, closes}

-- What a lookup from an empty slot gives is in the slot afterwards.
resolve_cached-stores :
    (lsa : Lsa) (name : Bytes) (slot : ℕ) (t : Trace) {id : ℕ}
    → slot ≡ 0
    → (resolve_cached lsa name slot t).0 ≡ some id
    → (resolve_cached lsa name slot t).1 ≡ id
unfolding resolve_cached resolve_pkg
resolve_cached-stores lsa name slot t empty h = ground arith

-- A slot that is positive is what a call gives.
resolve_cached-hit :
    (lsa : Lsa) (name : Bytes) (slot : ℕ) (t : Trace)
    → is_positive slot ≡ true
    → resolve_cached lsa name slot t ≡ (some slot, slot, t)
unfolding resolve_cached
resolve_cached-hit lsa name slot t p = rw p refl

-- Once the MSV1_0 package was resolved to an identifier that is positive as a LONG, from an empty cache,
-- every later call gives the same identifier, whatever the LSA answers then; it changes no cache and
-- opens no connection, and a call for the other package in between makes no difference.
pub resolve_msv-twice :
    (first other later : Lsa) (cached : Packages) (t t' : Trace) (id : ℕ)
    → cached.msv ≡ 0
    → (resolve_msv first cached t).0 ≡ some id
    → is_positive id ≡ true
    → let (k, between, u) = resolve_negotiate other (resolve_msv first cached t).1 t' in
      resolve_msv later between u ≡ (some id, between, u)
unfolding resolve_msv resolve_negotiate
resolve_msv-twice first other later cached t t' id empty h p =
    let name = codes "MICROSOFT_AUTHENTICATION_PACKAGE_V1_0" in
    let slot = (resolve_cached first name cached.msv t).1 in
    let stored = resolve_cached-stores first name cached.msv t empty h in
    let (k, between, u) = resolve_negotiate other (resolve_msv first cached t).1 t' in
    let hit = resolve_cached-hit later name slot u (ap is_positive stored ∙ p) in
    ap (λ r. (r.0, record between { msv = r.1 }, r.2)) hit ∙ ap (λ i. (some i, between, u)) stored

-- Every connection to the LSA that a call opens it closes, and an identifier that it gives is not 0.
pub resolve_cached-closes :
    (lsa : Lsa) (name : Bytes) (slot : ℕ) (t : Trace) (h : ℕ)
    → let (id, slot', t') = resolve_cached lsa name slot t in
      (opens h t' + closes h t ≡ opens h t + closes h t') × (id ≢ some 0)
unfolding resolve_cached resolve_pkg
resolve_cached-closes lsa name slot t h = ground arith
