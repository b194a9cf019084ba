-- ===== src/Com/Unload.antt =====
-- When the library says that it can be unloaded (src/com/dllmain.cpp: `DllCanUnloadNow`).
use dot1xcp.Base.{
  ℕ, zero, suc, ◌+◌, ◌<◌, ◌≡◌, refl, ap, ◌↔◌, inl, inr, Option, arith, ltb, Bool-cases,
}
use dot1xcp.State.{word}
use dot1xcp.Response.{HResult}
use dot1xcp.Com.{Object, Server, can_unload}
use dot1xcp.Com.Heap.{weight_of, factories, weight_of-factories}
use dot1xcp.Com.Counting.{Counted}
use dot1xcp.Com.Calls.{Ledger, Served, Served-Counted}

no_factories :
    (n : ℕ) (heap : ℕ → Option Object) → ((p : ℕ) → weight_of (heap p) ≡ 0) → factories n heap ≡ 0
unfolding factories
no_factories zero heap h = refl
no_factories (suc n) heap h = omega (arith, h n, no_factories n heap h)

count-can_unload : (s : Server) → (can_unload s ≡ HResult.s_ok) ↔ (s.lock_count ≡ 0)
unfolding can_unload
count-can_unload s = ground arith

below_next :
    (s : Server) (held : ℕ → ℕ) (locks : ℕ)
    → Counted s held locks
    → factories s.next s.heap ≡ 0
    → (p : ℕ) → weight_of (s.heap p) ≡ 0
below_next s held locks c e p = elim (Bool-cases (ltb p s.next)) [
  | inl below ↦ omega (arith, e, weight_of-factories s.next p s.heap (ground arith))
  | inr beyond ↦ ap weight_of (c.fresh p (ground arith))
]

-- After any calls of callers who keep to the rules, with fewer than 2 ^ 32 factories and locks: `DllCanUnloadNow` says that the library
-- can be unloaded exactly when no lock is held and no object is a factory. Providers and credentials,
-- which callers may still hold, make no difference.
pub can_unload_iff :
    {s : Server} {l : Ledger}
    → Served s l
    → factories s.next s.heap + l.locks < word
    → (can_unload s ≡ HResult.s_ok) ↔ ((l.locks ≡ 0) × ((p : ℕ) → weight_of (s.heap p) ≡ 0))
can_unload_iff {s} {l} served small =
    let c = Served-Counted served in
    (
      λ h.
          let e = (count-can_unload s).0 h in
          (
            omega (arith, e, c.count_is),
            below_next s l.held l.locks c (omega (arith, e, c.count_is)),
          ),
      λ h. (count-can_unload s).1 (omega (arith, h.0, c.count_is, no_factories s.next s.heap h.1)),
    )
