-- ===== src/Com/Heap.antt =====
-- The objects of a heap, counted (src/com/ClassFactory.cpp, src/core/ProviderCore.cpp).
use dot1xcp.Base.{
  suc, suc, suc, suc, ℕ, zero, suc, ◌+◌, ◌≤◌, ◌<◌, ◌≡◌, refl, ap, inl, inr, Option, none, some,
  arith, ◌==◌, ==_iff, Bool-cases,
}
use dot1xcp.Com.{Kind, factory, provider, credential, Object, put}

-- The references to what stands at an address.
abbrev pub refs_of : Option Object → ℕ
refs_of none = 0
refs_of (some o) = o.refs

abbrev pub weight : Kind → ℕ
weight factory = 1
weight provider = 0
weight credential = 0

abbrev pub weight_of : Option Object → ℕ
weight_of none = 0
weight_of (some o) = weight o.kind

-- The factories below an address.
unfoldable pub factories : ℕ → (ℕ → Option Object) → ℕ
factories zero heap = 0
factories (suc n) heap = weight_of (heap n) + factories n heap

pub factories-beyond :
    (n p : ℕ) (o : Option Object) (heap : ℕ → Option Object)
    → n ≤ p
    → factories n (put p o heap) ≡ factories n heap
unfolding factories
factories-beyond zero p o heap h = refl
factories-beyond (suc n) p o heap h = ground (arith, factories-beyond n p o heap (omega (arith, h)))

pub factories-put :
    (n p : ℕ) (o : Option Object) (heap : ℕ → Option Object)
    → p < n
    → factories n (put p o heap) + weight_of (heap p) ≡ factories n heap + weight_of o
unfolding factories
factories-put zero p o heap h = absurd (omega (arith, h))
factories-put (suc n) p o heap h = elim (Bool-cases (p == n)) [
  | inl e ↦
      let is = (==_iff p n).0 e in
      let same = ap (λ q. weight_of (heap q)) is in
      rw e (omega (arith, same, factories-beyond n p o heap (omega (arith, is))))
  | inr e ↦ rw e (omega (arith, factories-put n p o heap (ground arith)))
]

pub weight_of-factories :
    (n p : ℕ) (heap : ℕ → Option Object) → p < n → weight_of (heap p) ≤ factories n heap
unfolding factories
weight_of-factories zero p heap h = absurd (omega (arith, h))
weight_of-factories (suc n) p heap h = elim (Bool-cases (p == n)) [
  | inl e ↦ omega (arith, ap (λ q. weight_of (heap q)) ((==_iff p n).0 e))
  | inr e ↦ omega (arith, weight_of-factories n p heap (ground arith))
]

pub factories-new :
    (n : ℕ) (o : Option Object) (heap : ℕ → Option Object)
    → factories (suc n) (put n o heap) ≡ weight_of o + factories n heap
unfolding factories
factories-new n o heap =
    rw ((==_iff n n).1 refl) (omega (arith, factories-beyond n n o heap (omega arith)))
