-- ===== src/Com/Counting.antt =====
-- Reference counting and the lock count of the library (src/com/ClassFactory.cpp, src/com/dllmain.cpp,
-- src/core/ProviderCore.cpp).
use dot1xcp.Base.{
  ℕ, ◌+◌, ◌-◌, ◌%◌, ◌≤◌, ◌<◌, ◌≡◌, refl, sym, ap, ◌∙◌, inl, inr, none, some, arith, ◌==◌,
  if◌then◌else◌, ==_iff, Bool-cases, Option-cases,
}
use dot1xcp.State.{word}
use dot1xcp.Com.{
  count_down, Kind, factory, provider, credential, Object, put, Server, count_up, construct,
  add_ref, destroy, release,
}
use dot1xcp.Com.Heap.{factories-new, refs_of, weight, weight_of, factories, factories-put}

abbrev pub gain : ℕ → (ℕ → ℕ) → ℕ → ℕ
gain p held q = if p == q then held q + 1 else held q

abbrev pub lose : ℕ → (ℕ → ℕ) → ℕ → ℕ
lose p held q = if p == q then held q - 1 else held q

-- An object has as many references as are held, there is none that nobody holds, and the lock count
-- is that of the factories and the locks.
pub record Counted (s : Server) (held : ℕ → ℕ) (locks : ℕ) : Type 0 where
  pub refs_are : (p : ℕ) → refs_of (s.heap p) ≡ held p
  pub lives : (p : ℕ) → held p ≡ 0 → s.heap p ≡ none
  pub fresh : (p : ℕ) → s.next ≤ p → s.heap p ≡ none
  pub count_is : s.lock_count ≡ (factories s.next s.heap + locks) % word

pub Counted-same :
    {s : Server} {held held' : ℕ → ℕ} {locks : ℕ}
    → ((p : ℕ) → held p ≡ held' p)
    → Counted s held locks
    → Counted s held' locks
Counted-same same c = record {
  refs_are = λ p. c.refs_are p ∙ same p;
  lives = λ p e. c.lives p (same p ∙ e);
  fresh = c.fresh;
  count_is = c.count_is;
}

count_up-is :
    (kind : Kind) (n f locks : ℕ)
    → n ≡ (f + locks) % word
    → count_up kind n ≡ (weight kind + f + locks) % word
count_up-is factory n f locks h = omega (arith, h)
count_up-is provider n f locks h = omega (arith, h)
count_up-is credential n f locks h = omega (arith, h)

count_down-is :
    (kind : Kind) (n f f' locks : ℕ)
    → n ≡ (f + locks) % word
    → f' + weight kind ≡ f
    → count_down kind n ≡ (f' + locks) % word
count_down-is factory n f f' locks h e = omega (arith, h, e)
count_down-is provider n f f' locks h e = omega (arith, h, e)
count_down-is credential n f f' locks h e = omega (arith, h, e)

same_if :
    (g : ℕ → ℕ) (p n : ℕ) (held : ℕ → ℕ)
    → n ≡ g (held p)
    → (q : ℕ) → (if p == q then n else held q) ≡ (if p == q then g (held q) else held q)
same_if g p n held h q = elim (Bool-cases (p == q)) [
  | inl e ↦ rw e (h ∙ ap (λ x. g (held x)) ((==_iff p q).0 e))
  | inr e ↦ rw e refl
]

pub construct-Counted :
    (kind : Kind) (s : Server) (held : ℕ → ℕ) (locks : ℕ)
    → Counted s held locks
    → Counted (construct kind s) (gain s.next held) locks
unfolding construct
construct-Counted kind s held locks c = record {
  refs_are = λ p. ground (arith, c.refs_are p, c.lives p, c.fresh p);
  lives = λ p e. ground (arith, c.lives p);
  fresh = λ p h. ground (arith, c.fresh p);
  count_is =
      count_up-is kind s.lock_count (factories s.next s.heap) locks c.count_is
      ∙ omega (arith, factories-new s.next (some (record { kind = kind; refs = 1 })) s.heap);
}

module _ (p : ℕ) (s : Server) (held : ℕ → ℕ) (locks : ℕ) (c : Counted s held locks) where
  -- What a caller has a reference to is there.
  pub object_at : 0 < held p → (o : Object) × (s.heap p ≡ some o) × (o.refs ≡ held p) × (p < s.next)
  object_at h = elim (Option-cases (s.heap p)) [
    | inl e ↦ absurd (ground (arith, c.refs_are p, h))
    | inr (o, e) ↦ (o, e, ap refs_of (sym e) ∙ c.refs_are p, ground (arith, c.fresh p, e))
  ]

  -- Another number of references to the same object.
  recount :
      (o : Object) (n : ℕ)
      → s.heap p ≡ some o
      → p < s.next
      → 0 < n
      → Counted
          (record s { heap = put p (some (record o { refs = n })) s.heap })
          (λ q. if p == q then n else held q)
          locks
  recount o n e below positive = record {
    refs_are = λ q. ground (arith, c.refs_are q);
    lives = λ q z. ground (arith, c.lives q, positive);
    fresh = λ q h. ground (arith, c.fresh q, below);
    count_is = omega (
      arith,
      c.count_is,
      ap weight_of e,
      factories-put s.next p (some (record o { refs = n })) s.heap below,
    );
  }

  destroy-Counted :
      (o : Object)
      → s.heap p ≡ some o
      → p < s.next
      → Counted (destroy p o.kind s) (λ q. if p == q then 0 else held q) locks
  unfolding destroy
  destroy-Counted o e below = record {
    refs_are = λ q. ground (arith, c.refs_are q);
    lives = λ q z. ground (arith, c.lives q);
    fresh = λ q h. ground (arith, c.fresh q, below);
    count_is =
        count_down-is o.kind s.lock_count (factories s.next s.heap)
          (factories s.next (put p none s.heap)) locks c.count_is
          (omega (arith, ap weight_of e, factories-put s.next p none s.heap below));
  }

  pub add_ref-Counted : 0 < held p → held p + 1 < word → Counted (add_ref p s) (gain p held) locks
  unfolding add_ref
  add_ref-Counted h small =
      let (o, e, is, below) = object_at h in
      rw (add_ref, e)
        (Counted-same (same_if (λ n. n + 1) p ((o.refs + 1) % word) held (omega (arith, is, small)))
          (recount o ((o.refs + 1) % word) e below (omega (arith, is, small))))

  pub release-Counted : 0 < held p → held p < word → Counted (release p s) (lose p held) locks
  unfolding release
  release-Counted h small =
      let (o, e, is, below) = object_at h in
      elim (Bool-cases ((o.refs + (word - 1)) % word == 0)) [
        | inl z ↦
            rw (release, e, z)
              (Counted-same (same_if (λ n. n - 1) p 0 held (ground (arith, is, small, z)))
                (destroy-Counted o e below))
        | inr z ↦
            rw (release, e, z)
              (Counted-same
                (same_if (λ n. n - 1) p ((o.refs + (word - 1)) % word) held
                  (omega (arith, is, small, h)))
                (recount o ((o.refs + (word - 1)) % word) e below (ground (arith, z))))
      ]
