-- ===== src/Com/Calls.antt =====
-- Callers of the library's objects (src/com/ClassFactory.cpp, src/com/dllmain.cpp,
-- src/core/ProviderCore.cpp): sequences of calls, and what callers hold.
use dot1xcp.Base.{
  ℕ, ◌+◌, ◌-◌, ◌<◌, ◌≡◌, refl, sym, ap, ◌∙◌, inl, inr, Bool, true, false, Option, none, some, arith,
  ◌==◌, if◌then◌else◌, ==_iff, Bool-cases,
}
use dot1xcp.State.{word}
use dot1xcp.Response.{HResult}
use dot1xcp.Com.{
  Kind, factory, provider, credential, Server, construct, add_ref, release, Iid, supports, Reply,
  query_interface, create, get_class_object, create_instance, lock_server, credential_at,
}
use dot1xcp.Com.Heap.{refs_of, factories}
use dot1xcp.Com.Counting.{
  gain, lose, Counted, Counted-same, construct-Counted, add_ref-Counted, release-Counted, object_at,
}

-- A call; `p` is the object that it is a call of.
pub data Request : Type 0 where
  asks_class : (matches : Bool) (iid : Iid) (has_out allocated : Bool) → Request
  creates : (p : ℕ) (has_outer : Bool) (iid : Iid) (has_out allocated : Bool) → Request
  asks_credential : (p index : ℕ) (has_out allocated : Bool) → Request
  queries : (p : ℕ) (iid : Iid) (has_out : Bool) → Request
  adds drops : (p : ℕ) → Request
  sets_lock : (p : ℕ) (lock : Bool) → Request

-- `QueryInterface` at an address; at one without an object, which no caller may use, it does nothing.
unfoldable pub query_at : ℕ → Iid → Bool → Server → Reply × Server
query_at p iid has_out s = elim (s.heap p) [
  | none ↦ ((HResult.e_pointer, none), s)
  | some o ↦ query_interface o.kind p iid has_out s
]

-- The reply has no pointer where the call hands none out.
unfoldable pub serve : Request → Server → Reply × Server
serve (asks_class matches iid has_out allocated) s =
    get_class_object matches iid has_out allocated s
serve (creates p has_outer iid has_out allocated) s =
    create_instance has_outer iid has_out allocated s
serve (asks_credential p index has_out allocated) s = credential_at index has_out allocated s
serve (queries p iid has_out) s = query_at p iid has_out s
serve (adds p) s = ((HResult.s_ok, some p), add_ref p s)
serve (drops p) s = ((HResult.s_ok, none), release p s)
serve (sets_lock p lock) s = ((HResult.s_ok, none), lock_server lock s)

-- The references that callers have, and their locks.
pub record Ledger : Type 0 where
  pub held : ℕ → ℕ
  pub locks : ℕ

-- A pointer that is handed out is a reference.
abbrev pub gained : Option ℕ → (ℕ → ℕ) → ℕ → ℕ
gained none held = held
gained (some p) held = gain p held

unfoldable pub settle : Request → Reply → Ledger → Ledger
settle (drops p) reply l = record l { held = lose p l.held }
settle (sets_lock p lock) reply l = record l { locks = if lock then l.locks + 1 else l.locks - 1 }
settle r reply l = record l { held = gained reply.1 l.held }

-- The rules of COM: a caller uses only objects to which it has a reference, and gives back no lock that
-- it has not taken. Nobody takes 2 ^ 32 references to one object.
abbrev pub IsAllowed : Request → Ledger → Type 0
IsAllowed (asks_class matches iid has_out allocated) l = Unit
IsAllowed (creates p has_outer iid has_out allocated) l = 0 < l.held p
IsAllowed (asks_credential p index has_out allocated) l = 0 < l.held p
IsAllowed (queries p iid has_out) l = (0 < l.held p) × (l.held p + 1 < word)
IsAllowed (adds p) l = (0 < l.held p) × (l.held p + 1 < word)
IsAllowed (drops p) l = (0 < l.held p) × (l.held p < word)
IsAllowed (sets_lock p lock) l = if lock then 0 < l.held p else (0 < l.held p) × (0 < l.locks)

abbrev pub loaded : Server
loaded = record { heap = λ p. none; next = 1; lock_count = 0 }

-- The states that callers can reach who keep to the rules.
pub data Served : Server → Ledger → Type 0 where
  begin : Served loaded (record { held = λ p. 0; locks = 0 })
  later :
      {s : Server} {l : Ledger} (r : Request)
      → Served s l
      → IsAllowed r l
      → Served (serve r s).1 (settle r (serve r s).0 l)

gain-same : (p : ℕ) (held : ℕ → ℕ) → gain p held p ≡ held p + 1
gain-same p held = rw ((==_iff p p).1 refl) refl

lose-gain : (p : ℕ) (held : ℕ → ℕ) (q : ℕ) → lose p (gain p held) q ≡ held q
lose-gain p held q = ground arith

module _ (s : Server) (held : ℕ → ℕ) (locks : ℕ) (c : Counted s held locks) where
  held-next : held s.next ≡ 0
  held-next = sym (c.refs_are s.next) ∙ ap refs_of (c.fresh s.next (omega arith))

  create-Counted :
      (kind : Kind) (iid : Iid) (allocated : Bool)
      → let (reply, s') = create kind iid allocated s in Counted s' (gained reply.1 held) locks
  unfolding create query_interface
  create-Counted kind iid false = c
  create-Counted kind iid true =
      let n = s.next in
      let first = construct-Counted kind s held locks c in
      let one_held = gain-same n held ∙ ap (λ k. k + 1) held-next in
      elim (Bool-cases (supports kind iid)) [
        | inl e ↦
            let second =
              add_ref-Counted n (construct kind s) (gain n held) locks first
                (omega (arith, one_held)) (omega (arith, one_held)) in
            let two_held = gain-same n (gain n held) in
            rw e (
              Counted-same (lose-gain n (gain n held)) (
                release-Counted n (add_ref n (construct kind s)) (gain n (gain n held)) locks second
                  (omega (arith, one_held, two_held)) (omega (arith, one_held, two_held))))
        | inr e ↦ rw e (
            Counted-same (lose-gain n held) (
              release-Counted n (construct kind s) (gain n held) locks first
                (omega (arith, one_held)) (omega (arith, one_held))))
      ]

  query_at-Counted :
      (p : ℕ) (iid : Iid) (has_out : Bool)
      → 0 < held p
      → held p + 1 < word
      → let (reply, s') = query_at p iid has_out s in Counted s' (gained reply.1 held) locks
  unfolding query_at query_interface
  query_at-Counted p iid false h small =
      let (o, e, is, below) = object_at p s held locks c h in rw (query_at, e) c
  query_at-Counted p iid true h small =
      let (o, e, is, below) = object_at p s held locks c h in
      elim (Bool-cases (supports o.kind iid)) [
        | inl z ↦ rw (query_at, e, z) (add_ref-Counted p s held locks c h small)
        | inr z ↦ rw (query_at, e, z) c
      ]

  lock_server-Counted :
      (lock : Bool)
      → (if lock then Unit else 0 < locks)
      → Counted (lock_server lock s) held (if lock then locks + 1 else locks - 1)
  unfolding lock_server
  lock_server-Counted true h = record {
    refs_are = c.refs_are;
    lives = c.lives;
    fresh = c.fresh;
    count_is = omega (arith, c.count_is);
  }
  lock_server-Counted false h = record {
    refs_are = c.refs_are;
    lives = c.lives;
    fresh = c.fresh;
    count_is = omega (arith, c.count_is, h);
  }

serve-Counted :
    (r : Request) (s : Server) (l : Ledger)
    → Counted s l.held l.locks
    → IsAllowed r l
    → let (reply, s') = serve r s in let l' = settle r reply l in Counted s' l'.held l'.locks
unfolding serve settle get_class_object create_instance credential_at
serve-Counted (asks_class matches iid false allocated) s l c h = c
serve-Counted (asks_class false iid true allocated) s l c h = c
serve-Counted (asks_class true iid true allocated) s l c h =
    create-Counted s l.held l.locks c factory iid allocated
serve-Counted (creates p true iid has_out allocated) s l c h = c
serve-Counted (creates p false iid false allocated) s l c h = c
serve-Counted (creates p false iid true allocated) s l c h =
    create-Counted s l.held l.locks c provider iid allocated
serve-Counted (asks_credential p index false allocated) s l c h = c
serve-Counted (asks_credential p index true false) s l c h = elim (Bool-cases (index == 0)) [
  | inl e ↦ rw e c
  | inr e ↦ rw e c
]
serve-Counted (asks_credential p index true true) s l c h = elim (Bool-cases (index == 0)) [
  | inl e ↦ rw e (construct-Counted credential s l.held l.locks c)
  | inr e ↦ rw e c
]
serve-Counted (queries p iid has_out) s l c h =
    query_at-Counted s l.held l.locks c p iid has_out h.0 h.1
serve-Counted (adds p) s l c h = add_ref-Counted p s l.held l.locks c h.0 h.1
serve-Counted (drops p) s l c h = release-Counted p s l.held l.locks c h.0 h.1
serve-Counted (sets_lock p true) s l c h = lock_server-Counted s l.held l.locks c true tt
serve-Counted (sets_lock p false) s l c h = lock_server-Counted s l.held l.locks c false h.1

pub Served-Counted : {s : Server} {l : Ledger} → Served s l → Counted s l.held l.locks
unfolding factories
Served-Counted begin = record {
  refs_are = λ p. refl;
  lives = λ p e. refl;
  fresh = λ p h. refl;
  count_is = refl;
}
Served-Counted (later {s} {l} r served h) = serve-Counted r s l (Served-Counted served) h

-- After any calls of callers who keep to the rules, there are exactly the objects that somebody holds a
-- reference to, and each counts as many references as are held.
pub Served-refs :
    {s : Server} {l : Ledger}
    → Served s l
    → (p : ℕ) → (refs_of (s.heap p) ≡ l.held p) × (l.held p ≡ 0 → s.heap p ≡ none)
Served-refs served p = let c = Served-Counted served in (c.refs_are p, c.lives p)
