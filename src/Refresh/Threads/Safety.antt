-- ===== src/Refresh/Threads/Safety.antt =====
-- What holds of refreshes however they interleave (src/core/Provider.cpp).
use dot1xcp.Base.{
  ℕ, ◌≤◌, ◌<◌, ◌≡◌, refl, sym, subst, ◌∙◌, inl, inr, true, false, none, some, List, ◌∷◌, ◌++◌,
  arith, Option-cases,
}
use dot1xcp.Invariant.Handles.{one}
use dot1xcp.Refresh.Threads.{
  Shared, Task, idle, seen, notifying, releasing, giving_up, changing, System, Step, acts, joins,
  start, Reach, begin, later,
}
use dot1xcp.Refresh.Threads.Tasks.{
  sum, sum-insert, sum-le, owns, reads, writes, holds, owes, owes-writes, IsFresh, All-take,
  All-put,
}
use dot1xcp.Refresh.Threads.Moves.{Inv, Move-Inv}

module _ (m : Shared) (xs ys : List Task) (p : Task) where
  -- The order of the tasks makes no difference.
  Inv-take : Inv m (xs ++ (p ∷ ys)) → Inv m (p ∷ (xs ++ ys))
  Inv-take i = record {
    owners = sym (sum-insert owns xs ys p) ∙ i.owners;
    readers = sym (sum-insert reads xs ys p) ∙ i.readers;
    writers = sym (sum-insert writes xs ys p) ∙ i.writers;
    excluded = i.excluded;
    balance =
        λ o. omega (arith, i.balance o, sum-insert (owes o) xs ys p, sum-insert (holds o) xs ys p);
    covered = λ o. omega (arith, i.covered o, sum-insert (owes o) xs ys p);
    fresh = All-take (IsFresh m.events) xs ys i.fresh;
  }

  Inv-put : Inv m (p ∷ (xs ++ ys)) → Inv m (xs ++ (p ∷ ys))
  Inv-put i = record {
    owners = sum-insert owns xs ys p ∙ i.owners;
    readers = sum-insert reads xs ys p ∙ i.readers;
    writers = sum-insert writes xs ys p ∙ i.writers;
    excluded = i.excluded;
    balance =
        λ o. omega (arith, i.balance o, sum-insert (owes o) xs ys p, sum-insert (holds o) xs ys p);
    covered = λ o. omega (arith, i.covered o, sum-insert (owes o) xs ys p);
    fresh = All-put (IsFresh m.events) xs ys i.fresh.0 i.fresh.1;
  }

join-Inv : (m : Shared) (ts : List Task) → Inv m ts → Inv m (idle ∷ ts)
join-Inv m ts i = record {
  owners = omega (arith, i.owners);
  readers = omega (arith, i.readers);
  writers = omega (arith, i.writers);
  excluded = i.excluded;
  balance = λ o. omega (arith, i.balance o);
  covered = λ o. omega (arith, i.covered o);
  fresh = (tt, i.fresh);
}

Step-Inv : (s t : System) → Step s t → Inv s.shared s.tasks → Inv t.shared t.tasks
Step-Inv s t (acts xs ys {p} {p'} before mv behind) i = subst (Inv t.shared) (sym behind) (
    Inv-put t.shared xs ys p'
      (Move-Inv (xs ++ ys) mv (Inv-take s.shared xs ys p (subst (Inv s.shared) before i))))
Step-Inv s t (joins same_shared more) i =
    subst (Inv t.shared) (sym more)
      (subst (λ m. Inv m (idle ∷ s.tasks)) (sym same_shared) (join-Inv s.shared s.tasks i))

start-Inv : Inv start.shared start.tasks
start-Inv = record {
  owners = refl;
  readers = refl;
  writers = refl;
  excluded = λ e. refl;
  balance = λ o. refl;
  covered = λ o. omega arith;
  fresh = tt;
}

pub Reach-Inv : {s : System} → Reach s → Inv s.shared s.tasks
Reach-Inv begin = start-Inv
Reach-Inv (later {s} {t} r st) = Step-Inv s t st (Reach-Inv r)

-- A request that is about to take a reference to the registered object, and a task that is about to
-- call an object or to give it back, finds a reference that this program still has. The object that
-- `SetProviderEvents` is given is its caller's to keep until `AddRef`.
abbrev pub IsAlive : Shared → Task → Type 0
IsAlive m (seen g (some o) c) = 0 < m.refs o
IsAlive m (notifying o c) = 0 < m.refs o
IsAlive m (releasing o) = 0 < m.refs o
IsAlive m (giving_up o) = 0 < m.refs o
IsAlive m (changing e c) = elim m.events [ none ↦ Unit | some o ↦ 0 < m.refs o ]
IsAlive m t = Unit

owed : (o : ℕ) (ts : List Task) → sum (owes o) ts ≤ sum writes ts
owed o ts = sum-le (owes o) writes (owes-writes o) ts

IsAlive-here : (m : Shared) (t : Task) (ts : List Task) → Inv m (t ∷ ts) → IsAlive m t
IsAlive-here m (seen g (some o) c) ts i =
    ground (arith, i.balance o, i.covered o, i.fresh.0, i.readers, i.writers, i.excluded, owed o ts)
IsAlive-here m (notifying o c) ts i = ground (arith, i.balance o, i.covered o)
IsAlive-here m (releasing o) ts i = ground (arith, i.balance o, i.covered o)
IsAlive-here m (giving_up o) ts i = ground (arith, i.balance o, i.covered o)
IsAlive-here m (changing e c) ts i = elim (Option-cases m.events) [
  | inl is ↦ ground (arith, is)
  | inr (o, is) ↦ ground (arith, is, i.balance o, i.writers, owed o ts)
]
IsAlive-here m t ts i = tt

-- However calls and callbacks interleave, on any number of threads: a request before `AddRef` of the
-- registered object, a callback before `CredentialsChanged`, and a request, a callback or a call of
-- `SetProviderEvents` before `Release` of an object find that this program has a reference to it.
-- Nothing is said of `AddRef` in `SetProviderEvents`, whose object is its caller's.
pub Reach-IsAlive :
    {s : System} (xs ys : List Task) (t : Task)
    → Reach s
    → s.tasks ≡ xs ++ (t ∷ ys)
    → IsAlive s.shared t
Reach-IsAlive {s} xs ys t r e =
    IsAlive-here s.shared t (xs ++ ys)
      (Inv-take s.shared xs ys t (subst (Inv s.shared) e (Reach-Inv r)))

-- However calls and callbacks interleave, a task that is between winning `g_refreshPending` and
-- clearing it, which includes every waiting timer and every callback, finds it set, and no other task
-- is there.
pub Reach-single :
    {s : System} (xs ys : List Task) (t : Task)
    → Reach s
    → s.tasks ≡ xs ++ (t ∷ ys)
    → owns t ≡ 1
    → (s.shared.pending ≡ true) × (sum owns (xs ++ ys) ≡ 0)
Reach-single {s} xs ys t r e h =
    let i = Inv-take s.shared xs ys t (subst (Inv s.shared) e (Reach-Inv r)) in
    ground (arith, i.owners)

holds-owns : (o : ℕ) (t : Task) → holds o t ≤ owns t
holds-owns o t = ground arith

-- However calls and callbacks interleave: when no request, timer or callback is under way and no
-- thread is in the exclusive lock, no refresh is pending, and the only reference to any events object
-- that this program has is the one to the registered object.
pub Reach-refs :
    {s : System}
    → Reach s
    → sum owns s.tasks ≡ 0
    → sum writes s.tasks ≡ 0
    → (s.shared.pending ≡ false) × ((o : ℕ) → s.shared.refs o ≡ one o s.shared.events)
Reach-refs {s} r quiet unlocked =
    let i = Reach-Inv r in
    (
      ground (arith, i.owners),
      λ o. omega (
        arith,
        i.balance o,
        sum-le (holds o) owns (holds-owns o) s.tasks,
        owed o s.tasks,
        quiet,
        unlocked,
      ),
    )
