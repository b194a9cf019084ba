-- ===== src/Refresh/Threads/Moves.antt =====
-- What every step of a refresh keeps (src/core/Provider.cpp).
use dot1xcp.Base.{
  ℕ, ◌+◌, ◌≤◌, ◌≡◌, refl, true, false, none, some, List, ◌∷◌, arith, if◌then◌else◌, All,
}
use dot1xcp.Invariant.Handles.{one}
use dot1xcp.Refresh.Threads.{
  was_none, Shared, Task, Move, win, lock_exclusive, drop, forget, store, lock_shared,
}
use dot1xcp.Refresh.Threads.Tasks.{
  sum, sum-le, owns, reads, writes, holds, owes, owes-writes, IsFresh, All-outside,
}

-- One task is between winning `g_refreshPending` and clearing it exactly if it is set; the lock counts
-- its readers and its writer, and never has both; the references of each object are those that the
-- tasks hold and the registered one, but for what a writer owes; and what a writer owes is registered.
pub record Inv (m : Shared) (ts : List Task) : Type 0 where
  pub owners : sum owns ts ≡ (if m.pending then 1 else 0)
  pub readers : sum reads ts ≡ m.readers
  pub writers : sum writes ts ≡ (if m.writing then 1 else 0)
  pub excluded : m.writing ≡ true → m.readers ≡ 0
  pub balance : (o : ℕ) → m.refs o + sum (owes o) ts ≡ one o m.events + sum (holds o) ts
  pub covered : (o : ℕ) → sum (owes o) ts ≤ one o m.events
  pub fresh : All (IsFresh m.events) ts

-- What a step relies on of the shared variables.
abbrev Premise : {m m' : Shared} {p p' : Task} → Move m p m' p' → Type 0
Premise {m} (win _) = m.pending ≡ false
Premise {m} (lock_shared _) = m.writing ≡ false
Premise {m} (lock_exclusive _ _) = (m.writing ≡ false) × (m.readers ≡ 0)
Premise {m} (drop {old = old} _) = m.events ≡ some old
Premise {m} (was_none _) = m.events ≡ none
Premise _ = Unit

premise : {m m' : Shared} {p p' : Task} (mv : Move m p m' p') → Premise mv
premise (win h) = h
premise (lock_shared h) = h
premise (lock_exclusive h k) = (h, k)
premise (drop h) = h
premise (was_none h) = h
premise _ = tt

owed : (o : ℕ) (ts : List Task) → sum (owes o) ts ≤ sum writes ts
owed o ts = sum-le (owes o) writes (owes-writes o) ts

module _ (rest : List Task) where
  Move-owners :
      {m m' : Shared} {p p' : Task}
      → Move m p m' p'
      → Inv m (p ∷ rest)
      → sum owns (p' ∷ rest) ≡ (if m'.pending then 1 else 0)
  Move-owners (win h) i = ground (arith, i.owners)
  Move-owners mv i = ground (arith, i.owners)

  Move-lock :
      {m m' : Shared} {p p' : Task}
      → Move m p m' p'
      → Inv m (p ∷ rest)
      → (sum reads (p' ∷ rest) ≡ m'.readers)
        × (sum writes (p' ∷ rest) ≡ (if m'.writing then 1 else 0))
        × (m'.writing ≡ true → m'.readers ≡ 0)
  Move-lock (win h) i = ground (arith, i.readers, i.writers, i.excluded)
  Move-lock mv i = ground (arith, premise mv, i.readers, i.writers, i.excluded)

  Move-balance :
      {m m' : Shared} {p p' : Task}
      → Move m p m' p'
      → Inv m (p ∷ rest)
      → (o : ℕ)
      → (m'.refs o + sum (owes o) (p' ∷ rest) ≡ one o m'.events + sum (holds o) (p' ∷ rest))
        × (sum (owes o) (p' ∷ rest) ≤ one o m'.events)
  Move-balance (win h) i o = ground (arith, i.balance o, i.covered o)
  Move-balance mv i o =
      ground (arith, premise mv, i.balance o, i.covered o, i.fresh.0, i.writers, owed o rest)

  -- While a writer is in the lock, no other task is.
  alone :
      (m : Shared)
      → (1 + sum writes rest ≡ (if m.writing then 1 else 0))
      → (0 + sum reads rest ≡ m.readers)
      → (m.writing ≡ true → m.readers ≡ 0)
      → (sum reads rest ≡ 0) × (sum writes rest ≡ 0)
  alone m w r x = ground (arith, w, r, x)

  Move-IsFresh :
      {m m' : Shared} {p p' : Task}
      → Move m p m' p'
      → Inv m (p ∷ rest)
      → All (IsFresh m'.events) (p' ∷ rest)
  Move-IsFresh {m = m} forget i =
      let (r, w) = alone m i.writers i.readers i.excluded in (refl, All-outside none rest r w)
  Move-IsFresh {m = m} (store {e = e}) i =
      let (r, w) = alone m i.writers i.readers i.excluded in (refl, All-outside e rest r w)
  Move-IsFresh mv i = (ground (arith, premise mv, i.fresh.0), i.fresh.1)

  pub Move-Inv :
      {m m' : Shared} {p p' : Task} → Move m p m' p' → Inv m (p ∷ rest) → Inv m' (p' ∷ rest)
  Move-Inv mv i =
      let (readers, writers, excluded) = Move-lock mv i in
      record {
        owners = Move-owners mv i;
        readers = readers;
        writers = writers;
        excluded = excluded;
        balance = λ o. (Move-balance mv i o).0;
        covered = λ o. (Move-balance mv i o).1;
        fresh = Move-IsFresh mv i;
      }
