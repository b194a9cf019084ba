-- ===== src/Refresh/Threads/Tasks.antt =====
-- What a task of src/core/Provider.cpp holds of the shared variables, summed over all tasks.
use dot1xcp.Base.{ℕ, ◌+◌, ◌≤◌, ◌≡◌, refl, Option, none, some, List, [], ◌∷◌, ◌++◌, arith, All}
use dot1xcp.Invariant.Handles.{same, one}
use dot1xcp.Refresh.Threads.{
  Task, idle, asked, looking, seen, counted, holding, giving_up, waiting, notifying, releasing,
  wanting, changing, dropping, emptied, stored, leaving,
}

abbrev pub sum : (Task → ℕ) → List Task → ℕ
sum w [] = 0
sum w (t ∷ ts) = w t + sum w ts

pub sum-insert :
    (w : Task → ℕ) (xs ys : List Task) (t : Task) → sum w (xs ++ (t ∷ ys)) ≡ w t + sum w (xs ++ ys)
sum-insert w [] ys t = refl
sum-insert w (x ∷ xs) ys t = omega (arith, sum-insert w xs ys t)

pub sum-le : (v w : Task → ℕ) → ((t : Task) → v t ≤ w t) → (ts : List Task) → sum v ts ≤ sum w ts
sum-le v w h [] = omega arith
sum-le v w h (t ∷ ts) = omega (arith, h t, sum-le v w h ts)

module _ {ℓ} (P : Task → Type ℓ) where
  pub All-take : (xs ys : List Task) {t : Task} → All P (xs ++ (t ∷ ys)) → P t × All P (xs ++ ys)
  All-take [] ys h = h
  All-take (x ∷ xs) ys h = let (p, rest) = All-take xs ys h.1 in (p, (h.0, rest))

  pub All-put : (xs ys : List Task) {t : Task} → P t → All P (xs ++ ys) → All P (xs ++ (t ∷ ys))
  All-put [] ys p h = (p, h)
  All-put (x ∷ xs) ys p h = (h.0, All-put xs ys p h.1)

-- The task has won `g_refreshPending` and not given it up.
abbrev pub owns : Task → ℕ
owns idle = 0
owns (asked _) = 0
owns (wanting _ _) = 0
owns (changing _ _) = 0
owns (dropping _ _ _) = 0
owns (emptied _ _) = 0
owns (stored _) = 0
owns leaving = 0
owns _ = 1

-- It is in the shared lock, or in the exclusive one.
abbrev pub reads : Task → ℕ
reads (looking _) = 1
reads (seen _ _ _) = 1
reads (counted _ _ _) = 1
reads _ = 0

abbrev pub writes : Task → ℕ
writes (changing _ _) = 1
writes (dropping _ _ _) = 1
writes (emptied _ _) = 1
writes (stored _) = 1
writes leaving = 1
writes _ = 0

-- It has to give back a reference to `o`.
abbrev pub holds : ℕ → Task → ℕ
holds o (counted _ e _) = one o e
holds o (holding _ p _) = same o p
holds o (giving_up p) = same o p
holds o (waiting _ p _) = same o p
holds o (notifying p _) = same o p
holds o (releasing p) = same o p
holds o _ = 0

-- `g_cpEvents` names `o`, but this task has given the reference back or has not taken it yet.
abbrev pub owes : ℕ → Task → ℕ
owes o (dropping _ _ old) = same o old
owes o (stored e) = one o e
owes o _ = 0

-- What the locals of a task say about `g_cpEvents`.
abbrev pub IsFresh : Option ℕ → Task → Type 0
IsFresh events (seen _ e _) = events ≡ e
IsFresh events (dropping _ _ old) = events ≡ some old
IsFresh events (emptied _ _) = events ≡ none
IsFresh events (stored e) = events ≡ e
IsFresh events _ = Unit

IsFresh-outside : (e : Option ℕ) (t : Task) → reads t ≡ 0 → writes t ≡ 0 → IsFresh e t
IsFresh-outside e t r w = ground arith

-- Nobody in the lock says anything about it.
pub All-outside :
    (e : Option ℕ) (ts : List Task) → sum reads ts ≡ 0 → sum writes ts ≡ 0 → All (IsFresh e) ts
All-outside e [] r w = tt
All-outside e (t ∷ ts) r w =
    (IsFresh-outside e t (omega arith) (omega arith), All-outside e ts (omega arith) (omega arith))

pub owes-writes : (o : ℕ) (t : Task) → owes o t ≤ writes t
owes-writes o t = ground arith
