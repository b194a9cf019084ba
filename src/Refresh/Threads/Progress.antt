-- ===== src/Refresh/Threads/Progress.antt =====
-- That the calls and callbacks under way finish, however they interleave (src/core/Provider.cpp).
use dot1xcp.Base.{
  ℕ, suc, ◌+◌, ◌≤◌, ◌<◌, ◌≡◌, refl, ap, ◌⊎◌, inl, inr, true, false, none, some, List, [], ◌∷◌, ◌++◌,
  arith, ltb, ◌==◌, ==_iff, Bool-cases, Option-cases,
}
use dot1xcp.Refresh.Threads.{
  Shared, Task, Move, System, acts, Reach, later, idle, asked, owner, looking, seen, counted,
  holding, giving_up, clearing, waiting, notifying, releasing, wanting, changing, dropping, emptied,
  stored, leaving, ask, lose, win, lock_shared, load, count, none_there, unlock_shared, unlock_none,
  no_memory, give_up, set_timer, current, stale, notify, give_back, clear, turn, change,
  lock_exclusive, drop, forget, was_none, store, own, nothing, unlock_exclusive,
}
use dot1xcp.Refresh.Threads.Tasks.{sum, sum-insert, sum-le, owns, reads, writes}
use dot1xcp.Invariant.Handles.{one}
use dot1xcp.Refresh.Threads.Moves.{Inv}
use dot1xcp.Refresh.Threads.Safety.{Reach-Inv, Reach-refs}

-- How many steps a task has left at most.
abbrev pub rank : Task → ℕ
rank idle = 0
rank (asked _) = 10
rank (owner _) = 9
rank (looking _) = 8
rank (seen _ _ _) = 7
rank (counted _ _ _) = 6
rank (holding _ _ _) = 5
rank (waiting _ _ _) = 4
rank (notifying _ _) = 3
rank (releasing _) = 2
rank (giving_up _) = 2
rank clearing = 1
rank (wanting _ _) = 6
rank (changing _ _) = 5
rank (dropping _ _ _) = 4
rank (emptied _ _) = 3
rank (stored _) = 2
rank leaving = 1

-- A step of a call that is under way.
pub data Goes (s t : System) : Type 0 where
  goes :
      (xs ys : List Task) {p p' : Task}
      → s.tasks ≡ xs ++ (p ∷ ys)
      → 0 < rank p
      → Move s.shared p t.shared p'
      → t.tasks ≡ xs ++ (p' ∷ ys)
      → Goes s t

-- `n` such steps, one after another.
pub data Runs : ℕ → System → System → Type 0 where
  stays : {s : System} → Runs 0 s s
  goes_on : {n : ℕ} {s t u : System} → Goes s t → Runs n t u → Runs (suc n) s u

pub Move-rank : {m m' : Shared} {p p' : Task} → Move m p m' p' → 0 < rank p → rank p' < rank p
Move-rank (ask g) h = omega (arith, h)
Move-rank (turn g) h = omega (arith, h)
Move-rank (change e c) h = omega (arith, h)
Move-rank (lock_exclusive a b) h = omega arith
Move-rank (lose e) h = omega arith
Move-rank (win e) h = omega arith
Move-rank (lock_shared e) h = omega arith
Move-rank load h = omega arith
Move-rank count h = omega arith
Move-rank none_there h = omega arith
Move-rank unlock_shared h = omega arith
Move-rank unlock_none h = omega arith
Move-rank no_memory h = omega arith
Move-rank give_up h = omega arith
Move-rank set_timer h = omega arith
Move-rank (current e) h = omega arith
Move-rank (stale e) h = omega arith
Move-rank notify h = omega arith
Move-rank give_back h = omega arith
Move-rank clear h = omega arith
Move-rank (drop e) h = omega arith
Move-rank forget h = omega arith
Move-rank (was_none e) h = omega arith
Move-rank store h = omega arith
Move-rank own h = omega arith
Move-rank nothing h = omega arith
Move-rank unlock_exclusive h = omega arith

Goes-rank : {s t : System} → Goes s t → sum rank t.tasks < sum rank s.tasks
Goes-rank {s} {t} (goes xs ys {p} {p'} before h mv behind) = omega (
  arith,
  Move-rank mv h,
  ap (sum rank) before,
  ap (sum rank) behind,
  sum-insert rank xs ys p,
  sum-insert rank xs ys p',
)

Runs-rank : {n : ℕ} {s t : System} → Runs n s t → n + sum rank t.tasks ≤ sum rank s.tasks
Runs-rank stays = omega arith
Runs-rank (goes_on g r) = omega (arith, Goes-rank g, Runs-rank r)

-- Where a task counts for something.
find :
    (w : Task → ℕ) (ts : List Task)
    → 0 < sum w ts
    → (xs ys : List Task) × (t : Task) × (ts ≡ xs ++ (t ∷ ys)) × (0 < w t)
find w [] h = absurd (omega (arith, h))
find w (t ∷ ts) h = elim (Bool-cases (ltb 0 (w t))) [
  | inl e ↦ ([], ts, t, refl, ground (arith, e))
  | inr e ↦
      let (xs, ys, u, is, positive) = find w ts (ground (arith, h, e)) in
      (t ∷ xs, ys, u, ap (λ l. t ∷ l) is, positive)
]

-- A task can move, or it waits for the writer, or for the readers.
abbrev Moves : Shared → Task → Type 0
Moves m t = (m' : Shared) × (t' : Task) × Move m t m' t'

abbrev Waits : Shared → Task → Type 0
Waits m t =
    ((m.writing ≡ true) × (writes t ≡ 0)) ⊎ ((m.writing ≡ false) × (0 < m.readers) × (reads t ≡ 0))

moves : (m : Shared) (t : Task) → 0 < rank t → Moves m t ⊎ Waits m t
moves m idle h = absurd (omega (arith, h))
moves m (wanting e c) h = elim (Bool-cases m.writing) [
  | inl w ↦ inr (inl (w, refl))
  | inr free ↦ elim (Bool-cases (m.readers == 0)) [
    | inl none_in ↦ inl (_, _, lock_exclusive free ((==_iff m.readers 0).0 none_in))
    | inr some_in ↦ inr (inr (free, ground (arith, some_in), refl))
  ]
]
moves m (asked g) h = elim (Bool-cases m.pending) [
  | inl e ↦ inl (_, _, lose e)
  | inr e ↦ inl (_, _, win e)
]
moves m (owner g) h = elim (Bool-cases m.writing) [
  | inl e ↦ inr (inl (e, refl))
  | inr e ↦ inl (_, _, lock_shared e)
]
moves m (looking g) h = inl (_, _, load)
moves m (seen g (some o) c) h = inl (_, _, count)
moves m (seen g none c) h = inl (_, _, none_there)
moves m (counted g (some o) c) h = inl (_, _, unlock_shared)
moves m (counted g none c) h = inl (_, _, unlock_none)
moves m (holding g o c) h = inl (_, _, set_timer)
moves m (giving_up o) h = inl (_, _, give_up)
moves m clearing h = inl (_, _, clear)
moves m (waiting g o c) h = elim (Bool-cases (g == m.generation)) [
  | inl e ↦ inl (_, _, current ((==_iff g m.generation).0 e))
  | inr e ↦ inl (_, _, stale (λ is. ground (arith, e, is)))
]
moves m (notifying o c) h = inl (_, _, notify)
moves m (releasing o) h = inl (_, _, give_back)
moves m (changing e c) h = elim (Option-cases m.events) [
  | inl is ↦ inl (_, _, was_none is)
  | inr (o, is) ↦ inl (_, _, drop is)
]
moves m (dropping e c old) h = inl (_, _, forget)
moves m (emptied e c) h = inl (_, _, store)
moves m (stored (some o)) h = inl (_, _, own)
moves m (stored none) h = inl (_, _, nothing)
moves m leaving h = inl (_, _, unlock_exclusive)

writes-rank : (t : Task) → writes t ≤ rank t
writes-rank t = ground arith

reads-rank : (t : Task) → reads t ≤ rank t
reads-rank t = ground arith

owns-rank : (t : Task) → owns t ≤ rank t
owns-rank t = ground arith

module _ (s : System) where
  -- The task at a place moves.
  moves_at :
      (xs ys : List Task) (t : Task)
      → s.tasks ≡ xs ++ (t ∷ ys)
      → 0 < rank t
      → Moves s.shared t
      → (u : System) × Goes s u
  moves_at xs ys t is h (m', t', mv) =
      (record { shared = m'; tasks = xs ++ (t' ∷ ys) }, goes xs ys is h mv refl)

  -- In the exclusive lock there is a task that can move.
  writer_moves : Inv s.shared s.tasks → s.shared.writing ≡ true → (u : System) × Goes s u
  writer_moves i writing =
      let (xs, ys, t, is, h) = find writes s.tasks (ground (arith, i.writers, writing)) in
      let busy : 0 < rank t = omega (arith, h, writes-rank t) in
      elim (moves s.shared t busy) [
        | inl mv ↦ moves_at xs ys t is busy mv
        | inr (inl (w, no_writer)) ↦ absurd (omega (arith, h, no_writer))
        | inr (inr (free, inside, no_reader)) ↦ absurd (ground (arith, writing, free))
      ]

  -- And so there is in the shared one.
  reader_moves :
      Inv s.shared s.tasks
      → s.shared.writing ≡ false
      → 0 < s.shared.readers
      → (u : System) × Goes s u
  reader_moves i free inside =
      let (xs, ys, t, is, h) = find reads s.tasks (omega (arith, i.readers, inside)) in
      let busy : 0 < rank t = omega (arith, h, reads-rank t) in
      elim (moves s.shared t busy) [
        | inl mv ↦ moves_at xs ys t is busy mv
        | inr (inl (writing, no_writer)) ↦ absurd (ground (arith, writing, free))
        | inr (inr (f, r, no_reader)) ↦ absurd (omega (arith, h, no_reader))
      ]

  Inv-Goes : Inv s.shared s.tasks → 0 < sum rank s.tasks → (u : System) × Goes s u
  Inv-Goes i h =
      let (xs, ys, t, is, busy) = find rank s.tasks h in
      elim (moves s.shared t busy) [
        | inl mv ↦ moves_at xs ys t is busy mv
        | inr (inl (writing, no_writer)) ↦ writer_moves i writing
        | inr (inr (free, inside, no_reader)) ↦ reader_moves i free inside
      ]

Runs-Reach : {n : ℕ} {s t : System} → Runs n s t → Reach s → Reach t
Runs-Reach stays r = r
Runs-Reach (goes_on (goes xs ys before h mv behind) rest) r =
    Runs-Reach rest (later r (acts xs ys before mv behind))

-- No request, callback or change is under way, or waits for a lock; the lock is free; no refresh is
-- pending; and the registered object is the only one with a reference.
abbrev pub IsQuiet : System → Type 0
IsQuiet s =
    (sum rank s.tasks ≡ 0)
    × (s.shared.readers ≡ 0)
    × (s.shared.writing ≡ false)
    × (s.shared.pending ≡ false)
    × ((o : ℕ) → s.shared.refs o ≡ one o s.shared.events)

quiet : {s : System} → Reach s → sum rank s.tasks ≡ 0 → IsQuiet s
quiet {s} r h =
    let i = Reach-Inv r in
    let no_writer : sum writes s.tasks ≡ 0 =
      omega (arith, h, sum-le writes rank writes-rank s.tasks) in
    let (no_refresh, refs) =
      Reach-refs r (omega (arith, h, sum-le owns rank owns-rank s.tasks)) no_writer in
    (
      h,
      omega (arith, h, i.readers, sum-le reads rank reads-rank s.tasks),
      ground (arith, i.writers, no_writer),
      no_refresh,
      refs,
    )

-- However the calls and callbacks under way interleave, from a state that can be reached and with no new
-- call: they take at most as many steps as they have left together; as long as one of them is under way,
-- which includes a thread that waits for `g_cpEventsLock` in either mode, one of them can take a step;
-- and where none is, the lock is free, no refresh is pending, and the registered events object is the
-- only one with a reference.
pub Runs-IsQuiet :
    {n : ℕ} {s t : System}
    → Reach s
    → Runs n s t
    → (n ≤ sum rank s.tasks) × (IsQuiet t ⊎ ((u : System) × Goes t u))
Runs-IsQuiet {n} {s} {t} r runs =
    let reached = Runs-Reach runs r in
    (
      omega (arith, Runs-rank runs),
      elim (Bool-cases (sum rank t.tasks == 0)) [
        | inl e ↦ inl (quiet reached (ground (arith, e)))
        | inr e ↦ inr (Inv-Goes t (Reach-Inv reached) (ground (arith, e)))
      ],
    )
