-- ===== src/Refresh/Threads/Follow.antt =====
-- The steps of one call while no other moves (src/core/Provider.cpp).
use dot1xcp.Base.{
  ℕ, suc, ◌+◌, ◌-◌, ◌≤◌, ◌<◌, ◌≡◌, refl, sym, subst, ◌∙◌, Bool, true, false, ◌&&◌, Option, none,
  some, ◌∷◌, arith, ◌==◌, if◌then◌else◌, some-eq-some,
}
use dot1xcp.State.{Refresh, is_positive}
use dot1xcp.Refresh.Threads.{
  Shared, Task, Move, add_ref, release, idle, asked, owner, looking, seen, counted, holding,
  giving_up, clearing, waiting, notifying, releasing, wanting, changing, dropping, emptied, stored,
  leaving, ask, turn, change, no_memory, set_timer, current, stale, drop, was_none, win, lose,
}
use dot1xcp.Refresh.Threads.Progress.{rank, Move-rank}

-- A call, or a callback that holds a reference to `o`.
pub data Operation : Type 0 where
  requests : (allocated created : Bool) (delay g : ℕ) → Operation
  fires : (r : Refresh) (o : ℕ) → Operation
  sets : (e : Option ℕ) (context : ℕ) → Operation
  clears : Operation

-- Where it stands behind its first step, `ask` or `change`; a callback is in the thread pool.
abbrev pub entered : Operation → Shared → Task
entered (requests a b delay g) m = asked (if is_positive g then g else m.generation)
entered (fires r o) m = waiting r.generation o r.context
entered (sets e context) m = wanting e context
entered clears m = wanting none 0

-- That the first step is one.
abbrev pub Begins : Operation → Shared → Type 0
Begins (fires r o) m = Unit
Begins call m = Move m idle m (entered call m)

pub begins : (call : Operation) (m : Shared) → Begins call m
begins (requests a b delay g) m = ask g
begins (fires r o) m = tt
begins (sets e context) m = change e context
begins clears m = change none 0

-- Whether its allocations succeed, and whether it is the callback of a timer.
abbrev pub has_memory : Operation → Bool
has_memory (requests a b delay g) = a && b
has_memory _ = true

abbrev pub calls_back : Operation → Bool
calls_back (fires r o) = true
calls_back _ = false

-- A step that belongs to the call: it starts no other one, it has memory or not, as the call has, and it
-- does not run the callback of a timer that the call has set.
abbrev pub Follows : Operation → {m m' : Shared} {p p' : Task} → Move m p m' p' → Type 0
Follows call (ask g) = ⊥
Follows call (turn g) = ⊥
Follows call (change e c) = ⊥
Follows call no_memory = has_memory call ≡ false
Follows call set_timer = has_memory call ≡ true
Follows call (current e) = calls_back call ≡ true
Follows call (stale e) = calls_back call ≡ true
Follows call mv = Unit

-- Any sequence of such steps, while no other task moves.
pub data Alone (call : Operation) : Shared → Task → Shared → Task → Type 0 where
  done : {m : Shared} {p : Task} → Alone call m p m p
  more :
      {m m' m'' : Shared} {p p' p'' : Task}
      → (mv : Move m p m' p') → Follows call mv
      → Alone call m' p' m'' p''
      → Alone call m p m'' p''

pub after :
    {call : Operation} {m m' m'' : Shared} {p p' p'' : Task}
    → Alone call m p m' p'
    → Alone call m' p' m'' p''
    → Alone call m p m'' p''
after done b = b
after (more mv f a) b = more mv f (after a b)

-- The call can take one step more.
abbrev pub GoesOn : Operation → Shared → Task → Type 0
GoesOn call m p = (m' : Shared) × (p' : Task) × (mv : Move m p m' p') × Follows call mv

abbrev pub steps : {call : Operation} {m m' : Shared} {p p' : Task} → Alone call m p m' p' → ℕ
steps done = 0
steps (more mv f rest) = suc (steps rest)

Follows-busy :
    (call : Operation) {m m' : Shared} {p p' : Task} (mv : Move m p m' p')
    → Follows call mv
    → 0 < rank p
Follows-busy call (ask g) f = absurd f
Follows-busy call (turn g) f = absurd f
Follows-busy call (change e c) f = absurd f
Follows-busy call mv f = omega arith

pub steps-rank :
    {call : Operation} {m m' : Shared} {p p' : Task} (run : Alone call m p m' p')
    → steps run + rank p' ≤ rank p
steps-rank done = omega arith
steps-rank {call} (more mv f rest) =
    omega (arith, steps-rank rest, Move-rank mv (Follows-busy call mv f))

-- The step that follows: there is one at most.
abbrev pub next : Operation → Shared → Task → Option (Shared × Task)
next call m idle = none
next call m (asked g) =
    if m.pending then some (m, idle) else some (record m { pending = true }, owner g)
next call m (owner g) = some (record m { readers = m.readers + 1 }, looking g)
next call m (looking g) = some (m, seen g m.events m.context)
next call m (seen g none c) = some (m, counted g none c)
next call m (seen g (some o) c) = some (record m { refs = add_ref o m.refs }, counted g (some o) c)
next call m (counted g none c) = some (record m { readers = m.readers - 1 }, clearing)
next call m (counted g (some o) c) = some (record m { readers = m.readers - 1 }, holding g o c)
next call m (holding g o c) =
    if has_memory call then some (m, waiting g o c) else some (m, giving_up o)
next call m (giving_up o) = some (record m { refs = release o m.refs }, clearing)
next call m clearing = some (record m { pending = false }, idle)
next call m (waiting g o c) =
    if calls_back call
    then if g == m.generation then some (m, notifying o c) else some (m, releasing o)
    else none
next call m (notifying o c) = some (record m { notices = (o, c) ∷ m.notices }, releasing o)
next call m (releasing o) = some (record m { refs = release o m.refs }, clearing)
next call m (wanting e c) = some (record m { writing = true }, changing e c)
next call m (changing e c) = elim m.events [
  | none ↦ some (m, emptied e c)
  | some old ↦ some (record m { refs = release old m.refs }, dropping e c old)
]
next call m (dropping e c old) = some (record m { events = none }, emptied e c)
next call m (emptied e c) = some (record m { events = e; context = c }, stored e)
next call m (stored none) = some (m, leaving)
next call m (stored (some o)) = some (record m { refs = add_ref o m.refs }, leaving)
next call m leaving = some (record m { writing = false }, idle)

Follows-next :
    (call : Operation) {m m' : Shared} {p p' : Task} (mv : Move m p m' p')
    → Follows call mv
    → next call m p ≡ some (m', p')
Follows-next call (ask g) f = absurd f
Follows-next call (turn g) f = absurd f
Follows-next call (change e c) f = absurd f
Follows-next call (lose h) f = rw h refl
Follows-next call (win h) f = rw h refl
Follows-next call no_memory f = rw f refl
Follows-next call set_timer f = rw f refl
Follows-next call (current h) f = ground (arith, h, f)
Follows-next call (stale h) f = ground (arith, h, f)
Follows-next call (drop h) f = rw h refl
Follows-next call (was_none h) f = rw h refl
Follows-next call mv f = refl

-- Two runs from the same place are one the beginning of the other; so any run is the beginning of one
-- that has no further step.
pub ahead :
    {call : Operation} {m m' m'' : Shared} {p p' p'' : Task}
    → Alone call m p m' p'
    → Alone call m p m'' p''
    → next call m'' p'' ≡ none
    → Alone call m' p' m'' p''
ahead done whole over = whole
ahead {call} (more mv f rest) done over = cc (sym over ∙ Follows-next call mv f)
ahead {call} {m'' = m''} {p'' = p''} (more mv f rest) (more mv' f' rest') over =
    let same = some-eq-some (sym (Follows-next call mv' f') ∙ Follows-next call mv f) in
    ahead rest (subst (λ q. Alone call q.0 q.1 m'' p'') same rest') over
