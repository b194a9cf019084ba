-- ===== src/Refresh/Threads/Calls.antt =====
-- Callbacks, changes of the events object and requests that nothing interrupts (src/core/Provider.cpp).
use dot1xcp.Refresh.{clear_provider_events}
use dot1xcp.State.{Trace}
use dot1xcp.Refresh.{add_ref_events, release_events}
use dot1xcp.State.{credentials_changed}
use dot1xcp.Refresh.{refresh_callback, set_provider_events}
use dot1xcp.Refresh.Threads.{
  changing, current, stale, notify, give_back, lock_exclusive, drop, forget, was_none, store, own,
  nothing, unlock_exclusive,
}
use dot1xcp.Refresh.Threads.Tasks.{holds}
use dot1xcp.Invariant.Handles.{one}
use dot1xcp.State.{added_ref, released}
use dot1xcp.Refresh.{request_refresh}
use dot1xcp.Base.{
  ◌⊎◌, ℕ, suc, ◌+◌, ◌≤◌, ◌≡◌, refl, sym, ap, subst, ◌∙◌, ◌≢◌, inl, inr, true, false, Option, none,
  some, ◌∷◌, arith, ◌==◌, ==_iff, Bool-cases,
}
use dot1xcp.State.{State, Refresh}
use dot1xcp.Broker.Close.{notices}
use dot1xcp.Invariant.Events.{adds, releases}
use dot1xcp.Refresh.Threads.{wanting, release, Shared, Task, add_ref, idle, waiting, clear}
use dot1xcp.Refresh.Threads.Alone.{Agrees, HasTimer, Ends, request_refresh-Ends}
use dot1xcp.Refresh.Threads.Progress.{rank}
use dot1xcp.Refresh.Threads.Follow.{
  Operation, requests, fires, sets, clears, entered, Begins, begins, Alone, done, more, steps,
  steps-rank, GoesOn, ahead,
}

-- The registered object, and the one that the task holds, have their references.
abbrev pub IsCovered : Shared → Task → Type 0
IsCovered m t = (o : ℕ) → one o m.events + holds o t ≤ m.refs o

current_notice :
    (r : Refresh) (o : ℕ) (s : State)
    → r.generation ≡ s.generation
    → refresh_callback (record r { events = some o }) s ≡ record s {
      refresh_pending = false;
      trace = released o ∷ credentials_changed r.context ∷ s.trace;
    }
unfolding refresh_callback
current_notice r o s h = ground (arith, h)

stale_notice :
    (r : Refresh) (o : ℕ) (s : State)
    → r.generation ≢ s.generation
    → refresh_callback (record r { events = some o }) s
      ≡ record s { refresh_pending = false; trace = released o ∷ s.trace }
unfolding refresh_callback
stale_notice r o s h = ground (arith, h)

-- Steps of a call that come to its end, in variables that agree with a state.
abbrev Comes : Operation → Shared → Task → State → Type 0
Comes call m t s' = Ends call m t (λ m' t'. Agrees m' s' × (t' ≡ idle))

-- `CredRefreshTimerCallback` does, without an interruption, what its function does.
refresh_callback-Ends :
    (r : Refresh) (o : ℕ) (m : Shared) (s : State)
    → Agrees m s
    → IsCovered m (waiting r.generation o r.context)
    → Comes
        (fires r o)
        m
        (waiting r.generation o r.context)
        (refresh_callback (record r { events = some o }) s)
refresh_callback-Ends r o m s c covered = elim (Bool-cases (r.generation == m.generation)) [
  | inl e ↦
      let is = (==_iff r.generation m.generation).0 e in
      subst (Comes (fires r o) m (waiting r.generation o r.context))
        (sym (current_notice r o s (is ∙ c.same_generation)))
        (
          _,
          idle,
          more (current is) refl (more notify tt (more give_back tt (more clear tt done))),
          refl,
          (
            record {
              same_pending = refl;
              same_generation = c.same_generation;
              same_events = c.same_events;
              same_context = c.same_context;
              no_readers = c.no_readers;
              no_writer = c.no_writer;
              counts = λ q. ground (arith, c.counts q, covered q);
              calls = ap suc c.calls;
            },
            refl,
          ),
        )
  | inr e ↦
      let other : r.generation ≢ m.generation = λ is. ground (arith, e, is) in
      subst (Comes (fires r o) m (waiting r.generation o r.context))
        (sym (stale_notice r o s (λ is. other (is ∙ sym c.same_generation))))
        (
          _,
          idle,
          more (stale other) refl (more give_back tt (more clear tt done)),
          refl,
          (
            record {
              same_pending = refl;
              same_generation = c.same_generation;
              same_events = c.same_events;
              same_context = c.same_context;
              no_readers = c.no_readers;
              no_writer = c.no_writer;
              counts = λ q. ground (arith, c.counts q, covered q);
              calls = c.calls;
            },
            refl,
          ),
        )
]

-- The variables behind a change.
sets-Agrees :
    (e : Option ℕ) (context : ℕ) (refs : ℕ → ℕ) (trace : Trace) (m : Shared) (s : State)
    → Agrees m s
    → ((q : ℕ) → refs q + releases q trace ≡ adds q trace)
    → notices trace ≡ notices s.trace
    → Agrees
        (record m { events = e; context = context; writing = false; refs = refs })
        (record s { events = e; events_context = context; trace = trace })
sets-Agrees e context refs trace m s c counted silent = record {
  same_pending = c.same_pending;
  same_generation = c.same_generation;
  same_events = refl;
  same_context = refl;
  no_readers = c.no_readers;
  no_writer = refl;
  counts = counted;
  calls = c.calls ∙ sym silent;
}

module _ (call : Operation) (context : ℕ) (m : Shared) (s : State) (c : Agrees m s)
    (covered : IsCovered m idle) where
  enters :
      {m' : Shared} {t : Task} (e : Option ℕ)
      → Alone call (record m { writing = true }) (changing e context) m' t
      → Alone call m (wanting e context) m' t
  enters e rest = more (lock_exclusive c.no_writer c.no_readers) tt rest

  changes :
      (e old : Option ℕ)
      → m.events ≡ old
      → Comes call m (wanting e context) (
          add_ref_events e (record (release_events old s) { events = e; events_context = context }))
  changes none none h = (
    _,
    idle,
    enters none
        (more (was_none h) tt (more store tt (more nothing tt (more unlock_exclusive tt done)))),
    refl,
    (sets-Agrees none context m.refs s.trace m s c c.counts refl, refl),
  )
  changes (some o) none h = (
    _,
    idle,
    enters (some o)
        (more (was_none h) tt (more store tt (more own tt (more unlock_exclusive tt done)))),
    refl,
    (
      sets-Agrees (some o) context (add_ref o m.refs) (added_ref o ∷ s.trace) m s c
          (λ q. ground (arith, c.counts q)) refl,
      refl,
    ),
  )
  changes none (some p) h = (
    _,
    idle,
    enters none (
        more (drop h) tt
          (more forget tt (more store tt (more nothing tt (more unlock_exclusive tt done))))),
    refl,
    (
      sets-Agrees none context (release p m.refs) (released p ∷ s.trace) m s c
          (λ q. ground (arith, c.counts q, covered q, h)) refl,
      refl,
    ),
  )
  changes (some o) (some p) h = (
    _,
    idle,
    enters (some o) (
        more (drop h) tt
          (more forget tt (more store tt (more own tt (more unlock_exclusive tt done))))),
    refl,
    (
      sets-Agrees (some o) context (add_ref o (release p m.refs))
          (added_ref o ∷ released p ∷ s.trace) m s c (λ q. ground (arith, c.counts q, covered q, h))
          refl,
      refl,
    ),
  )

-- `SetProviderEvents` does, without an interruption, what its function does.
set_provider_events-Ends :
    (call : Operation) (e : Option ℕ) (context : ℕ) (m : Shared) (s : State)
    → Agrees m s
    → IsCovered m idle
    → Comes call m (wanting e context) (set_provider_events e context s)
unfolding set_provider_events
set_provider_events-Ends call e context m s c covered =
    changes call context m s c covered e s.events c.same_events

-- The state behind a call, by its function.
abbrev pub result : Operation → State → State
result (requests a b delay g) s = request_refresh a b delay g s
result (fires r o) s = refresh_callback (record r { events = some o }) s
result (sets e context) s = set_provider_events e context s
result clears s = clear_provider_events s

-- Only a request may leave a timer.
abbrev pub IsLeft : Operation → State → Task → Type 0
IsLeft (requests a b delay g) s t = HasTimer s (request_refresh a b delay g s) t
IsLeft call s t = t ≡ idle

-- The variables agree with the state that the function of the call gives, and so does the task.
abbrev pub IsDone : Operation → State → Shared → Task → Type 0
IsDone call s m t = Agrees m (result call s) × IsLeft call s t

operation-Ends :
    (call : Operation) (m : Shared) (s : State)
    → Agrees m s
    → IsCovered m (entered call m)
    → Ends call m (entered call m) (IsDone call s)
unfolding clear_provider_events set_provider_events
operation-Ends (requests a b delay g) m s c covered = request_refresh-Ends a b delay g m s c
operation-Ends (fires r o) m s c covered = refresh_callback-Ends r o m s c covered
operation-Ends (sets e context) m s c covered =
    set_provider_events-Ends (sets e context) e context m s c covered
operation-Ends clears m s c covered = set_provider_events-Ends clears none 0 m s c covered

-- A run that is the beginning of one that ends has come to the end, or goes on.
ends_or_goes :
    (call : Operation) (Good : Shared → Task → Type 0) {m m' : Shared} {p p' : Task}
    → Alone call m p m' p'
    → Good m' p'
    → Good m p ⊎ GoesOn call m p
ends_or_goes call Good done good = inl good
ends_or_goes call Good (more mv f rest) good = inr (_, _, mv, f)

-- The two models of these calls agree. From shared variables that agree with a state, with the references
-- that the registered object and the callback rely on, whatever allocations succeed, and while no other
-- task moves: a call begins with one step, unless it is a callback; any sequence of steps that it then
-- takes is no longer than its rank; and it can go on, or it has come to variables that agree with the
-- state that its function gives, with the timer of a request as a waiting task.
pub operation-Alone :
    (call : Operation) (m m' : Shared) (s : State) (t : Task)
    → Agrees m s
    → IsCovered m (entered call m)
    → (run : Alone call m (entered call m) m' t)
    → Begins call m × (steps run ≤ rank (entered call m)) × (IsDone call s m' t ⊎ GoesOn call m' t)
operation-Alone call m m' s t c covered run =
    let (m'', t', whole, over, good) = operation-Ends call m s c covered in
    (
      begins call m,
      omega (arith, steps-rank run),
      ends_or_goes call (IsDone call s) (ahead run whole over) good,
    )
