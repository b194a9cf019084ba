-- ===== src/Refresh/Threads/Alone.antt =====
-- A request that nothing interrupts does what its function of Refresh says (src/core/Provider.cpp).
use dot1xcp.State.{added_ref, released}
use dot1xcp.Refresh.{request_refresh}
use dot1xcp.Base.{
  ℕ, ◌+◌, ◌-◌, ◌≡◌, refl, sym, ap, subst, ◌∙◌, ◌⊎◌, inl, inr, Bool, true, false, ◌&&◌, Option, none,
  some, ◌∷◌, arith, if◌then◌else◌, Bool-cases, Option-cases, length,
}
use dot1xcp.State.{State, Refresh, is_positive}
use dot1xcp.Broker.Close.{notices}
use dot1xcp.Invariant.Events.{adds, releases}
use dot1xcp.Refresh.Threads.{
  set_timer, lose, give_up, no_memory, release, Shared, Task, add_ref, idle, asked, looking, seen,
  holding, waiting, win, lock_shared, load, count, none_there, unlock_shared, unlock_none, clear,
}
use dot1xcp.Refresh.Threads.Follow.{
  Operation, requests, entered, has_memory, Alone, done, more, after, next,
}

-- The shared variables are those of the state, nobody is in the lock, and the references and the
-- notifications are those that the trace counts.
pub record Agrees (m : Shared) (s : State) : Type 0 where
  pub same_pending : m.pending ≡ s.refresh_pending
  pub same_generation : m.generation ≡ s.generation
  pub same_events : m.events ≡ s.events
  pub same_context : m.context ≡ s.events_context
  pub no_readers : m.readers ≡ 0
  pub no_writer : m.writing ≡ false
  pub counts : (o : ℕ) → m.refs o + releases o s.trace ≡ adds o s.trace
  pub calls : length m.notices ≡ notices s.trace

-- The task has set no timer, or it has set the newest one and waits as its callback.
abbrev pub HasTimer : State → State → Task → Type 0
HasTimer s s' t =
    ((t ≡ idle) × (s'.timers ≡ s.timers))
    ⊎ ((r : Refresh) × (o : ℕ) × (s'.timers ≡ r ∷ s.timers)
        × (r.events ≡ some o)
        × (t ≡ waiting r.generation o r.context))

module _ (call : Operation) (g : ℕ) (m : Shared) (free : m.pending ≡ false)
    (unlocked : m.writing ≡ false) where
  -- Up to the look at the events object.
  looks :
      {m' : Shared} {t : Task} (e : Option ℕ)
      → m.events ≡ e
      → Alone call (record m { pending = true; readers = m.readers + 1 }) (seen g e m.context) m' t
      → Alone call m (asked g) m' t
  looks {m'} {t} e h rest = more (win free) tt (more (lock_shared unlocked) tt (loaded rest))
    where
      loaded :
          Alone call
            (record m { pending = true; readers = m.readers + 1 })
            (seen g e m.context)
            m'
            t
          → Alone call (record m { pending = true; readers = m.readers + 1 }) (looking g) m' t
      loaded r = more load tt (
          subst
            (λ x.
              Alone call (record m { pending = true; readers = m.readers + 1 }) (seen g x m.context)
                m' t)
            (sym h) r)

  request_none :
      m.events ≡ none
      → Alone call m (asked g) (record m { pending = false; readers = m.readers + 1 - 1 }) idle
  request_none e = looks none e (more none_there tt (more unlock_none tt (more clear tt done)))

  request_some :
      (o : ℕ)
      → m.events ≡ some o
      → Alone call m
          (asked g)
          (record m { pending = true; readers = m.readers + 1 - 1; refs = add_ref o m.refs })
          (holding g o m.context)
  request_some o e = looks (some o) e (more count tt (more unlock_shared tt done))

  -- A request that is given up behind `AddRef`.
  gives_up :
      (o : ℕ)
      → m.events ≡ some o
      → has_memory call ≡ false
      → Alone call m
          (asked g)
          (record m {
            pending = false;
            readers = m.readers + 1 - 1;
            refs = release o (add_ref o m.refs);
          })
          idle
  gives_up o e h =
      after (request_some o e) (more no_memory h (more give_up tt (more clear tt done)))

-- Steps of the call that come to an end, and what the end is.
abbrev pub Ends : Operation → Shared → Task → (Shared → Task → Type 0) → Type 0
Ends call m p Good =
    (m' : Shared) × (t : Task) × Alone call m p m' t × (next call m' t ≡ none) × Good m' t

module _ (a b : Bool) (delay g : ℕ) (s : State) where
  busy : s.refresh_pending ≡ true → request_refresh a b delay g s ≡ s
  unfolding request_refresh
  busy p = rw p refl

  nobody :
      s.refresh_pending ≡ false
      → s.events ≡ none
      → request_refresh a b delay g s ≡ record s { refresh_pending = false }
  unfolding request_refresh
  nobody p e = ground (arith, p, e)

  given_back :
      (o : ℕ)
      → s.refresh_pending ≡ false
      → s.events ≡ some o
      → (a && b) ≡ false
      → request_refresh a b delay g s
        ≡ record s { refresh_pending = false; trace = released o ∷ added_ref o ∷ s.trace }
  unfolding request_refresh
  given_back o p e h = ground (arith, p, e, h)

  waits_for :
      (o : ℕ)
      → s.refresh_pending ≡ false
      → s.events ≡ some o
      → (a && b) ≡ true
      → request_refresh a b delay g s ≡ record s {
        refresh_pending = true;
        trace = added_ref o ∷ s.trace;
        timers =
            record {
              events = some o;
              context = s.events_context;
              generation = if is_positive g then g else s.generation;
              delay = delay;
            }
            ∷ s.timers;
      }
  unfolding request_refresh
  waits_for o p e h = ground (arith, p, e, h)

-- The variables agree with a state behind the request, and the task is its timer, if it has one.
abbrev Requested : State → State → Shared → Task → Type 0
Requested s s' m' t = Agrees m' s' × HasTimer s s' t

abbrev Request : Operation → Shared → State → State → Type 0
Request call m s s' = Ends call m (entered call m) (Requested s s')

-- From shared variables that agree with a state, `RequestCredentialsChangedAsync` comes to an end in
-- variables that agree with the state that the function of Refresh gives, with its timer as a waiting
-- task.
pub request_refresh-Ends :
    (a b : Bool) (delay g : ℕ) (m : Shared) (s : State)
    → Agrees m s
    → Request (requests a b delay g) m s (request_refresh a b delay g s)
request_refresh-Ends a b delay g m s c = elim (Bool-cases s.refresh_pending) [
  | inl p ↦
      subst (Request call m s) (sym (busy a b delay g s p))
        (m, idle, more (lose (c.same_pending ∙ p)) tt done, refl, (c, inl (refl, refl)))
  | inr p ↦
      let free = c.same_pending ∙ p in
      elim (Option-cases s.events) [
        | inl e ↦ subst (Request call m s) (sym (nobody a b delay g s p e)) (
          _,
          _,
          request_none call here m free c.no_writer (c.same_events ∙ e),
          refl,
          (
            record {
              same_pending = refl;
              same_generation = c.same_generation;
              same_events = c.same_events;
              same_context = c.same_context;
              no_readers = omega (arith, c.no_readers);
              no_writer = c.no_writer;
              counts = c.counts;
              calls = c.calls;
            },
            inl (refl, refl),
          ),
        )
        | inr (o, e) ↦
            let there = c.same_events ∙ e in
            elim (Bool-cases (a && b)) [
              | inr h ↦ subst (Request call m s) (sym (given_back a b delay g s o p e h)) (
                _,
                _,
                gives_up call here m free c.no_writer o there h,
                refl,
                (
                  record {
                    same_pending = refl;
                    same_generation = c.same_generation;
                    same_events = c.same_events;
                    same_context = c.same_context;
                    no_readers = omega (arith, c.no_readers);
                    no_writer = c.no_writer;
                    counts = λ q. ground (arith, c.counts q);
                    calls = c.calls;
                  },
                  inl (refl, refl),
                ),
              )
              | inl h ↦ subst (Request call m s) (sym (waits_for a b delay g s o p e h)) (
                _,
                _,
                after (request_some call here m free c.no_writer o there) (more set_timer h done),
                refl,
                (
                  record {
                    same_pending = refl;
                    same_generation = c.same_generation;
                    same_events = c.same_events;
                    same_context = c.same_context;
                    no_readers = omega (arith, c.no_readers);
                    no_writer = c.no_writer;
                    counts = λ q. ground (arith, c.counts q);
                    calls = c.calls;
                  },
                  inr (
                    _,
                    o,
                    refl,
                    refl,
                    ap (λ k. waiting (if is_positive g then g else k) o m.context) c.same_generation
                        ∙ ap (waiting (if is_positive g then g else s.generation) o) c.same_context,
                  ),
                ),
              )
            ]
      ]
]
  where
    call : Operation
    call = requests a b delay g

    here : ℕ
    here = if is_positive g then g else m.generation
