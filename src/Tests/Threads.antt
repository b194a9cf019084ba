-- ===== src/Tests/Threads.antt =====
-- The theorems on interleaved refreshes, at a system that registers an events object and requests a
-- refresh.
use dot1xcp.Base.{◌≤◌, ◌<◌, ◌≡◌, refl, ◌⊎◌, true, some, [], ◌∷◌, arith}
use dot1xcp.State.{State, initial, added_ref}
use dot1xcp.Refresh.Threads.Alone.{Agrees}
use dot1xcp.Refresh.Threads.Calls.{IsDone, operation-Alone}
use dot1xcp.Refresh.Threads.Follow.{
  Operation, requests, entered, Begins, Alone, done, more, steps, GoesOn,
}
use dot1xcp.Refresh.Threads.{
  change, waiting, releasing, looking, add_ref, release, Shared, Task, Move, System, start, Reach,
  begin, later, acts, joins, idle, notifying, ask, win, lock_shared, load, count, unlock_shared,
  set_timer, current, lock_exclusive, was_none, store, own, unlock_exclusive, notify, give_back,
  clear,
}
use dot1xcp.Refresh.Threads.Tasks.{sum, owns}
use dot1xcp.Refresh.Threads.Progress.{rank, Goes, goes, Runs, stays, goes_on, IsQuiet, Runs-IsQuiet}
use dot1xcp.Refresh.Threads.Safety.{Reach-IsAlive, Reach-single}

abbrev alone : Shared → Task → System
alone m t = record { shared = m; tasks = t ∷ [] }

and_then : {m m' : Shared} {p p' : Task} → Reach (alone m p) → Move m p m' p' → Reach (alone m' p')
and_then r mv = later r (acts [] [] refl mv refl)

one_thread : Reach (alone start.shared idle)
one_thread = later begin (joins refl refl)

abbrev registered : Shared
registered = record start.shared { events = some 9; context = 4; refs = add_ref 9 (λ p. 0) }

registers : Reach (alone registered idle)
registers =
    and_then
      (and_then
        (and_then
          (and_then (and_then (and_then one_thread (change (some 9) 4)) (lock_exclusive refl refl))
            (was_none refl))
          store)
        own)
      unlock_exclusive

abbrev ready : Shared
ready = record registered { pending = true; refs = add_ref 9 registered.refs }

asks_for : Reach (alone (record registered { pending = true; readers = 1 }) (looking 1))
asks_for = and_then (and_then (and_then registers (ask 0)) (win refl)) (lock_shared refl)

notifies : Reach (alone ready (notifying 9 4))
notifies =
    and_then (and_then (and_then (and_then (and_then asks_for load) count) unlock_shared) set_timer)
      (current refl)

refreshed :
    Reach (alone (record registered { notices = (9, 4) ∷ []; refs = release 9 ready.refs }) idle)
refreshed = and_then (and_then (and_then notifies notify) give_back) clear

Reach-IsAlive_example : 0 < ready.refs 9
Reach-IsAlive_example = Reach-IsAlive [] [] (notifying 9 4) notifies refl

Reach-single_example : (ready.pending ≡ true) × (sum owns [] ≡ 0)
Reach-single_example = Reach-single [] [] (notifying 9 4) notifies refl refl

abbrev calling : System
calling = alone ready (notifying 9 4)

abbrev called : System
called = alone (record ready { notices = (9, 4) ∷ [] }) (releasing 9)

calls_back : Runs 1 calling called
calls_back = goes_on (goes [] [] refl (omega arith) notify refl) stays

Runs-IsQuiet_example :
    (1 ≤ sum rank calling.tasks) × (IsQuiet called ⊎ ((u : System) × Goes called u))
Runs-IsQuiet_example = Runs-IsQuiet notifies calls_back

abbrev registered_state : State
registered_state = record initial { events = some 9; events_context = 4; trace = added_ref 9 ∷ [] }

agree : Agrees registered registered_state
agree = record {
  same_pending = refl;
  same_generation = refl;
  same_events = refl;
  same_context = refl;
  no_readers = refl;
  no_writer = refl;
  counts = λ o. ground arith;
  calls = refl;
}

abbrev request : Operation
request = requests true true 300 1

-- The whole of such a request.
abbrev set : Shared
set = record registered { pending = true; readers = 0; refs = add_ref 9 registered.refs }

abbrev whole : Alone request registered (entered request registered) set (waiting 1 9 4)
whole = more (win refl) tt (
    more (lock_shared refl) tt
      (more load tt (more count tt (more unlock_shared tt (more set_timer refl done)))))

operation-Alone_example :
    Begins request registered
    × (steps whole ≤ rank (entered request registered))
    × (IsDone request registered_state set (waiting 1 9 4) ⊎ GoesOn request set (waiting 1 9 4))
operation-Alone_example =
    operation-Alone request registered set registered_state (waiting 1 9 4) agree
      (λ o. ground arith) whole
