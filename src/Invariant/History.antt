-- ===== src/Invariant/History.antt =====
-- What holds after any sequence of calls (src/core/Provider.cpp, src/core/ProviderCore.cpp,
-- src/broker/ProviderBrokerSession.cpp, src/broker/ProviderSerialization.cpp).
use dot1xcp.Base.{ℕ, ◌+◌, ◌≡◌, refl, List, [], ◌∷◌, arith, if◌then◌else◌, length}
use dot1xcp.State.{State, initial}
use dot1xcp.Run.{Call, step, run}
use dot1xcp.Invariant.Session.{Consistent}
use dot1xcp.Invariant.Poll.{Rules}
use dot1xcp.Invariant.Steps.{step-Rules, step-Consistent}
use dot1xcp.Invariant.Handles.{Balanced, Keeps, Keeps-Rules}
use dot1xcp.Invariant.Events.{adds, releases, refs, KeepsEvents, KeepsEvents-Rules}

run-Consistent : (cs : List Call) (s : State) → Consistent s → Consistent (run cs s)
unfolding run
run-Consistent [] s v = v
run-Consistent (c ∷ cs) s v = run-Consistent cs (step c s) (step-Consistent c v)

run-Rules :
    (R : State → State → Type 0)
    → Rules R
    → (cs : List Call) (s : State) → Consistent s
    → R s (run cs s)
unfolding run
run-Rules R rules [] s v = rules.none_changed s
run-Rules R rules (c ∷ cs) s v =
    rules.chain s (step c s) (run cs (step c s)) (step-Rules R rules c s v)
      (run-Rules R rules cs (step c s) (step-Consistent c v))

pub initial-Consistent : Consistent initial
initial-Consistent = record {
  active_is = refl;
  pipe_is = refl;
  process_is = refl;
  thread_is = refl;
}

-- After any sequence of calls the session is active exactly if it is connected, and it holds a pipe, a
-- process handle and a thread handle exactly then.
pub run-initial-Consistent : (cs : List Call) → Consistent (run cs initial)
run-initial-Consistent cs = run-Consistent cs initial initial-Consistent

-- After any sequence of calls, every handle has been closed as often as it was opened, but for the
-- handles that the session still holds: no pipe, process or thread handle is leaked or closed twice.
pub run-initial-Balanced : (cs : List Call) → Balanced (run cs initial)
run-initial-Balanced cs h =
    let k = run-Rules (Keeps h) (Keeps-Rules h) cs initial initial-Consistent in omega (arith, k)

-- After any sequence of calls, an events object has been given back by `Release` as often as it was
-- taken by `AddRef`, but for the reference of the registered object and one for each waiting timer;
-- and a timer waits exactly while a refresh is pending, never more than one.
pub run-initial-events :
    (cs : List Call) (o : ℕ)
    → let s = run cs initial in
      (adds o s.trace ≡ releases o s.trace + refs o s)
      × (length s.timers ≡ (if s.refresh_pending then 1 else 0))
run-initial-events cs o =
    let (k, single) =
      run-Rules (KeepsEvents o) (KeepsEvents-Rules o) cs initial initial-Consistent in
    (omega (arith, k), single refl)
