-- ===== src/Refresh.antt =====
-- Delayed refreshes and the registered events object (src/core/Provider.cpp:
-- `RequestCredentialsChangedAsync`, `CredRefreshTimerCallback`, `SetProviderEvents`,
-- `ClearProviderEvents`). Each function is one step; Threads has the same calls with their locks and
-- interlocked operations.
pub mod Stale
pub mod Threads
use dot1xcp.Base.{
  ℕ, zero, suc, Bool, true, false, not, Option, none, some, List, [], ◌∷◌, if◌then◌else◌,
}
use dot1xcp.State.{State, Refresh, is_positive, emit, added_ref, released, credentials_changed}
use dot1xcp.Flags.{is_current}

-- Reference counting of the events object, where there is one.
abbrev pub release_events : Option ℕ → State → State
release_events none s = s
release_events (some o) s = emit (released o) s

abbrev pub add_ref_events : Option ℕ → State → State
add_ref_events none s = s
add_ref_events (some o) s = emit (added_ref o) s

-- `RequestCredentialsChangedAsync`. `allocated` and `created` say whether the context and the timer
-- could be made.
unfoldable pub request_refresh : Bool → Bool → ℕ → ℕ → State → State
request_refresh allocated created delay generation s =
    if s.refresh_pending then s else elim s.events [
      | none ↦ record s { refresh_pending = false }
      | some o ↦
          let s1 = emit (added_ref o) s in
          if not allocated
          then record (emit (released o) s1) { refresh_pending = false }
          else if not created
          then record (emit (released o) s1) { refresh_pending = false }
          else record s1 {
            refresh_pending = true;
            timers =
                record {
                  events = some o;
                  context = s.events_context;
                  generation = if is_positive generation then generation else s.generation;
                  delay = delay;
                }
                ∷ s.timers;
          }
    ]

-- `CredRefreshTimerCallback`, for a context that is no longer among the timers.
unfoldable pub refresh_callback : Refresh → State → State
refresh_callback r s = elim r.events [
  | none ↦ record s { refresh_pending = false }
  | some o ↦
      let s1 = if is_current r.generation s then emit (credentials_changed r.context) s else s in
      record (emit (released o) s1) { refresh_pending = false }
]

-- The thread pool runs the callback of the `i`-th timer, if there is one.
abbrev pub pick : ℕ → List Refresh → Option (Refresh × List Refresh)
pick i [] = none
pick zero (r ∷ rs) = some (r, rs)
pick (suc i) (r ∷ rs) = elim (pick i rs) [ none ↦ none | some (q, qs) ↦ some (q, r ∷ qs) ]

unfoldable pub fire : ℕ → State → State
fire i s = elim (pick i s.timers) [
  | none ↦ s
  | some (r, rest) ↦ refresh_callback r (record s { timers = rest })
]

-- `SetProviderEvents`: the old object is released, the new one is stored and counted.
unfoldable pub set_provider_events : Option ℕ → ℕ → State → State
set_provider_events o context s =
    add_ref_events o (record (release_events s.events s) { events = o; events_context = context })

-- `ClearProviderEvents`
unfoldable pub clear_provider_events : State → State
clear_provider_events s = record (release_events s.events s) { events = none; events_context = 0 }
