-- ===== src/Refresh/Threads.antt =====
-- Refreshes as they interleave (src/core/Provider.cpp: `RequestCredentialsChangedAsync`,
-- `CredRefreshTimerCallback`, `SetProviderEvents`, `ClearProviderEvents`): calls on any number of
-- threads and callbacks on the thread pool, one access to shared memory at a time.
pub mod Tasks
pub mod Moves
pub mod Safety
pub mod Progress
pub mod Follow
pub mod Alone
pub mod Calls
use dot1xcp.Base.{
  ℕ, ◌+◌, ◌-◌, ◌≡◌, ◌≢◌, Bool, true, false, Option, none, some, List, [], ◌∷◌, ◌++◌, ◌==◌,
  if◌then◌else◌,
}
use dot1xcp.State.{is_positive}

-- The shared variables: `g_refreshPending`, `g_brokerSessionGeneration`, `g_cpEvents` and
-- `g_cpEventsContext`; `g_cpEventsLock` as its number of readers and whether a writer has it; how many
-- references to each events object this program has taken and not given back; and the calls of
-- `CredentialsChanged`, the newest first.
pub record Shared : Type 0 where
  pub pending : Bool
  pub generation : ℕ
  pub events : Option ℕ
  pub context : ℕ
  pub readers : ℕ
  pub writing : Bool
  pub refs : ℕ → ℕ
  pub notices : List (ℕ × ℕ)

-- `AddRef` and `Release` of `o`
abbrev pub add_ref : ℕ → (ℕ → ℕ) → ℕ → ℕ
add_ref o f p = if o == p then f p + 1 else f p

abbrev pub release : ℕ → (ℕ → ℕ) → ℕ → ℕ
release o f p = if o == p then f p - 1 else f p

-- Where a call stands, with the local variables that are live there. A request that sets a timer lives
-- on as the callback of that timer.
pub data Task : Type 0 where
  idle : Task
  asked : (g : ℕ) → Task  -- before the compare-exchange of `g_refreshPending`
  owner : (g : ℕ) → Task  -- behind it, before the lock
  looking : (g : ℕ) → Task  -- in the shared lock
  seen : (g : ℕ) (e : Option ℕ) (c : ℕ) → Task  -- before `AddRef`
  counted : (g : ℕ) (e : Option ℕ) (c : ℕ) → Task  -- before the lock is released
  holding : (g o c : ℕ) → Task  -- before the allocations
  giving_up : (o : ℕ) → Task  -- an allocation failed; before `Release`
  clearing : Task  -- before `g_refreshPending` is set to 0
  waiting : (g o c : ℕ) → Task  -- the timer is set
  notifying : (o c : ℕ) → Task  -- in the callback, before `CredentialsChanged`
  releasing : (o : ℕ) → Task  -- in the callback, before `Release`
  wanting : (e : Option ℕ) (c : ℕ) → Task  -- `SetProviderEvents(e, c)`, before the exclusive lock
  changing : (e : Option ℕ) (c : ℕ) → Task  -- in the exclusive lock
  dropping : (e : Option ℕ) (c old : ℕ) → Task  -- behind `Release` of the old object
  emptied : (e : Option ℕ) (c : ℕ) → Task  -- behind `g_cpEvents = nullptr`
  stored : (e : Option ℕ) → Task  -- behind the two stores, before `AddRef`
  leaving : Task  -- before the exclusive lock is released

-- One step of one call. A lock is granted in any order to those who can have it; until then the task
-- stays before it, as `owner` or `wanting`. The two loads of a reader are one step, and so are the two
-- stores of a writer: both are made in the lock. Which call an idle thread makes next, and whether an
-- allocation succeeds, is left open; `turn` is `SetBrokerSessionActive(false)` on another thread.
pub data Move (m : Shared) : Task → Shared → Task → Type 0 where
  ask : (g : ℕ) → Move m idle m (asked (if is_positive g then g else m.generation))
  lose : {g : ℕ} → m.pending ≡ true → Move m (asked g) m idle
  win : {g : ℕ} → m.pending ≡ false → Move m (asked g) (record m { pending = true }) (owner g)
  lock_shared :
      {g : ℕ}
      → m.writing ≡ false
      → Move m (owner g) (record m { readers = m.readers + 1 }) (looking g)
  load : {g : ℕ} → Move m (looking g) m (seen g m.events m.context)
  count :
      {g o c : ℕ}
      → Move m (seen g (some o) c) (record m { refs = add_ref o m.refs }) (counted g (some o) c)
  none_there : {g c : ℕ} → Move m (seen g none c) m (counted g none c)
  unlock_shared :
      {g o c : ℕ}
      → Move m (counted g (some o) c) (record m { readers = m.readers - 1 }) (holding g o c)
  unlock_none :
      {g c : ℕ} → Move m (counted g none c) (record m { readers = m.readers - 1 }) clearing
  no_memory : {g o c : ℕ} → Move m (holding g o c) m (giving_up o)
  give_up : {o : ℕ} → Move m (giving_up o) (record m { refs = release o m.refs }) clearing
  set_timer : {g o c : ℕ} → Move m (holding g o c) m (waiting g o c)
  current : {g o c : ℕ} → g ≡ m.generation → Move m (waiting g o c) m (notifying o c)
  stale : {g o c : ℕ} → g ≢ m.generation → Move m (waiting g o c) m (releasing o)
  notify :
      {o c : ℕ} → Move m (notifying o c) (record m { notices = (o, c) ∷ m.notices }) (releasing o)
  give_back : {o : ℕ} → Move m (releasing o) (record m { refs = release o m.refs }) clearing
  clear : Move m clearing (record m { pending = false }) idle
  turn : (g : ℕ) → Move m idle (record m { generation = g }) idle
  change : (e : Option ℕ) (c : ℕ) → Move m idle m (wanting e c)
  lock_exclusive :
      {e : Option ℕ} {c : ℕ}
      → m.writing ≡ false
      → m.readers ≡ 0
      → Move m (wanting e c) (record m { writing = true }) (changing e c)
  drop :
      {e : Option ℕ} {c old : ℕ}
      → m.events ≡ some old
      → Move m (changing e c) (record m { refs = release old m.refs }) (dropping e c old)
  forget :
      {e : Option ℕ} {c old : ℕ}
      → Move m (dropping e c old) (record m { events = none }) (emptied e c)
  was_none : {e : Option ℕ} {c : ℕ} → m.events ≡ none → Move m (changing e c) m (emptied e c)
  store :
      {e : Option ℕ} {c : ℕ}
      → Move m (emptied e c) (record m { events = e; context = c }) (stored e)
  own : {o : ℕ} → Move m (stored (some o)) (record m { refs = add_ref o m.refs }) leaving
  nothing : Move m (stored none) m leaving
  unlock_exclusive : Move m leaving (record m { writing = false }) idle

pub record System : Type 0 where
  pub shared : Shared
  pub tasks : List Task

-- Any task may move next, and threads may be added.
pub data Step (s t : System) : Type 0 where
  acts :
      (xs ys : List Task) {p p' : Task}
      → s.tasks ≡ xs ++ (p ∷ ys)
      → Move s.shared p t.shared p'
      → t.tasks ≡ xs ++ (p' ∷ ys)
      → Step s t
  joins : t.shared ≡ s.shared → t.tasks ≡ idle ∷ s.tasks → Step s t

abbrev pub start : System
start = record {
  shared = record {
    pending = false;
    generation = 1;
    events = none;
    context = 0;
    readers = 0;
    writing = false;
    refs = λ o. 0;
    notices = [];
  };
  tasks = [];
}

pub data Reach : System → Type 0 where
  begin : Reach start
  later : {s t : System} → Reach s → Step s t → Reach t
