-- ===== src/Invariant/Events.antt =====
-- The events object and the timers (src/core/Provider.cpp): references that are taken and given back, and
-- how many timers wait.
use dot1xcp.Base.{
  ℕ, zero, suc, ◌+◌, ◌≡◌, inl, inr, Bool, Option, some, List, [], ◌∷◌, arith, if◌then◌else◌,
  Option-cases, length,
}
use dot1xcp.State.{State, Pi, Refresh, Effect, Trace, added_ref, released}
use dot1xcp.Flags.{set_session_active, set_awaiting_final}
use dot1xcp.Refresh.{
  request_refresh, pick, fire, refresh_callback, set_provider_events, clear_provider_events,
}
use dot1xcp.Broker.{
  Os, close_process, close_thread, wait_and_close, close_pipe, update_flow_state, reset_session,
}
use dot1xcp.Response.{detach, close_broker, end_session}
use dot1xcp.Invariant.Handles.{same, one}
use dot1xcp.Invariant.Poll.{Rules}

abbrev adds_one : ℕ → Effect → ℕ
adds_one o (added_ref p) = same o p
adds_one o _ = 0

abbrev releases_one : ℕ → Effect → ℕ
releases_one o (released p) = same o p
releases_one o _ = 0

-- How often a trace calls `AddRef` and `Release` of the object `o`.
abbrev pub adds : ℕ → Trace → ℕ
adds o [] = 0
adds o (e ∷ t) = adds_one o e + adds o t

abbrev pub releases : ℕ → Trace → ℕ
releases o [] = 0
releases o (e ∷ t) = releases_one o e + releases o t

abbrev pub timer_refs : ℕ → List Refresh → ℕ
timer_refs o [] = 0
timer_refs o (r ∷ rs) = one o r.events + timer_refs o rs

-- How often the object is stored: as the registered one, and in the contexts of timers.
abbrev pub refs : ℕ → State → ℕ
refs o s = one o s.events + timer_refs o s.timers

abbrev pub KeepsRefs : ℕ → State → State → Type 0
KeepsRefs o s t =
    adds o t.trace + releases o s.trace + refs o s ≡ adds o s.trace + releases o t.trace + refs o t

-- One timer waits while a refresh is pending, and none otherwise.
abbrev pub IsSingle : State → Type 0
IsSingle s = length s.timers ≡ (if s.refresh_pending then 1 else 0)

-- Both, for a step.
abbrev pub KeepsEvents : ℕ → State → State → Type 0
KeepsEvents o s t = KeepsRefs o s t × (IsSingle s → IsSingle t)

close_process-refs :
    (o : ℕ) (os : Os) (p : Option ℕ) (t : Trace)
    → (adds o (close_process os p t) ≡ adds o t)
      × (releases o (close_process os p t) ≡ releases o t)
unfolding close_process
close_process-refs o os p t = ground arith

wait_and_close-refs :
    (o : ℕ) (os : Os) (pi : Pi) (t : Trace)
    → (adds o (wait_and_close os pi t) ≡ adds o t)
      × (releases o (wait_and_close os pi t) ≡ releases o t)
unfolding wait_and_close close_thread
wait_and_close-refs o os pi t = ground (arith, close_process-refs o os pi.process t)

set_session_active-KeepsEvents :
    (o : ℕ) (a : Bool) (s : State) → KeepsEvents o s (set_session_active a s)
unfolding set_session_active
set_session_active-KeepsEvents o a s = ground arith

set_awaiting_final-KeepsEvents :
    (o : ℕ) (a : Bool) (s : State) → KeepsEvents o s (set_awaiting_final a s)
unfolding set_awaiting_final
set_awaiting_final-KeepsEvents o a s = ground arith

update_flow_state-KeepsEvents :
    (o n : ℕ) (b : Bool) (s : State) → KeepsEvents o s (update_flow_state n b s)
unfolding update_flow_state
update_flow_state-KeepsEvents o n b s = ground arith

request_refresh-KeepsEvents :
    (o : ℕ) (a c : Bool) (d g : ℕ) (s : State) → KeepsEvents o s (request_refresh a c d g s)
unfolding request_refresh
request_refresh-KeepsEvents o a c d g s = ground arith

reset_session-KeepsEvents : (o : ℕ) (os : Os) (s : State) → KeepsEvents o s (reset_session os s)
unfolding reset_session close_pipe set_session_active update_flow_state
reset_session-KeepsEvents o os s = ground (
  arith,
  wait_and_close-refs o os s.pi s.trace,
  wait_and_close-refs o os s.pi (close_pipe s).trace,
)

abandons-KeepsEvents :
    (o : ℕ) (os : Os) (s : State) → KeepsEvents o s (close_broker os s.pi (detach s))
unfolding close_broker detach close_pipe set_session_active
abandons-KeepsEvents o os s = ground (arith, wait_and_close-refs o os s.pi (detach s).trace)

ends-KeepsEvents :
    (o : ℕ) (os : Os) (s : State) → KeepsEvents o s (close_broker os s.pi (end_session s))
unfolding close_broker end_session detach close_pipe set_session_active set_awaiting_final
    update_flow_state
ends-KeepsEvents o os s = ground (arith, wait_and_close-refs o os s.pi (detach s).trace)

advise-KeepsEvents :
    (o : ℕ) (p : Option ℕ) (c : ℕ) (s : State) → KeepsEvents o s (set_provider_events p c s)
unfolding set_provider_events
advise-KeepsEvents o p c s = ground arith

unadvise-KeepsEvents : (o : ℕ) (s : State) → KeepsEvents o s (clear_provider_events s)
unfolding clear_provider_events
unadvise-KeepsEvents o s = ground arith

-- What is picked is one of the timers, and the others are left.
pick-refs :
    (o i : ℕ) (rs : List Refresh) {r : Refresh} {rest : List Refresh}
    → pick i rs ≡ some (r, rest)
    → (timer_refs o rs ≡ one o r.events + timer_refs o rest) × (length rs ≡ suc (length rest))
pick-refs o i [] h = cc
pick-refs o zero (q ∷ rs) h = ground arith
pick-refs o (suc i) (q ∷ rs) {r} {rest} h = elim (Option-cases (pick i rs)) [
  | inl e ↦ cc (rw e at h)
  | inr ((p, ps), e) ↦ let h' = rw e at h in ground (arith, pick-refs o i rs e)
]

callback-KeepsEvents :
    (o : ℕ) (r : Refresh) (rest : List Refresh) (s : State)
    → (timer_refs o s.timers ≡ one o r.events + timer_refs o rest)
      × (length s.timers ≡ suc (length rest))
    → KeepsEvents o s (refresh_callback r (record s { timers = rest }))
unfolding refresh_callback
callback-KeepsEvents o r rest s h = ground arith

fire-KeepsEvents : (o i : ℕ) (s : State) → KeepsEvents o s (fire i s)
unfolding fire
fire-KeepsEvents o i s = elim (Option-cases (pick i s.timers)) [
  | inl e ↦ rw (e, fire) (omega arith, λ h. h)
  | inr ((r, rest), e) ↦ rw (e, fire) (callback-KeepsEvents o r rest s (pick-refs o i s.timers e))
]

pub KeepsEvents-Rules : (o : ℕ) → Rules (KeepsEvents o)
KeepsEvents-Rules o = record {
  none_changed = λ s. (omega arith, λ h. h);
  chain = λ s t u p q. (omega arith, λ h. q.1 (p.1 h));
  activity = set_session_active-KeepsEvents o;
  connection = λ s. (omega arith, λ h. h);
  awaiting = set_awaiting_final-KeepsEvents o;
  flow = update_flow_state-KeepsEvents o;
  force = λ f s. (omega arith, λ h. h);
  request = request_refresh-KeepsEvents o;
  resets = reset_session-KeepsEvents o;
  abandons = abandons-KeepsEvents o;
  ends = ends-KeepsEvents o;
  no_pipe = λ s e. (omega arith, λ h. h);
  new_pipe = λ p s e. (ground arith, λ h. h);
  cleared = λ s e. (omega arith, λ h. h);
  new_broker = λ l s e. (ground arith, λ h. h);
  tick = λ n s. (omega arith, λ h. h);
  decision = λ n s. (omega arith, λ h. h);
  fires = fire-KeepsEvents o;
  advises = advise-KeepsEvents o;
  unadvises = unadvise-KeepsEvents o;
}
