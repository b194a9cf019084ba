-- ===== src/Invariant/Handles.antt =====
-- Handles that are opened, closed and held, under the operations of src/broker/ProviderBrokerSession.cpp,
-- src/core/Provider.cpp and src/broker/ProviderSerialization.cpp.
use dot1xcp.Base.{ℕ, ◌+◌, ◌≡◌, Bool, Option, none, some, [], ◌∷◌, arith, ◌==◌, if◌then◌else◌}
use dot1xcp.State.{State, Pi, Effect, Trace, opened, closed}
use dot1xcp.Flags.{set_session_active, set_awaiting_final}
use dot1xcp.Response.{detach, close_broker, end_session}
use dot1xcp.Invariant.Poll.{Rules}
use dot1xcp.Refresh.{
  fire, refresh_callback, set_provider_events, clear_provider_events, request_refresh,
}
use dot1xcp.Broker.{
  Os, close_process, close_thread, wait_and_close, close_pipe, update_flow_state, reset_session,
}

abbrev pub same : ℕ → ℕ → ℕ
same h p = if p == h then 1 else 0

abbrev opens_one : ℕ → Effect → ℕ
opens_one h (opened p) = same h p
opens_one h _ = 0

abbrev closes_one : ℕ → Effect → ℕ
closes_one h (closed p) = same h p
closes_one h _ = 0

-- How often a trace opens and closes the handle `h`.
abbrev pub opens : ℕ → Trace → ℕ
opens h [] = 0
opens h (e ∷ t) = opens_one h e + opens h t

abbrev pub closes : ℕ → Trace → ℕ
closes h [] = 0
closes h (e ∷ t) = closes_one h e + closes h t

abbrev pub one : ℕ → Option ℕ → ℕ
one h none = 0
one h (some p) = same h p

-- How often the session holds it.
abbrev pub held : ℕ → State → ℕ
held h s = one h s.pipe + one h s.pi.process + one h s.pi.thread

-- A handle that is opened is closed once, or is still held by the session.
abbrev pub Balanced : State → Type 0
Balanced s = (h : ℕ) → opens h s.trace ≡ closes h s.trace + held h s

-- A step from `s` to `t` neither loses a handle nor closes one that is not held.
abbrev pub Keeps : ℕ → State → State → Type 0
Keeps h s t =
    opens h t.trace + closes h s.trace + held h s ≡ opens h s.trace + closes h t.trace + held h t

closes_process :
    (h : ℕ) (os : Os) (p : Option ℕ) (t : Trace)
    → (closes h (close_process os p t) ≡ closes h t + one h p)
      × (opens h (close_process os p t) ≡ opens h t)
unfolding close_process
closes_process h os p t = ground arith

pub closes-wait_and_close :
    (h : ℕ) (os : Os) (pi : Pi) (t : Trace)
    → (closes h (wait_and_close os pi t) ≡ closes h t + one h pi.process + one h pi.thread)
      × (opens h (wait_and_close os pi t) ≡ opens h t)
unfolding wait_and_close close_thread
closes-wait_and_close h os pi t = ground (arith, closes_process h os pi.process t)

pub close_pipe-Keeps : (h : ℕ) (s : State) → Keeps h s (close_pipe s)
unfolding close_pipe
close_pipe-Keeps h s = ground arith

pub set_session_active-Keeps : (h : ℕ) (a : Bool) (s : State) → Keeps h s (set_session_active a s)
unfolding set_session_active
set_session_active-Keeps h a s = ground arith

pub set_awaiting_final-Keeps : (h : ℕ) (a : Bool) (s : State) → Keeps h s (set_awaiting_final a s)
unfolding set_awaiting_final
set_awaiting_final-Keeps h a s = ground arith

pub update_flow_state-Keeps : (h n : ℕ) (b : Bool) (s : State) → Keeps h s (update_flow_state n b s)
unfolding update_flow_state
update_flow_state-Keeps h n b s = ground arith

pub request_refresh-Keeps :
    (h : ℕ) (a c : Bool) (d g : ℕ) (s : State) → Keeps h s (request_refresh a c d g s)
unfolding request_refresh
request_refresh-Keeps h a c d g s = ground arith

pub Keeps-trans : (h : ℕ) (s t u : State) → Keeps h s t → Keeps h t u → Keeps h s u
Keeps-trans h s t u p q = omega arith

pub reset_session-Keeps : (h : ℕ) (os : Os) (s : State) → Keeps h s (reset_session os s)
unfolding reset_session close_pipe set_session_active update_flow_state
reset_session-Keeps h os s = ground (
  arith,
  closes-wait_and_close h os s.pi s.trace,
  closes-wait_and_close h os s.pi (close_pipe s).trace,
)

abandons-Keeps : (h : ℕ) (os : Os) (s : State) → Keeps h s (close_broker os s.pi (detach s))
unfolding close_broker detach close_pipe set_session_active
abandons-Keeps h os s = ground (arith, closes-wait_and_close h os s.pi (detach s).trace)

ends-Keeps : (h : ℕ) (os : Os) (s : State) → Keeps h s (close_broker os s.pi (end_session s))
unfolding close_broker end_session detach close_pipe set_session_active set_awaiting_final
    update_flow_state
ends-Keeps h os s = ground (arith, closes-wait_and_close h os s.pi (detach s).trace)

fire-Keeps : (h i : ℕ) (s : State) → Keeps h s (fire i s)
unfolding fire refresh_callback
fire-Keeps h i s = ground arith

advise-Keeps : (h : ℕ) (o : Option ℕ) (c : ℕ) (s : State) → Keeps h s (set_provider_events o c s)
unfolding set_provider_events
advise-Keeps h o c s = ground arith

unadvise-Keeps : (h : ℕ) (s : State) → Keeps h s (clear_provider_events s)
unfolding clear_provider_events
unadvise-Keeps h s = ground arith

pub Keeps-Rules : (h : ℕ) → Rules (Keeps h)
Keeps-Rules h = record {
  none_changed = λ s. omega arith;
  chain = Keeps-trans h;
  activity = set_session_active-Keeps h;
  connection = λ s. omega arith;
  awaiting = set_awaiting_final-Keeps h;
  flow = update_flow_state-Keeps h;
  force = λ f s. omega arith;
  request = request_refresh-Keeps h;
  resets = reset_session-Keeps h;
  abandons = abandons-Keeps h;
  ends = ends-Keeps h;
  no_pipe = λ s e. ground arith;
  new_pipe = λ p s e. ground arith;
  cleared = λ s e. ground arith;
  new_broker = λ l s e. ground arith;
  tick = λ n s. omega arith;
  decision = λ n s. omega arith;
  fires = fire-Keeps h;
  advises = advise-Keeps h;
  unadvises = unadvise-Keeps h;
}
