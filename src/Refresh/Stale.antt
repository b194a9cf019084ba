-- ===== src/Refresh/Stale.antt =====
-- Timers and generations (src/core/Provider.cpp): which refreshes reach the logon screen.
use dot1xcp.Base.{
  ℕ, zero, suc, ◌+◌, ◌%◌, ◌<◌, ◌≡◌, refl, sym, ap, subst, ◌∙◌, inl, inr, true, false, some, List,
  [], ◌∷◌, arith, ◌==◌, Option-cases, All,
}
use dot1xcp.State.{State, Refresh, word, credentials_changed, released}
use dot1xcp.Refresh.{added_ref, request_refresh, refresh_callback, fire, pick}
use dot1xcp.Broker.{Os, close_session_now}
use dot1xcp.Broker.Close.{notices, close_session_now-Quiet}

-- The timer was set in the generation `g`.
abbrev pub IsFrom : ℕ → Refresh → Type 0
IsFrom g r = r.generation ≡ g

pick-All :
    (g i : ℕ) (rs : List Refresh) {r : Refresh} {rest : List Refresh}
    → All (IsFrom g) rs
    → pick i rs ≡ some (r, rest)
    → IsFrom g r
pick-All g i [] all h = cc
pick-All g zero (q ∷ rs) all h = ground arith
pick-All g (suc i) (q ∷ rs) all h = elim (Option-cases (pick i rs)) [
  | inl e ↦ cc (rw e at h)
  | inr ((p, ps), e) ↦ let h' = rw e at h in ground (arith, pick-All g i rs all.1 e)
]

callback-stale :
    (r : Refresh) (s : State)
    → (r.generation == s.generation) ≡ false
    → notices (refresh_callback r s).trace ≡ notices s.trace
unfolding refresh_callback
callback-stale r s stale = ground arith

pub next-ne : (g : ℕ) → g < word → (g == (g + 1) % word) ≡ false
next-ne g b = ground arith

pub fire-stale :
    (i g : ℕ) (s : State)
    → All (IsFrom g) s.timers
    → (g == s.generation) ≡ false
    → notices (fire i s).trace ≡ notices s.trace
unfolding fire
fire-stale i g s all stale = elim (Option-cases (pick i s.timers)) [
  | inl e ↦ rw (e, fire) refl
  | inr ((r, rest), e) ↦
      let old = pick-All g i s.timers all e in
      rw (e, fire)
        (callback-stale r (record s { timers = rest }) (ap (λ x. x == s.generation) old ∙ stale))
]

-- Where every waiting timer was set in the current generation, a number of 32 bits: once the session
-- has been closed, none of them calls `CredentialsChanged`, whichever fires.
pub close_session_now-fire :
    (os : Os) (i : ℕ) (s : State)
    → All (IsFrom s.generation) s.timers
    → s.generation < word
    → notices (fire i (close_session_now os s)).trace ≡ notices s.trace
close_session_now-fire os i s all b =
    let t = close_session_now os s in
    let (quiet, ended) = close_session_now-Quiet os s in
    fire-stale i s.generation t (subst (All (IsFrom s.generation)) (sym quiet.same_timers) all)
      (rw ended.next_generation (next-ne s.generation b))
    ∙ quiet.no_notice

-- While an object is registered, no refresh is pending and the allocations succeed, a refresh that is
-- requested and fires before the session ends calls `CredentialsChanged` once, in the registered
-- context, and takes and gives back one reference to the object; nothing is pending afterwards.
pub request_refresh-fire :
    (delay o : ℕ) (s : State)
    → s.refresh_pending ≡ false
    → s.events ≡ some o
    → fire 0 (request_refresh true true delay s.generation s) ≡ record s {
      trace = released o ∷ credentials_changed s.events_context ∷ added_ref o ∷ s.trace;
    }
unfolding request_refresh fire refresh_callback
request_refresh-fire delay o s idle registered = ground arith
