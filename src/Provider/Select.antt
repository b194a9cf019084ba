-- ===== src/Provider/Select.antt =====
-- What `SetSelected` decides (src/core/ProviderCore.cpp, src/core/Provider.cpp).
use dot1xcp.Base.{
  ℕ, ◌+◌, ◌-◌, ◌%◌, ◌<◌, ◌≡◌, ◌∙◌, Bool, true, false, not, ◌&&◌, ◌||◌, arith, leb, ◌==◌,
}
use dot1xcp.State.{State, word}
use dot1xcp.Flags.{consume_force_next, mark_tick, try_acquire_window}
use dot1xcp.Response.{Usage, usage_logon}
use dot1xcp.Provider.{is_logon, decide_active, decide_forced, decide_idle, decide, set_selected}

-- The ticks from `earlier` to `now`, on a clock of 32 bits.
abbrev pub elapsed : ℕ → ℕ → ℕ
elapsed earlier now = (now + word - earlier) % word

-- No automatic submission was made in the last 2500 milliseconds, as far as the variables tell.
abbrev pub window_is_open : ℕ → State → Bool
window_is_open now s = s.auto_submit_tick == 0 || leb 2500 (elapsed s.auto_submit_tick now)

pub set_selected-submits :
    (now : ℕ) (usage : Usage) (s : State)
    → (set_selected now usage s).0 ≡ (
        is_logon usage
        && ((s.active && s.awaiting_final)
            || ((not s.active && s.force_next)
                || (not (s.active && s.awaiting_final) && window_is_open now s))))
unfolding set_selected decide decide_active decide_idle decide_forced consume_force_next
    try_acquire_window mark_tick
set_selected-submits now usage s = ground arith

-- A submission outside of waiting takes the tick, and uses up the request to submit.
pub submitted :
    (now : ℕ) (s : State)
    → (s.active && s.awaiting_final) ≡ false
    → (set_selected now usage_logon s).0 ≡ true
    → let t = (set_selected now usage_logon s).1 in
      (t.active ≡ s.active)
      × (t.awaiting_final ≡ s.awaiting_final)
      × (t.auto_submit_tick ≡ now)
      × ((not t.active && t.force_next) ≡ false)
unfolding set_selected decide decide_active decide_idle decide_forced consume_force_next
    try_acquire_window mark_tick
submitted now s idle first = ground arith

-- Nothing is submitted while no session waits, no request is left, and the window is shut.
pub denied :
    (now : ℕ) (t : State)
    → (t.active && t.awaiting_final) ≡ false
    → (not t.active && t.force_next) ≡ false
    → window_is_open now t ≡ false
    → (set_selected now usage_logon t).0 ≡ false
denied now t idle unforced shut =
    set_selected-submits now usage_logon t ∙ ground (arith, idle, unforced, shut)

pub shut_window :
    (now later : ℕ)
    → 0 < now
    → elapsed now later < 2500
    → (now == 0 || leb 2500 (elapsed now later)) ≡ false
shut_window now later tick soon = ground arith
