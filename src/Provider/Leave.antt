-- ===== src/Provider/Leave.antt =====
-- What ends a session from the side of the logon screen (src/core/ProviderCore.cpp).
use dot1xcp.Base.{ℕ, ◌≡◌, refl, ◌⊎◌, inl, inr, Bool, true, false, not, arith, if◌then◌else◌}
use dot1xcp.State.{State}
use dot1xcp.Flags.{
  arm_force_next, reset_force_next, set_session_active, set_awaiting_final, consume_force_next,
}
use dot1xcp.Broker.Close.{close_session_now-Quiet}
use dot1xcp.Broker.{Os, close_session_now}
use dot1xcp.Response.{Usage, usage_logon, usage_invalid, usage_unlock, usage_other, s_ok, e_notimpl}
use dot1xcp.Invariant.Session.{IsClosed, close_session_now-IsClosed}
use dot1xcp.Provider.{
  is_logon, set_usage_scenario, set_deselected, decide_active, decide_forced, decide_idle, decide,
  set_selected,
}

-- Leaving the tile while a session is active closes the session, and the tile is submitted without
-- the user as soon as it is selected again, at any tick.
pub set_deselected-set_selected :
    (os : Os) (now : ℕ) (s : State)
    → s.active ≡ true
    → let t = set_deselected os usage_logon s in
      IsClosed t × ((set_selected now usage_logon t).0 ≡ true)
unfolding set_deselected arm_force_next set_selected decide decide_active decide_idle decide_forced
    consume_force_next
set_deselected-set_selected os now s a = ground (arith, close_session_now-IsClosed os s)

refused :
    (os : Os) (s : State)
    → let t =
        set_awaiting_final false
          (set_session_active false (close_session_now os (reset_force_next s))) in
      IsClosed t × (t.force_next ≡ false)
unfolding reset_force_next set_session_active set_awaiting_final
refused os s = ground (
  arith,
  close_session_now-IsClosed os (record s { force_next = false }),
  close_session_now-Quiet os (record s { force_next = false }),
)

idle_logon :
    (os : Os) (s : State)
    → let t =
        set_awaiting_final false
          (set_session_active false (reset_force_next (close_session_now os s))) in
      IsClosed t × (t.force_next ≡ false)
unfolding reset_force_next set_session_active set_awaiting_final
idle_logon os s = ground (arith, close_session_now-IsClosed os s)

accepted :
    (os : Os) (s : State) (a : Bool)
    → s.active ≡ a
    → let t =
        if not a
        then set_awaiting_final false
            (set_session_active false (reset_force_next (close_session_now os s)))
        else s in
      ((s.active ≡ true) × (t ≡ s)) ⊎ ((s.active ≡ false) × IsClosed t × (t.force_next ≡ false))
accepted os s true e = inl (e, refl)
accepted os s false e = let r = idle_logon os s in inr (e, r.0, r.1)

-- Another scenario than the logon is refused, and then no session and no request to submit is left. The
-- logon is accepted: a session that is active is kept as it is, and otherwise the session is closed and
-- nothing is left to submit.
pub set_usage_scenario-sessions :
    (os : Os) (usage : Usage) (s : State)
    → let (kept, hr, t) = set_usage_scenario os usage s in
      ((is_logon usage ≡ false)
        × (hr ≡ e_notimpl)
        × (is_logon kept ≡ false)
        × IsClosed t
        × (t.force_next ≡ false))
      ⊎ ((is_logon usage ≡ true)
          × (hr ≡ s_ok)
          × (kept ≡ usage)
          × (((s.active ≡ true) × (t ≡ s))
              ⊎ ((s.active ≡ false) × IsClosed t × (t.force_next ≡ false))))
unfolding set_usage_scenario
set_usage_scenario-sessions os usage_logon s = inr (refl, refl, refl, accepted os s s.active refl)
set_usage_scenario-sessions os usage_invalid s =
    let r = refused os s in inl (refl, refl, refl, r.0, r.1)
set_usage_scenario-sessions os usage_unlock s =
    let r = refused os s in inl (refl, refl, refl, r.0, r.1)
set_usage_scenario-sessions os usage_other s =
    let r = refused os s in inl (refl, refl, refl, r.0, r.1)
