-- ===== src/Session/Agreement.antt =====
-- What holds of a context after any sequence of its methods.
use rsms.Common.{ℕ, ◌≡◌, ◌≢◌, refl, ◌⊎◌, true, false, Option, none, List, ok, arith}
use rsms.Session.Machine.{
  SessionPhase, SessionStateMachine, connecting, reconnecting, authenticated, awaiting_login_resp,
}
use rsms.Session.Machine
use rsms.Session.Context.{
  SessionState, ConnectionContext, disconnected, connected, logined, with_connection_info,
  mark_connected, mark_disconnected, mark_authenticated, mark_reconnecting,
  set_authenticated_account, touch, set_protocol_version, can_send_business, current_phase,
}

-- The state that goes with a phase; a reconnecting session keeps the state that it had, and the
-- context never waits for a login response.
abbrev pub PhaseFits : SessionPhase → SessionState → Option (List ℕ) → Type 0
PhaseFits Machine.disconnected state account = state ≡ disconnected
PhaseFits connecting state account = state ≡ connected
PhaseFits awaiting_login_resp state account = ⊥
PhaseFits authenticated state account = (state ≡ logined) × (account ≢ none)
PhaseFits reconnecting state account = state ≢ disconnected

module _ {E I : Type 0} where
  -- One method that changes the context.
  pub data Step : ConnectionContext E I → ConnectionContext E I → Type 0 where
    connects : (c : ConnectionContext E I) (now : ℕ) → Step c (mark_connected c now).0
    disconnects : (c : ConnectionContext E I) → Step c (mark_disconnected c)
    authenticates :
        (c : ConnectionContext E I) (account : List ℕ) (now : ℕ)
        → Step c (mark_authenticated c account now).0
    reconnects : (c : ConnectionContext E I) → Step c (mark_reconnecting c).0
    sets_account :
        (c : ConnectionContext E I) (account : List ℕ)
        → Step c (set_authenticated_account c account)
    touches : (c : ConnectionContext E I) (now : ℕ) → Step c (touch c now)
    sets_version :
        (c : ConnectionContext E I) (version : ℕ) → Step c (set_protocol_version c version)

  pub data Reach (c : ConnectionContext E I) : ConnectionContext E I → Type 0 where
    here : Reach c c
    next : {u v : ConnectionContext E I} → Reach c u → Step u v → Reach c v

  abbrev pub Fits : ConnectionContext E I → Type 0
  Fits c = PhaseFits c.state_machine.current c.session_state c.authenticated_account

  Step-Fits : {c d : ConnectionContext E I} → Step c d → Fits c → Fits d
  unfolding mark_connected mark_disconnected mark_authenticated mark_reconnecting
      set_authenticated_account touch set_protocol_version Machine.transition_to_connected
      Machine.transition_to_authenticated Machine.transition_to_disconnected
      Machine.transition_to_reconnecting
  Step-Fits (connects c now) h = ground arith
  Step-Fits (disconnects c) h = refl
  Step-Fits (authenticates c account now) h = ground arith
  Step-Fits (reconnects c) h = ground arith
  Step-Fits (sets_account c account) h = ground arith
  Step-Fits (touches c now) h = h
  Step-Fits (sets_version c version) h = h

  Reach-step : {c d : ConnectionContext E I} → Reach c d → Fits c → Fits d
  Reach-step here h = h
  Reach-step (next r s) h = Step-Fits s (Reach-step r h)

  -- Whatever methods are called on a new context, in whatever order: a disconnected phase has the
  -- state disconnected, a connecting one the state connected, an authenticated one the state logined
  -- and an account, a reconnecting one any state but disconnected; and the context never waits for
  -- a login response.
  pub Reach-Fits :
      (endpoint : E) (info : I) (now : ℕ) {c : ConnectionContext E I}
      → Reach (with_connection_info endpoint info now) c
      → Fits c
  unfolding with_connection_info Machine.new
  Reach-Fits endpoint info now r = Reach-step r refl

  by_step :
      {c d : ConnectionContext E I}
      → Step c d
      → Fits c
      → can_send_business c ≡ false
      → can_send_business d ≡ true
      → (current_phase c ≡ connecting)
        × ((account : List ℕ) × (now : ℕ) × (d ≡ (mark_authenticated c account now).0)
            × ((mark_authenticated c account now).1 ≡ ok tt))
  unfolding mark_connected mark_disconnected mark_authenticated mark_reconnecting
      set_authenticated_account touch set_protocol_version Machine.transition_to_connected
      Machine.transition_to_authenticated Machine.transition_to_disconnected
      Machine.transition_to_reconnecting can_send_business Machine.can_send_business current_phase
  by_step (connects c now) h mute able = ground arith
  by_step (disconnects c) h mute able = ground arith
  by_step (authenticates c account now) h mute able =
      let phase : c.state_machine.current ≡ connecting = ground arith in
      (phase, (account, now, refl, rw phase refl))
  by_step (reconnects c) h mute able = ground arith
  by_step (sets_account c account) h mute able = ground arith
  by_step (touches c now) h mute able = ground arith
  by_step (sets_version c version) h mute able = ground arith

  -- Only a login that the state machine accepts, from the connecting phase, makes a context of any
  -- history able to send business.
  pub sends_after_login :
      (endpoint : E) (info : I) (start : ℕ) {c d : ConnectionContext E I}
      → Reach (with_connection_info endpoint info start) c
      → Step c d
      → can_send_business c ≡ false
      → can_send_business d ≡ true
      → (current_phase c ≡ connecting)
        × ((account : List ℕ) × (now : ℕ) × (d ≡ (mark_authenticated c account now).0)
            × ((mark_authenticated c account now).1 ≡ ok tt))
  sends_after_login endpoint info start {c} r s mute able =
      by_step s (Reach-Fits endpoint info start r) mute able

  -- A mark that fails leaves the context as it was.
  pub failed_mark_unchanged :
      (c : ConnectionContext E I) (account : List ℕ) (now : ℕ)
      → (((mark_connected c now).1 ≡ ok tt) ⊎ ((mark_connected c now).0 ≡ c))
        × (((mark_authenticated c account now).1 ≡ ok tt)
            ⊎ ((mark_authenticated c account now).0 ≡ c))
        × (((mark_reconnecting c).1 ≡ ok tt) ⊎ ((mark_reconnecting c).0 ≡ c))
  unfolding mark_connected mark_authenticated mark_reconnecting Machine.transition_to_connected
      Machine.transition_to_authenticated Machine.transition_to_reconnecting
  failed_mark_unchanged c account now = ground arith

  -- A context that can send and is marked as reconnecting can no longer send, but still says that it
  -- is logged in.
  pub reconnecting_logined :
      (endpoint : E) (info : I) (start : ℕ) {c : ConnectionContext E I}
      → Reach (with_connection_info endpoint info start) c
      → can_send_business c ≡ true
      → (can_send_business (mark_reconnecting c).0 ≡ false)
        × ((mark_reconnecting c).0.session_state ≡ logined)
  unfolding mark_reconnecting Machine.transition_to_reconnecting can_send_business
      Machine.can_send_business
  reconnecting_logined endpoint info start r able =
      let h = Reach-Fits endpoint info start r in ground (arith, h)
