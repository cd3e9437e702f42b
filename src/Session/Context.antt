-- ===== src/Session/Context.antt =====
-- crates/rsms-session/src/lib.rs: the context of a connection.
-- Each method is one step and holds its locks one after another; time is an argument. The endpoint
-- and the connection's addresses are fixed data of any type.
use rsms.Common.{ℕ, ◌-◌, Bool, Option, none, some, List, ltb, Result, ok, err}
use rsms.Session.Machine.{
  SessionPhase, SessionStateMachine, StateTransitionError, transition_to_connected,
  transition_to_authenticated, transition_to_disconnected, transition_to_reconnecting,
  can_send_business as machine_can_send,
}
use rsms.Session.Machine

-- `SessionState` of crates/rsms-core/src/session.rs.
pub data SessionState : Type 0 where
  disconnected connected logined : SessionState

pub record ConnectionContext (E I : Type 0) : Type 0 where
  pub endpoint : E
  pub session_state : SessionState
  pub state_machine : SessionStateMachine
  pub authenticated_account : Option (List ℕ)
  pub last_activity : ℕ
  pub protocol_version : Option ℕ
  pub connection_info : I

module _ {E I : Type 0} where
  unfoldable pub with_connection_info : E → I → ℕ → ConnectionContext E I
  with_connection_info endpoint info now = record {
    endpoint = endpoint;
    session_state = disconnected;
    state_machine = Machine.new;
    authenticated_account = none;
    last_activity = now;
    protocol_version = none;
    connection_info = info;
  }

  unfoldable pub mark_connected :
      ConnectionContext E I → ℕ → ConnectionContext E I × Result StateTransitionError (Unit {0})
  mark_connected c now =
      let (m, result) = transition_to_connected c.state_machine in
      elim result [
        | err e ↦ (record c { state_machine = m }, err e)
        | ok u ↦
            (record c { state_machine = m; session_state = connected; last_activity = now }, ok tt)
      ]

  unfoldable pub mark_disconnected : ConnectionContext E I → ConnectionContext E I
  mark_disconnected c = record c {
    state_machine = (transition_to_disconnected c.state_machine).0;
    session_state = disconnected;
    authenticated_account = none;
  }

  unfoldable pub mark_authenticated :
      ConnectionContext E I
      → List ℕ
      → ℕ
      → ConnectionContext E I × Result StateTransitionError (Unit {0})
  mark_authenticated c account now =
      let (m, result) = transition_to_authenticated c.state_machine in
      elim result [
        | err e ↦ (record c { state_machine = m }, err e)
        | ok u ↦ (
          record c {
            state_machine = m;
            authenticated_account = some account;
            session_state = logined;
            last_activity = now;
          },
          ok tt,
        )
      ]

  unfoldable pub mark_reconnecting :
      ConnectionContext E I → ConnectionContext E I × Result StateTransitionError (Unit {0})
  mark_reconnecting c =
      let (m, result) = transition_to_reconnecting c.state_machine in
      (record c { state_machine = m }, result)

  unfoldable pub set_authenticated_account : ConnectionContext E I → List ℕ → ConnectionContext E I
  set_authenticated_account c account = record c { authenticated_account = some account }

  unfoldable pub touch : ConnectionContext E I → ℕ → ConnectionContext E I
  touch c now = record c { last_activity = now }

  unfoldable pub is_idle : ConnectionContext E I → ℕ → ℕ → Bool
  is_idle c idle_timeout now = ltb idle_timeout (now - c.last_activity)

  unfoldable pub current_phase : ConnectionContext E I → SessionPhase
  current_phase c = c.state_machine.current

  unfoldable pub can_send_business : ConnectionContext E I → Bool
  can_send_business c = machine_can_send c.state_machine

  unfoldable pub set_protocol_version : ConnectionContext E I → ℕ → ConnectionContext E I
  set_protocol_version c version = record c { protocol_version = some version }
