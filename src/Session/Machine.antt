-- ===== src/Session/Machine.antt =====
-- crates/rsms-session/src/state_machine.rs: the phases of a session and the moves between them.
-- A method that may fail gives the machine after it and its result.
use rsms.Common.{Bool, true, false, Result, ok, err}

pub data SessionPhase : Type 0 where
  disconnected connecting awaiting_login_resp authenticated reconnecting : SessionPhase

pub data StateTransitionError : Type 0 where
  invalid_transition : SessionPhase → SessionPhase → StateTransitionError

pub record SessionStateMachine : Type 0 where
  pub current : SessionPhase

abbrev pub Moved : Type 0
Moved = SessionStateMachine × Result StateTransitionError (Unit {0})

abbrev at : SessionPhase → Moved
at phase = (record { current = phase }, ok tt)

abbrev refused : SessionPhase → SessionPhase → Moved
refused from to = (record { current = from }, err (invalid_transition from to))

unfoldable pub new : SessionStateMachine
new = record { current = disconnected }

unfoldable pub transition_to_connected : SessionStateMachine → Moved
transition_to_connected m = elim m.current [
  | disconnected ↦ at connecting
  | reconnecting ↦ at connecting
  | other ↦ refused other connecting
]

unfoldable pub transition_to_awaiting_login : SessionStateMachine → Moved
transition_to_awaiting_login m = elim m.current [
  | connecting ↦ at awaiting_login_resp
  | other ↦ refused other awaiting_login_resp
]

unfoldable pub transition_to_authenticated : SessionStateMachine → Moved
transition_to_authenticated m = elim m.current [
  | connecting ↦ at authenticated
  | awaiting_login_resp ↦ at authenticated
  | other ↦ refused other authenticated
]

unfoldable pub transition_to_disconnected : SessionStateMachine → Moved
transition_to_disconnected m = at disconnected

unfoldable pub transition_to_reconnecting : SessionStateMachine → Moved
transition_to_reconnecting m = elim m.current [
  | authenticated ↦ at reconnecting
  | connecting ↦ at reconnecting
  | other ↦ refused other reconnecting
]

unfoldable pub can_send_business : SessionStateMachine → Bool
can_send_business m = elim m.current [ authenticated ↦ true | _ ↦ false ]

unfoldable pub can_receive : SessionStateMachine → Bool
can_receive m = elim m.current [ disconnected ↦ false | _ ↦ true ]
