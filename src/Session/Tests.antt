-- ===== src/Session/Tests.antt =====
-- The session theorems at concrete contexts.
use rsms.Common.{ℕ, ◌≡◌, ◌⊎◌, refl, false, List, [], ◌∷◌, ok}
use rsms.Session.Machine.{
  connecting, transition_to_connected, transition_to_authenticated,
  can_send_business as machine_can_send,
}
use rsms.Session.Machine
use rsms.Session.Context.{
  ConnectionContext, logined, with_connection_info, mark_connected, mark_authenticated,
  mark_reconnecting, can_send_business, current_phase,
}
use rsms.Session.Agreement.{
  Reach, Fits, here, next, connects, authenticates, Reach-Fits, sends_after_login,
  failed_mark_unchanged, reconnecting_logined,
}
use rsms.Session.Heartbeat.{HeartbeatConfig, Call, starts, sends}

abbrev account : List ℕ
account = b'a' ∷ b'1' ∷ []

abbrev fresh : ConnectionContext ℕ ℕ
fresh = with_connection_info 1 2 100

abbrev connected_one : ConnectionContext ℕ ℕ
connected_one = (mark_connected fresh 110).0

abbrev login : ConnectionContext ℕ ℕ
login = (mark_authenticated connected_one account 120).0

to_connected : Reach fresh connected_one
to_connected = next here (connects fresh 110)

to_login : Reach fresh login
to_login = next to_connected (authenticates connected_one account 120)

Reach-Fits_example : Fits login
Reach-Fits_example = Reach-Fits 1 2 100 to_login

sends_after_login_example :
    (current_phase connected_one ≡ connecting)
    × ((who : List ℕ) × (now : ℕ) × (login ≡ (mark_authenticated connected_one who now).0)
        × ((mark_authenticated connected_one who now).1 ≡ ok tt))
unfolding with_connection_info mark_connected mark_authenticated can_send_business
    transition_to_connected transition_to_authenticated machine_can_send Machine.new
sends_after_login_example =
    sends_after_login 1 2 100 to_connected (authenticates connected_one account 120) refl refl

failed_mark_unchanged_example :
    (((mark_connected login 130).1 ≡ ok tt) ⊎ ((mark_connected login 130).0 ≡ login))
    × (((mark_authenticated login account 130).1 ≡ ok tt)
        ⊎ ((mark_authenticated login account 130).0 ≡ login))
    × (((mark_reconnecting login).1 ≡ ok tt) ⊎ ((mark_reconnecting login).0 ≡ login))
failed_mark_unchanged_example = failed_mark_unchanged login account 130

reconnecting_logined_example :
    (can_send_business (mark_reconnecting login).0 ≡ false)
    × ((mark_reconnecting login).0.session_state ≡ logined)
unfolding with_connection_info mark_connected mark_authenticated can_send_business
    transition_to_connected transition_to_authenticated machine_can_send Machine.new
reconnecting_logined_example = reconnecting_logined 1 2 100 to_login refl

abbrev config : HeartbeatConfig
config = record { interval = 30; timeout = 10 }

abbrev silence : List (ℕ × Call)
silence = (1, starts) ∷ (31, sends) ∷ (61, sends) ∷ (91, sends) ∷ []
