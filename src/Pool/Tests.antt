-- ===== src/Pool/Tests.antt =====
-- The fetches at a pool of three connections.
use rsms.Common.{
  min, length, ℕ, ◌%◌, ◌≡◌, ◌⊎◌, refl, true, false, [], ◌∷◌, map, All, ok, err, arith,
}
use rsms.Core.Error.{no_ready_connection}
use rsms.Session.Context.{logined}
use rsms.Pool.{
  Connection, AccountConnections, is_available, is_ready, is_logined, fetch_available_connection,
  or_none_ready,
}
use rsms.Pool.Eviction.{
  Distinct, count, one, evict_excess_connections, evict_excess_connections-length,
}
use rsms.Pool.Rotation.{find, rotate}
use rsms.Pool.Turns.{
  fetch_available_connection-find, fetch_available_connection_complete, fetches, fetches-rotate,
}

abbrev conn : ℕ → Connection
conn n = record { id = n; ready = true; session_state = logined; last_active = 0 }

abbrev broken : Connection
broken = record { id = 9; ready = false; session_state = logined; last_active = 0 }

abbrev mixed : AccountConnections
mixed = record { connections = conn 1 ∷ broken ∷ conn 3 ∷ []; cursor = 4; inflight = 0 }

fetch_available_connection-find_example :
    (fetch_available_connection mixed).1
    ≡ or_none_ready (find is_available (rotate (4 % 3) mixed.connections))
fetch_available_connection-find_example = fetch_available_connection-find mixed (omega arith)

fetch_available_connection_complete_example :
    ((c : Connection) × ((fetch_available_connection mixed).1 ≡ ok c) × (is_available c ≡ true))
    ⊎ (((fetch_available_connection mixed).1 ≡ err no_ready_connection)
        × All (λ c. is_available c ≡ false) mixed.connections)
fetch_available_connection_complete_example =
    fetch_available_connection_complete mixed (omega arith)

abbrev whole : AccountConnections
whole = record { connections = conn 1 ∷ conn 2 ∷ conn 3 ∷ []; cursor = 4; inflight = 0 }

fetches-rotate_example : fetches 3 whole ≡ map ok (rotate (4 % 3) whole.connections)
unfolding is_available is_ready is_logined
fetches-rotate_example = fetches-rotate whole (refl, (refl, (refl, tt))) (omega arith) (omega arith)

whole-Distinct : Distinct whole.connections
unfolding count one
whole-Distinct id = ground arith

evict_excess_connections-length_example :
    length (evict_excess_connections 2 whole).0.connections ≡ min 2 3
evict_excess_connections-length_example =
    evict_excess_connections-length 2 whole whole-Distinct (omega arith)
