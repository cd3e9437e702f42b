-- ===== src/Pool.antt =====
-- crates/rsms-connector/src/pool.rs: the connections of an account and how one of them is fetched.
mod Rotation
pub mod Turns
pub mod Eviction
mod Tests
use rsms.Common.{
  ℕ, zero, suc, ◌+◌, ◌%◌, Bool, true, false, not, ◌&&◌, Option, none, some, List, [], ◌∷◌, ◌++◌,
  ◌==◌, length, Result, ok, err,
}
use rsms.Common.Bytes.{u16_mod, u64_mod}
use rsms.Core.Error.{RsmsError, no_ready_connection}
use rsms.Session.Context.{SessionState, disconnected, connected, logined}

-- What the pool reads of a connection; its methods `ready_for_fetch` and `writable` both give `ready`.
pub record Connection : Type 0 where
  pub id : ℕ
  pub ready : Bool
  pub session_state : SessionState
  pub last_active : ℕ

unfoldable pub is_logined : SessionState → Bool
is_logined disconnected = false
is_logined connected = false
is_logined logined = true

-- The tests of `ConnectionPool::fetch` and of `AccountConnections::fetch_available_connection`.
unfoldable pub is_ready : Connection → Bool
is_ready c = c.ready && is_logined c.session_state

unfoldable pub is_available : Connection → Bool
unfolding is_ready
is_available c = is_ready c && c.ready

abbrev pub get_elem? : {A : Type 0} → List A → ℕ → Option A
get_elem? [] i = none
get_elem? (x ∷ xs) zero = some x
get_elem? (x ∷ xs) (suc i) = get_elem? xs i

unfoldable pub retain_other : ℕ → List Connection → List Connection
retain_other id [] = []
retain_other id (c ∷ cs) =
    let rest = retain_other id cs in elim (c.id == id) [ true ↦ rest | false ↦ c ∷ rest ]

-- The loop over `start + i`, which wraps at 2 ^ 64, from `i` with the rounds that are left.
unfoldable pub fetch_loop : (Connection → Bool) → List Connection → ℕ → ℕ → ℕ → Option Connection
fetch_loop test cs start i zero = none
fetch_loop test cs start i (suc left) = elim (get_elem? cs ((start + i) % u64_mod % length cs)) [
  | none ↦ none
  | some c ↦ elim (test c) [ true ↦ some c | false ↦ fetch_loop test cs start (suc i) left ]
]

abbrev pub or_none_ready : Option Connection → Result RsmsError Connection
or_none_ready none = err no_ready_connection
or_none_ready (some c) = ok c

-- `ConnectionPool`, and the part of `AccountConnections` that its connections are kept in.
pub record ConnectionPool : Type 0 where
  pub inner : List Connection
  pub cursor : ℕ

pub record AccountConnections : Type 0 where
  pub connections : List Connection
  pub cursor : ℕ
  pub inflight : ℕ

unfoldable pub new : ConnectionPool
new = record { inner = []; cursor = 0 }

unfoldable pub add : ConnectionPool → Connection → ConnectionPool
add p c = record p { inner = p.inner ++ (c ∷ []) }

unfoldable pub remove : ConnectionPool → ℕ → ConnectionPool
remove p id = record p { inner = retain_other id p.inner }

unfoldable pub fetch : ConnectionPool → ConnectionPool × Result RsmsError Connection
fetch p = elim (length p.inner == 0) [
  | true ↦ (p, err no_ready_connection)
  | false ↦ (
    record p { cursor = (p.cursor + 1) % u64_mod },
    or_none_ready (fetch_loop is_ready p.inner p.cursor 0 (length p.inner)),
  )
]

unfoldable pub add_connection : AccountConnections → Connection → AccountConnections
add_connection a c = record a { connections = a.connections ++ (c ∷ []) }

unfoldable pub remove_connection : AccountConnections → ℕ → AccountConnections
remove_connection a id = record a { connections = retain_other id a.connections }

unfoldable pub increment_inflight : AccountConnections → AccountConnections
increment_inflight a = record a { inflight = (a.inflight + 1) % u16_mod }

-- `fetch_sub` wraps below 0.
unfoldable pub decrement_inflight : AccountConnections → AccountConnections
decrement_inflight a = record a { inflight = (a.inflight + 65535) % u16_mod }

unfoldable pub fetch_available_connection :
    AccountConnections → AccountConnections × Result RsmsError Connection
fetch_available_connection a = elim (length a.connections == 0) [
  | true ↦ (a, err no_ready_connection)
  | false ↦ (
    record a { cursor = (a.cursor + 1) % u64_mod },
    or_none_ready (fetch_loop is_available a.connections a.cursor 0 (length a.connections)),
  )
]
