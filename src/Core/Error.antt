-- ===== src/Core/Error.antt =====
-- crates/rsms-core/src/error.rs: the error type of the public operations and its classification.
use Prim.Native.String.{String}
use rsms.Common.{ℕ, Bool, true, false}

-- What the code tells apart of `std::io::Error`.
pub data IoError : Type 0 where
  unexpected_eof other_io : IoError

pub data RsmsError : Type 0 where
  io : IoError → RsmsError
  codec : String → RsmsError
  endpoint_closed no_ready_connection : RsmsError
  max_channels : ℕ → RsmsError
  sync_timeout sync_closed : RsmsError
  not_implemented : String → RsmsError
  other : String → RsmsError
  connection_closed : String → RsmsError
  rate_limited : String → RsmsError

pub data ErrorKind : Type 0 where
  incomplete malformed limited timeout closed transport capacity terminal unclassified : ErrorKind

unfoldable pub kind : RsmsError → ErrorKind
kind (io e) = transport
kind (codec s) = malformed
kind endpoint_closed = terminal
kind no_ready_connection = capacity
kind (max_channels n) = capacity
kind sync_timeout = timeout
kind sync_closed = closed
kind (not_implemented s) = unclassified
kind (other s) = unclassified
kind (connection_closed s) = closed
kind (rate_limited s) = limited

-- The classes that `is_retryable` accepts.
abbrev retryable_kind : ErrorKind → Bool
retryable_kind limited = true
retryable_kind timeout = true
retryable_kind closed = true
retryable_kind transport = true
retryable_kind capacity = true
retryable_kind incomplete = false
retryable_kind malformed = false
retryable_kind terminal = false
retryable_kind unclassified = false

unfoldable pub is_retryable : RsmsError → Bool
unfolding kind
is_retryable e = retryable_kind (kind e)
