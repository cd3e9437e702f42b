-- ===== src/Window.antt =====
-- crates/rsms-window: the sliding window of requests that wait for their responses.
-- An operation is one atomic step under the lock of `pending`, a `HashMap` that is an association
-- list here. Time is an argument. A step returns the events that it sends and whether it wakes the
-- callers that wait in `offer`.
pub mod Bounds
pub mod Laws
pub mod Offer
mod Tests
use Prim.Native.String.{String}
use rsms.Common.{
  ℕ, zero, suc, ◌+◌, ◌-◌, ◌≡◌, Bool, true, false, Option, none, some, List, [], ◌∷◌, ◌++◌, map, ltb,
  leb, if◌then◌else◌, length, Result, ok, err,
}
use rsms.Common.Classes.{Eq}
use rsms.Common.Dict.{lookup, insert, remove, contains_key}

pub record WindowConfig : Type 0 where
  pub max_size : ℕ
  pub default_timeout : ℕ
  pub monitor_interval : ℕ

-- `WindowConfig::new` with the interval of the default, in milliseconds.
unfoldable pub new_config : ℕ → ℕ → WindowConfig
new_config max_size timeout = record {
  max_size = max_size;
  default_timeout = timeout;
  monitor_interval = 100;
}

unfoldable pub with_timeout : WindowConfig → ℕ → WindowConfig
with_timeout c timeout = record c { default_timeout = timeout }

unfoldable pub with_monitor_interval : WindowConfig → ℕ → WindowConfig
with_monitor_interval c interval = record c { monitor_interval = interval }

pub record WindowFuture (K P : Type 0) : Type 0 where
  pub key : K
  pub params : P
  pub created_at : ℕ
  pub timeout : ℕ

pub data WindowError (K : Type 0) : Type 0 where
  window_full offer_timeout timed_out cancelled : WindowError K
  duplicate_key : K → WindowError K
  not_found : K → WindowError K
  window_closed : WindowError K
  internal : String → WindowError K

pub data WindowEvent (K : Type 0) : Type 0 where
  expired : K → WindowEvent K
  completed : K → WindowEvent K
  failed : K → WindowError K → WindowEvent K

pub record Window (K P : Type 0) : Type 0 where
  pub config : WindowConfig
  pub pending : List (K × WindowFuture K P)
  -- whether the window has an event channel
  pub sender : Bool

unfoldable pub is_expired : {K P : Type 0} → ℕ → WindowFuture K P → Bool
is_expired now f = ltb f.timeout (now - f.created_at)

unfoldable pub new : {K P : Type 0} → WindowConfig → Window K P
new config = record { config = config; pending = []; sender = false }

unfoldable pub with_channel : {K P : Type 0} → WindowConfig → Window K P
with_channel config = record { config = config; pending = []; sender = true }

-- A new state, the events that are sent, and whether waiting callers are woken.
pub record Outcome (K P : Type 0) : Type 0 where
  pub window : Window K P
  pub events : List (WindowEvent K)
  pub woken : Bool

-- `send_event`: without a channel nothing is sent.
abbrev pub send : {K P : Type 0} → Window K P → WindowEvent K → List (WindowEvent K)
send w e = if w.sender then e ∷ [] else []

module _ {K P : Type 0} ⦃e : Eq K⦄ where
  abbrev pub future_of : Window K P → K → P → ℕ → WindowFuture K P
  future_of w key params now = record {
    key = key;
    params = params;
    created_at = now;
    timeout = w.config.default_timeout;
  }

  unfoldable pub try_offer :
      Window K P → K → P → ℕ → Window K P × Result (WindowError K) (WindowFuture K P)
  unfolding contains_key
  try_offer w key params now =
      if contains_key key w.pending
      then (w, err (duplicate_key key))
      else if leb w.config.max_size (length w.pending)
      then (w, err window_full)
      else (
        record w { pending = insert key (future_of w key params now) w.pending },
        ok (future_of w key params now),
      )

  -- Both `complete` and `fail` return `None` also where the key was pending.
  unfoldable pub complete : Window K P → K → Outcome K P × Option (WindowFuture K P)
  complete w key = elim (lookup key w.pending) [
    | none ↦ (record { window = w; events = []; woken = false }, none)
    | some f ↦ (
      record {
        window = record w { pending = remove key w.pending };
        events = send w (completed key);
        woken = true;
      },
      none,
    )
  ]

  unfoldable pub fail : Window K P → K → WindowError K → Outcome K P × Option (WindowFuture K P)
  fail w key error = elim (lookup key w.pending) [
    | none ↦ (record { window = w; events = []; woken = false }, none)
    | some f ↦ (
      record {
        window = record w { pending = remove key w.pending };
        events = send w (failed key error);
        woken = true;
      },
      none,
    )
  ]

  unfoldable pub cancel : Window K P → K → Outcome K P × Option (WindowFuture K P)
  cancel w key = elim (lookup key w.pending) [
    | none ↦ (record { window = w; events = []; woken = false }, none)
    | some f ↦ (
      record { window = record w { pending = remove key w.pending }; events = []; woken = true },
      some f,
    )
  ]

  unfoldable pub size : Window K P → ℕ
  size w = length w.pending

  unfoldable pub available : Window K P → ℕ
  unfolding size
  available w = w.config.max_size - size w

  unfoldable pub contains : Window K P → K → Bool
  contains w key = contains_key key w.pending

  unfoldable pub expired_keys : ℕ → List (K × WindowFuture K P) → List K
  expired_keys now [] = []
  expired_keys now ((k, f) ∷ m) =
      if is_expired now f then k ∷ expired_keys now m else expired_keys now m

  -- The removals of a tick of the monitor: the entries left, and the keys that were there.
  unfoldable pub remove_expired :
      List K → List (K × WindowFuture K P) → List (K × WindowFuture K P) × List K
  remove_expired [] m = (m, [])
  remove_expired (k ∷ ks) m =
      let (m', gone) = remove_expired ks (remove k m) in
      elim (lookup k m) [ none ↦ (m', gone) | some f ↦ (m', k ∷ gone) ]

  unfoldable pub monitor_tick : Window K P → ℕ → Outcome K P
  unfolding expired_keys remove_expired
  monitor_tick w now =
      let (left, gone) = remove_expired (expired_keys now w.pending) w.pending in
      record {
        window = record w { pending = left };
        events = if w.sender then map expired gone else [];
        woken = elim gone [ [] ↦ false | k ∷ ks ↦ true ];
      }

  -- `offer` tries again whenever it is woken or its time is up: the list gives the window and the
  -- time at each try. `none`: it waits for another.
  unfoldable pub offer :
      K
      → P
      → ℕ
      → ℕ
      → List (Window K P × ℕ)
      → Option (Window K P × Result (WindowError K) (WindowFuture K P))
  offer key params start timeout [] = none
  offer key params start timeout ((w, now) ∷ tries) =
      let (w', result) = try_offer w key params now in
      let again = offer key params start timeout tries in
      elim result [
        | ok f ↦ some (w', ok f)
        | err window_full ↦
            if leb timeout (now - start) then some (w', err offer_timeout) else again
        | err error ↦ some (w', err error)
      ]
