-- ===== src/Window/Tests.antt =====
-- The window theorems at concrete windows.
use rsms.Common.{
  List, All, length, ◌++◌, ℕ, ◌+◌, ◌≤◌, ◌<◌, ◌≡◌, ◌⊎◌, refl, true, false, none, some, [], ◌∷◌,
  if◌then◌else◌, ok, err, arith,
}
use rsms.Common.Classes.{nat_eq}
use rsms.Common.Dict.{lookup, Unique}
use rsms.Window.{
  Window, WindowConfig, WindowFuture, completed, new, try_offer, complete, monitor_tick, offer,
  size, available, contains, future_of, duplicate_key, window_full,
}
use rsms.Window.Bounds.{Reach, here, next, offers, completes, ticks, by_new, Reach-new}
use rsms.Window.Laws.{try_offer_branches, complete_frees}
use rsms.Window.Offer.{Waits, Ends, offer-decides}

abbrev config : WindowConfig
config = record { max_size = 1; default_timeout = 10; monitor_interval = 100 }

abbrev start : Window ℕ ℕ
start = new config

abbrev first : Window ℕ ℕ
first = (try_offer start 1 50 0).0

-- A request is taken, a second one is refused, the first is completed, the monitor ticks.
abbrev last : Window ℕ ℕ
last = (monitor_tick (complete (try_offer first 2 60 1).0 1).0.window 5).window

reached : Reach start last
reached =
    next
      (next (next (next here (offers start 1 50 0)) (offers first 2 60 1))
        (completes (try_offer first 2 60 1).0 1))
      (ticks (complete (try_offer first 2 60 1).0 1).0.window 5)

Reach-new_example : Unique last.pending × (size last ≤ 1) × (size last + available last ≡ 1)
Reach-new_example = Reach-new config by_new reached

-- One request, 1, is pending and fills the window.
abbrev pending_one : WindowFuture ℕ ℕ
pending_one = record { key = 1; params = 50; created_at = 0; timeout = 10 }

abbrev full : Window ℕ ℕ
full = record { config = config; pending = (1, pending_one) ∷ []; sender = true }

complete_frees_example :
    let done = (complete full 1).0 in
    (done.events ≡ completed 1 ∷ [])
    × (done.woken ≡ true)
    × ((j : ℕ)
        → lookup j done.window.pending ≡ (if nat_eq.beq 1 j then none else lookup j full.pending))
    × ((try_offer done.window 2 60 7).1 ≡ ok (future_of full 2 60 7))
unfolding lookup size
complete_frees_example = complete_frees full 1 2 pending_one 60 7 refl refl (omega arith)

try_offer_branches_example :
    ((contains full 2 ≡ true) × (try_offer full 2 60 7 ≡ (full, err (duplicate_key 2))))
    ⊎ ((contains full 2 ≡ false)
        × (1 ≤ size full)
        × (try_offer full 2 60 7 ≡ (full, err window_full)))
    ⊎ ((contains full 2 ≡ false)
        × (size full < 1)
        × ((try_offer full 2 60 7).1 ≡ ok (future_of full 2 60 7))
        × (size (try_offer full 2 60 7).0 ≡ size full + 1)
        × ((j : ℕ)
            → lookup j (try_offer full 2 60 7).0.pending
              ≡ (if nat_eq.beq 2 j then some (future_of full 2 60 7) else lookup j full.pending)))
try_offer_branches_example = try_offer_branches full 2 60 7

-- After one full try at 3, the next try at 8 finds the time of 5 up.
offer-decides_example :
    (waits rest : List (Window ℕ ℕ × ℕ)) × (try : Window ℕ ℕ × ℕ) × ((full, 3) ∷ (full, 8) ∷ []
      ≡ waits ++ try ∷ rest)
    × (length waits ≤ 1)
    × All (Waits 2 60 0 5) waits
    × Ends 2 60 0 5 try (offer 2 60 0 5 ((full, 3) ∷ (full, 8) ∷ []))
offer-decides_example = offer-decides 2 60 0 5 ((full, 3) ∷ []) [] full 8 (omega arith)
