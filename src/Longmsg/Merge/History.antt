-- ===== src/Longmsg/Merge/History.antt =====
-- Merging over any history of calls, from any senders, under a clock that does not go back.
use rsms.Common.{ℕ, ◌+◌, ◌*◌, ◌≤◌, ◌≡◌, false, List, [], ◌∷◌, All, arith}
use rsms.Longmsg.Frame.{LongMessageFrame}
use rsms.Longmsg.Bitmap.{is_complete}
use rsms.Longmsg.Merge.{
  PendingEntry, LongMessageMerger, with_ttl, add_frame, cleanup_expired, clear, set_ttl,
}
use rsms.Longmsg.Merge.Groups.{AllTidy, TidyEntries, add_frame-AllTidy, cleanup_expired-AllTidy}

-- The calls that change a merger.
pub data Call : Type 0 where
  adds : List ℕ → LongMessageFrame → Call
  cleans : Call
  clears : Call
  sets_ttl : ℕ → Call

unfoldable pub step : LongMessageMerger → ℕ → Call → LongMessageMerger
step m now (adds sender f) = (add_frame m now sender f).0
step m now cleans = cleanup_expired m now
step m now clears = clear m
step m now (sets_ttl ttl) = set_ttl m ttl

unfoldable pub run_history : LongMessageMerger → List (ℕ × Call) → LongMessageMerger
unfolding step
run_history m [] = m
run_history m ((now, c) ∷ rest) = run_history (step m now c) rest

abbrev pub Ascending : ℕ → List (ℕ × Call) → Type 0
Ascending t [] = Unit {0}
Ascending t ((now, _) ∷ rest) = (t ≤ now) × Ascending now rest

-- No time to live that is set is above the limit.
abbrev pub Limited : ℕ → List (ℕ × Call) → Type 0
Limited limit [] = Unit {0}
Limited limit ((now, sets_ttl ttl) ∷ rest) = (ttl ≤ limit) × Limited limit rest
Limited limit ((now, _) ∷ rest) = Limited limit rest

-- The time of the last call that adds a frame or cleans up, and `t` where there is none.
abbrev pub last_time : ℕ → List (ℕ × Call) → ℕ
last_time t [] = t
last_time t ((now, adds sender f) ∷ rest) = last_time now rest
last_time t ((now, cleans) ∷ rest) = last_time now rest
last_time t ((now, clears) ∷ rest) = last_time t rest
last_time t ((now, sets_ttl ttl) ∷ rest) = last_time t rest

run_history-AllTidy :
    (limit : ℕ) (m : LongMessageMerger) (seen t : ℕ) (history : List (ℕ × Call))
    → AllTidy limit m
    → m.ttl ≤ limit
    → m.last_cleanup ≤ t
    → seen ≤ m.last_cleanup + limit
    → Limited limit history
    → Ascending t history
    → let m' = run_history m history in
      AllTidy limit m' × (last_time seen history ≤ m'.last_cleanup + limit)
unfolding run_history clear set_ttl
run_history-AllTidy limit m seen t [] h low before within set asc = (h, within)
run_history-AllTidy limit m seen t ((now, adds sender f) ∷ rest) h low before within set
      (later, asc) =
    let (tidy, ttl, before', within') =
      add_frame-AllTidy limit m now sender f low h (omega arith) in
    run_history-AllTidy limit (add_frame m now sender f).0 now now rest tidy (omega arith) before'
      (omega arith) set asc
run_history-AllTidy limit m seen t ((now, cleans) ∷ rest) h low before within set (later, asc) =
    run_history-AllTidy limit (cleanup_expired m now) now now rest
      (cleanup_expired-AllTidy limit m now low h) (unfold cleanup_expired in low)
      (unfold cleanup_expired in omega arith) (unfold cleanup_expired in omega arith) set asc
run_history-AllTidy limit m seen t ((now, clears) ∷ rest) h low before within set (later, asc) =
    run_history-AllTidy limit (record m { pending_frames = [] }) seen now rest tt low (omega arith)
      within set asc
run_history-AllTidy limit m seen t ((now, sets_ttl ttl) ∷ rest) h low before within set
      (later, asc) =
    run_history-AllTidy limit (record m { ttl = ttl }) seen now rest h set.0 (omega arith) within
      set.1 asc

abbrev Recent : ℕ → ℕ → PendingEntry → Type 0
Recent now limit e = (is_complete e.bitmap ≡ false) × (now ≤ e.created_at + 2 * limit)

tidy-Recent :
    (limit cleaned now : ℕ) (m : List (List ℕ × PendingEntry))
    → TidyEntries limit cleaned m
    → now ≤ cleaned + limit
    → All (λ p. Recent now limit p.1) m
tidy-Recent limit cleaned now [] h le = tt
tidy-Recent limit cleaned now ((k, e) ∷ m) (t, h) le =
    ((t.open_group, omega (arith, t.young)), tidy-Recent limit cleaned now m h le)

-- After any history of the calls that change a new merger, at times that do not fall and with times to
-- live of at most `limit`, no group that is held is complete, and none was older than twice that limit
-- at the last call that added a frame or cleaned up.
pub run_history_bounded :
    (limit ttl start : ℕ) (history : List (ℕ × Call))
    → ttl ≤ limit
    → Limited limit history
    → Ascending start history
    → All
        (λ p.
          (is_complete p.1.bitmap ≡ false) × (last_time start history ≤ p.1.created_at + 2 * limit))
        (run_history (with_ttl ttl start) history).pending_frames
run_history_bounded limit ttl start history low set asc =
    let m = with_ttl ttl start in
    let (tidy, within) =
      run_history-AllTidy limit m start start history (unfold with_ttl in tt)
        (unfold with_ttl in low) (unfold with_ttl in omega arith) (unfold with_ttl in omega arith)
        set asc in
    tidy-Recent limit (run_history m history).last_cleanup (last_time start history) _ tidy within
