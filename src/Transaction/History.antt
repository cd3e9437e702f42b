-- ===== src/Transaction/History.antt =====
-- A manager over any sequence of calls.
use Prim.Native.String.{String}
use rsms.Common.{ℕ, ◌+◌, ◌≤◌, ◌≡◌, refl, true, Option, none, List, [], ◌∷◌, ◌++◌, arith}
use rsms.Transaction.Copies.{
  same, copies, copies-add, copies-on_report, copies-on_submit_resp, copies-on_send_failed,
  copies-check_timeouts,
}
use rsms.Transaction.{
  TransactionManager, SubmitInfo, ReportInfo, MoInfo, Step, new, set_callback,
  add_submit_transaction, on_submit_resp, on_report, on_send_failed, on_mo, check_timeouts,
}
use rsms.Transaction.Keys.{
  IsKeyed, new-IsKeyed, add-IsKeyed, on_report-IsKeyed, on_submit_resp-IsKeyed,
  on_send_failed-IsKeyed, check_timeouts-IsKeyed,
}

pub data Event : Type 0 where
  sets_callback : Event
  submits : SubmitInfo → Event
  resp : ℕ → Option (List ℕ) → ℕ → Event
  report : ReportInfo → Event
  fails : ℕ → String → Event
  mo : MoInfo → Event
  checks : Event

unfoldable pub step : TransactionManager → ℕ × Event → Step
step tm (now, sets_callback) = (set_callback tm true, [])
step tm (now, submits info) = (add_submit_transaction tm info, [])
step tm (now, resp seq mid result) = on_submit_resp tm seq mid result now
step tm (now, report r) = on_report tm r now
step tm (now, fails seq error) = on_send_failed tm seq error
step tm (now, mo m) = on_mo tm m
step tm (now, checks) = check_timeouts tm now

unfoldable pub run : TransactionManager → List (ℕ × Event) → Step
unfolding step
run tm [] = (tm, [])
run tm (e ∷ es) = let (tm', cs) = step tm e in let (tm'', cs') = run tm' es in (tm'', cs ++ cs')

-- What `SubmitInfo::new` gives: a submit starts without a message id.
abbrev pub Fresh : List (ℕ × Event) → Type 0
Fresh [] = Unit {0}
Fresh ((now, submits info) ∷ es) = (info.msg_id ≡ none) × Fresh es
Fresh ((now, _) ∷ es) = Fresh es

run-IsKeyed :
    (tm : TransactionManager) (es : List (ℕ × Event))
    → Fresh es
    → IsKeyed tm
    → IsKeyed (run tm es).0
unfolding run set_callback on_mo
run-IsKeyed tm [] f h = h
run-IsKeyed tm ((now, sets_callback) ∷ es) f h =
    run-IsKeyed _ es f (record { fits = h.fits; unique = h.unique })
run-IsKeyed tm ((now, submits info) ∷ es) f h =
    run-IsKeyed (add_submit_transaction tm info) es f.1 (add-IsKeyed tm info f.0 h)
run-IsKeyed tm ((now, resp seq mid result) ∷ es) f h =
    run-IsKeyed _ es f (on_submit_resp-IsKeyed tm seq mid result now h)
run-IsKeyed tm ((now, report r) ∷ es) f h = run-IsKeyed _ es f (on_report-IsKeyed tm r now h)
run-IsKeyed tm ((now, fails seq error) ∷ es) f h =
    run-IsKeyed _ es f (on_send_failed-IsKeyed tm seq error h)
run-IsKeyed tm ((now, mo m) ∷ es) f h = run-IsKeyed tm es f h
run-IsKeyed tm ((now, checks) ∷ es) f h = run-IsKeyed _ es f (check_timeouts-IsKeyed tm now h)

-- How many submits of a sequence number were made.
unfoldable pub submitted : ℕ → List (ℕ × Event) → ℕ
submitted seq [] = 0
submitted seq ((now, submits info) ∷ es) = same info.sequence_id seq + submitted seq es
submitted seq ((now, _) ∷ es) = submitted seq es

run-copies :
    (seq : ℕ) (tm : TransactionManager) (es : List (ℕ × Event))
    → copies seq (run tm es).0.transactions ≤ submitted seq es + copies seq tm.transactions
unfolding run submitted set_callback on_mo
run-copies seq tm [] = omega arith
run-copies seq tm ((now, sets_callback) ∷ es) = run-copies seq (record tm { callback = true }) es
run-copies seq tm ((now, submits info) ∷ es) =
    omega (arith, run-copies seq (add_submit_transaction tm info) es, copies-add seq tm info)
run-copies seq tm ((now, resp n mid result) ∷ es) = omega (
  arith,
  run-copies seq (on_submit_resp tm n mid result now).0 es,
  copies-on_submit_resp seq tm n mid result now,
)
run-copies seq tm ((now, report r) ∷ es) =
    omega (arith, run-copies seq (on_report tm r now).0 es, copies-on_report seq tm r now)
run-copies seq tm ((now, fails n error) ∷ es) =
    omega
      (arith, run-copies seq (on_send_failed tm n error).0 es, copies-on_send_failed seq tm n error)
run-copies seq tm ((now, mo m) ∷ es) = run-copies seq tm es
run-copies seq tm ((now, checks) ∷ es) =
    omega (arith, run-copies seq (check_timeouts tm now).0 es, copies-check_timeouts seq tm now)

-- After any sequence of calls on a new manager, each submit having started without a message id: no
-- sequence number has more transactions than submits were made with it, so a response moves its
-- transaction and does not double it; no key stands twice; and a transaction stands under its sequence
-- number until it has a message id, and under that id, as responded, from then on.
pub run-new-IsKeyed :
    (limit : ℕ) (es : List (ℕ × Event))
    → Fresh es
    → IsKeyed (run (new limit) es).0
      × ((seq : ℕ) → copies seq (run (new limit) es).0.transactions ≤ submitted seq es)
run-new-IsKeyed limit es f = (
  run-IsKeyed (new limit) es f (new-IsKeyed limit),
  λ seq. omega (arith, run-copies seq (new limit) es, none_new seq),
)
  where
    none_new : (seq : ℕ) → copies seq (new limit).transactions ≡ 0
    none_new seq = unfold new copies in refl
