-- ===== src/Transaction/Tests.antt =====
-- The transaction theorems at concrete calls.
use rsms.Common.{ℕ, ◌≤◌, ◌≡◌, refl, true, if◌then◌else◌, none, some, List, [], ◌∷◌, map}
use rsms.Common.Classes.{bytes_eq}
use rsms.Common.Decimal.{to_string}
use rsms.Common.Dict.{lookup}
use rsms.Transaction.{
  TransactionManager, TransactionEntry, SubmitInfo, ReportInfo, pending, new, submit_resp_timeout,
  on_submit_resp, on_report, check_timeouts,
}
use rsms.Transaction.Keys.{IsKeyed}
use rsms.Transaction.History.{Event, submits, resp, report, checks, submitted, run, run-new-IsKeyed}
use rsms.Transaction.Copies.{copies}
use rsms.Transaction.Orders.{IsNewSubmit, Without, expected, either_order}
use rsms.Transaction.Collisions.{resp_own_key}
use rsms.Transaction.Timeouts.{Checked, check_timeouts_exact}

abbrev submit_of : ℕ → ℕ → SubmitInfo
submit_of seq at = record {
  sequence_id = seq;
  msg_id = none;
  dest_id = b'1' ∷ [];
  src_id = b'2' ∷ [];
  content = b'h' ∷ b'i' ∷ [];
  protocol = "cmpp";
  submit_time = at;
}

abbrev entry_of : ℕ → ℕ → TransactionEntry
entry_of seq at = record { info = submit_of seq at; status = pending }

-- A manager with a callback and two submits under way, 5 and 7.
abbrev manager : TransactionManager
manager = record {
  transactions = (b'5' ∷ [], entry_of 5 100) ∷ (b'7' ∷ [], entry_of 7 900) ∷ [];
  seq_to_msg_id = [];
  pending_reports = [];
  resp_timeout = 500;
  callback = true;
}

manager-IsKeyed : IsKeyed manager
unfolding to_string lookup
manager-IsKeyed = record { fits = (refl, (refl, tt)); unique = (refl, (refl, tt)) }

abbrev report_of : List ℕ → ReportInfo
report_of mid = record { msg_id = mid; src_terminal_id = b'1' ∷ []; stat = b'D' ∷ [] }

abbrev id : List ℕ
id = b'a' ∷ b'9' ∷ []

new_submit : IsNewSubmit manager (submit_of 8 950) id
unfolding to_string lookup
new_submit = record {
  keyed = manager-IsKeyed;
  fresh = refl;
  apart = λ e. cc;
  id_free = refl;
  no_report = refl;
}

either_order_example :
    let in_order = run manager (
      (1000, submits (submit_of 8 950))
      ∷ (1010, resp 8 (some id) 0)
      ∷ (1020, report (report_of id))
      ∷ []) in
    let out_of_order = run manager (
      (1000, submits (submit_of 8 950))
      ∷ (1010, report (report_of id))
      ∷ (1020, resp 8 (some id) 0)
      ∷ []) in
    (in_order.1 ≡ expected manager (submit_of 8 950) 0 (report_of id) new_submit)
    × (out_of_order.1 ≡ expected manager (submit_of 8 950) 0 (report_of id) new_submit)
    × Without manager (submit_of 8 950) id in_order.0
    × Without manager (submit_of 8 950) id out_of_order.0
either_order_example =
    either_order manager (submit_of 8 950) 0 (report_of id) new_submit 1000 1010 1020

abbrev calls : List (ℕ × Event)
calls =
    (1, submits (submit_of 3 1))
    ∷ (2, resp 3 (some id) 0)
    ∷ (900, checks)
    ∷ (901, report (report_of id))
    ∷ []

run-new-IsKeyed_example :
    IsKeyed (run (new 500) calls).0
    × ((seq : ℕ) → copies seq (run (new 500) calls).0.transactions ≤ submitted seq calls)
run-new-IsKeyed_example = run-new-IsKeyed 500 calls (refl, tt)

-- At 700 the first submit is overdue and the second is not.
check_timeouts_exact_example :
    (infos : List SubmitInfo) × Checked 500 700 manager.transactions
      (check_timeouts manager 700).0.transactions
      infos
    × ((check_timeouts manager 700).1 ≡ (if true then map submit_resp_timeout infos else []))
check_timeouts_exact_example = check_timeouts_exact manager 700 manager-IsKeyed

resp_own_key_example :
    let tm' = (on_submit_resp manager 5 (some (to_string 5)) 0 200).0 in
    (lookup (to_string 5) tm'.transactions ≡ none)
    × ((on_report tm' (report_of (to_string 5)) 300).1 ≡ [])
unfolding to_string lookup
resp_own_key_example =
    resp_own_key manager 5 (entry_of 5 100) 0 200 (report_of (to_string 5)) 300 manager-IsKeyed refl
      refl refl
