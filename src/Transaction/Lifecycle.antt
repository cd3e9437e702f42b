-- ===== src/Transaction/Lifecycle.antt =====
-- A submit, its response and its report, in either order of the last two.
use rsms.Common.{ℕ, ◌≡◌, ◌≢◌, refl, sym, ◌∙◌, none, some, List, [], ◌++◌, append-nil}
use rsms.Common.Classes.{bytes_eq, nat_eq}
use rsms.Common.Decimal.{to_string}
use rsms.Common.Dict.{lookup, insert, remove, lookup-insert_self, lookup-remove_ne}
use rsms.Transaction.{
  TransactionManager, TransactionEntry, ReportInfo, report_matched, call, resp_callback, responded,
  find_transaction, on_report, on_submit_resp, rekey, flush, remove_own,
}
use rsms.Transaction.Keys.{IsKeyed, find_transaction-lookup}

pub find_direct :
    (tm : TransactionManager) (id : List ℕ) (tx : TransactionEntry)
    → lookup id tm.transactions ≡ some tx
    → find_transaction tm id ≡ some tx
unfolding find_transaction
find_direct tm id tx e = rw (e, find_transaction)

-- What a report leaves of a manager that has its transaction.
abbrev pub settled : TransactionManager → TransactionEntry → TransactionManager
settled tm tx = record tm {
  transactions = remove_own tx.info.msg_id tm.transactions;
  seq_to_msg_id = remove tx.info.sequence_id tm.seq_to_msg_id;
}

pub report_found :
    (tm : TransactionManager) (r : ReportInfo) (now : ℕ) (tx : TransactionEntry)
    → lookup r.msg_id tm.transactions ≡ some tx
    → on_report tm r now ≡ (settled tm tx, call tm (report_matched r tx.info))
unfolding on_report
report_found tm r now tx e = rw (find_direct tm r.msg_id tx e, on_report)

pub report_stashed :
    (tm : TransactionManager) (r : ReportInfo) (now : ℕ)
    → IsKeyed tm
    → lookup r.msg_id tm.transactions ≡ none
    → on_report tm r now
      ≡ (record tm { pending_reports = insert r.msg_id (r, now) tm.pending_reports }, [])
unfolding on_report
report_stashed tm r now h e =
    let missing = find_transaction-lookup tm r.msg_id h ∙ e in rw (missing, on_report)

module _ (tm : TransactionManager) (seq : ℕ) (mid : List ℕ) (tx : TransactionEntry)
    (held : lookup (to_string seq) tm.transactions ≡ some tx) where
  pub resp_quiet :
      (result now : ℕ)
      → lookup mid tm.pending_reports ≡ none
      → on_submit_resp tm seq (some mid) result now
        ≡ (rekey tm seq mid tx, resp_callback tm (responded tx mid).info result)
  unfolding on_submit_resp flush
  resp_quiet result now e =
      let quiet : lookup mid (rekey tm seq mid tx).pending_reports ≡ none = unfold rekey in e in
      rw (held, on_submit_resp) (rw (quiet, flush) (rw append-nil))

  pub resp_flush :
      (r : ReportInfo) (at result now : ℕ)
      → lookup mid tm.pending_reports ≡ some (r, at)
      → let tm' = record (rekey tm seq mid tx) {
        pending_reports = remove mid tm.pending_reports;
      } in
        on_submit_resp tm seq (some mid) result now ≡ (
          (on_report tm' r now).0,
          resp_callback tm (responded tx mid).info result ++ (on_report tm' r now).1,
        )
  unfolding on_submit_resp flush
  resp_flush r at result now e =
      let stashed : lookup mid (rekey tm seq mid tx).pending_reports ≡ some (r, at) =
        unfold rekey in e in
      rw (held, on_submit_resp) (rw (stashed, flush) (unfold rekey in refl))

pub lookup-rekey :
    (tm : TransactionManager) (seq : ℕ) (mid : List ℕ) (tx : TransactionEntry)
    → mid ≢ to_string seq
    → lookup mid (rekey tm seq mid tx).transactions ≡ some (responded tx mid)
unfolding rekey
lookup-rekey tm seq mid tx apart =
    lookup-remove_ne (to_string seq) mid (insert mid (responded tx mid) tm.transactions)
      (λ e. apart (sym e))
    ∙ lookup-insert_self mid (responded tx mid) tm.transactions
