-- ===== src/Transaction/Collisions.antt =====
-- Sequence numbers and message ids are keys of one table: what happens when their texts agree.
use rsms.Common.{ℕ, ◌≡◌, ◌≢◌, ap, ◌∙◌, none, some, []}
use rsms.Common.Classes.{bytes_eq}
use rsms.Common.Decimal.{to_string, to_string_injective}
use rsms.Common.Dict.{lookup, insert, lookup-insert_self, lookup-remove_self, lookup-remove_ne}
use rsms.Transaction.{
  TransactionManager, TransactionEntry, ReportInfo, on_report, on_submit_resp, rekey, responded,
}
use rsms.Transaction.Keys.{IsKeyed, rekey-IsKeyed}
use rsms.Transaction.Lifecycle.{report_stashed, resp_quiet}

-- A response whose message id is the text of its own sequence number removes the transaction: the
-- later report of that id finds nothing and makes no callback.
pub resp_own_key :
    (tm : TransactionManager) (seq : ℕ) (tx : TransactionEntry) (result now : ℕ) (r : ReportInfo)
    (later : ℕ)
    → IsKeyed tm
    → lookup (to_string seq) tm.transactions ≡ some tx
    → lookup (to_string seq) tm.pending_reports ≡ none
    → r.msg_id ≡ to_string seq
    → let tm' = (on_submit_resp tm seq (some (to_string seq)) result now).0 in
      (lookup (to_string seq) tm'.transactions ≡ none) × ((on_report tm' r later).1 ≡ [])
resp_own_key tm seq tx result now r later keyed held quiet same =
    let tm' = rekey tm seq (to_string seq) tx in
    let gone : lookup (to_string seq) tm'.transactions ≡ none =
      unfold rekey in
      lookup-remove_self (to_string seq)
        (insert (to_string seq) (responded tx (to_string seq)) tm.transactions) in
    let silent =
      report_stashed tm' r later (rekey-IsKeyed tm seq (to_string seq) tx keyed) (rw same gone) in
    rw (resp_quiet tm seq (to_string seq) tx held result now quiet) (gone, ap (λ s. s.1) silent)

-- A response whose message id is the text of another submit's sequence number takes that submit's
-- place in the table, whatever stood there.
pub resp_other_key :
    (tm : TransactionManager) (seq other : ℕ) (tx lost : TransactionEntry) (result now : ℕ)
    → seq ≢ other
    → lookup (to_string seq) tm.transactions ≡ some tx
    → lookup (to_string other) tm.transactions ≡ some lost
    → lookup (to_string other) tm.pending_reports ≡ none
    → lookup
        (to_string other)
        (on_submit_resp tm seq (some (to_string other)) result now).0.transactions
      ≡ some (responded tx (to_string other))
resp_other_key tm seq other tx lost result now apart held there quiet =
    rw (resp_quiet tm seq (to_string other) tx held result now quiet) (
      unfold rekey in
      lookup-remove_ne (to_string seq) (to_string other)
        (insert (to_string other) (responded tx (to_string other)) tm.transactions)
        (λ e. apart (to_string_injective seq other e))
      ∙ lookup-insert_self (to_string other) (responded tx (to_string other)) tm.transactions)
