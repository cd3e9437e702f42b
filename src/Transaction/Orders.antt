-- ===== src/Transaction/Orders.antt =====
-- A report may come before the response of its submit: both orders end alike.
use rsms.Common.{
  ℕ, ◌≡◌, ◌≢◌, refl, sym, ap, ◌∙◌, ◌||◌, none, some, List, [], ◌∷◌, ◌++◌, append-nil, if◌then◌else◌,
  ◌==◌, arith,
}
use rsms.Common.Classes.{bytes_eq, nat_eq, list_beq}
use rsms.Common.Decimal.{to_string}
use rsms.Common.Dict.{
  lookup, insert, remove, lookup-insert, lookup-remove, lookup-insert_self, lookup-insert_ne,
}
use rsms.Transaction.{
  TransactionManager, TransactionEntry, SubmitInfo, ReportInfo, Callback, pending, report_matched,
  call, resp_callback, responded, add_submit_transaction, rekey, remove_own,
}
use rsms.Transaction.Keys.{IsKeyed, add-IsKeyed}
use rsms.Transaction.History.{submits, resp, report, run}
use rsms.Transaction.Lifecycle.{
  settled, report_found, report_stashed, resp_quiet, resp_flush, lookup-rekey,
}

-- A submit that is not yet known, and the message id that its response will bring.
pub record IsNewSubmit (tm : TransactionManager) (info : SubmitInfo) (mid : List ℕ) : Type 0 where
  pub keyed : IsKeyed tm
  pub fresh : info.msg_id ≡ none
  pub apart : mid ≢ to_string info.sequence_id
  pub id_free : lookup mid tm.transactions ≡ none
  pub no_report : lookup mid tm.pending_reports ≡ none

-- The submit as its report finds it.
abbrev pub answered : SubmitInfo → List ℕ → SubmitInfo
answered info mid = record info { msg_id = some mid }

-- The transactions of `tm` but those under the message id and the sequence number of the submit.
abbrev pub Without : TransactionManager → SubmitInfo → List ℕ → TransactionManager → Type 0
Without tm info mid tm' =
    (k : List ℕ)
    → lookup k tm'.transactions ≡ (
        if list_beq ◌==◌ mid k || list_beq ◌==◌ (to_string info.sequence_id) k
        then none
        else lookup k tm.transactions)

module _ (tm : TransactionManager) (info : SubmitInfo) (result : ℕ) (r : ReportInfo)
    (new : IsNewSubmit tm info r.msg_id) where
  added_held :
      lookup (to_string info.sequence_id) (add_submit_transaction tm info).transactions
      ≡ some (record { info = info; status = pending })
  unfolding add_submit_transaction
  added_held = lookup-insert_self (to_string info.sequence_id) _ tm.transactions

  added_free : lookup r.msg_id (add_submit_transaction tm info).transactions ≡ none
  unfolding add_submit_transaction
  added_free =
      lookup-insert_ne (to_string info.sequence_id) r.msg_id _ tm.transactions
        (λ e. new.apart (sym e))
      ∙ new.id_free

  -- What a report leaves of a manager whose transactions and callback are those after the submit.
  settled-Without :
      (m : TransactionManager) (tx : TransactionEntry)
      → m.transactions ≡ (add_submit_transaction tm info).transactions
      → Without tm info r.msg_id
          (settled (rekey m info.sequence_id r.msg_id tx) (responded tx r.msg_id))
  unfolding rekey remove_own add_submit_transaction
  settled-Without m tx e k = rw e (
      ground (
        arith,
        lookup-remove r.msg_id k (
            remove (to_string info.sequence_id) (
              insert r.msg_id (responded tx r.msg_id) (
                insert (to_string info.sequence_id) (record { info = info; status = pending })
                  tm.transactions))),
        lookup-remove (to_string info.sequence_id) k (
            insert r.msg_id (responded tx r.msg_id) (
              insert (to_string info.sequence_id) (record { info = info; status = pending })
                tm.transactions)),
        lookup-insert r.msg_id k (responded tx r.msg_id) (
            insert (to_string info.sequence_id) (record { info = info; status = pending })
              tm.transactions),
        lookup-insert (to_string info.sequence_id) k (record { info = info; status = pending })
            tm.transactions,
      ))

  start : TransactionEntry
  start = record { info = info; status = pending }

  -- The callbacks of both orders: the response's, then the report's.
  abbrev pub expected : List Callback
  expected =
      resp_callback tm (answered info r.msg_id) result
      ++ call tm (report_matched r (answered info r.msg_id))

  resp_first :
      (t0 t1 t2 : ℕ)
      → run tm (
          (t0, submits info)
          ∷ (t1, resp info.sequence_id (some r.msg_id) result)
          ∷ (t2, report r)
          ∷ [])
        ≡ (
          settled
              (rekey (add_submit_transaction tm info) info.sequence_id r.msg_id start)
              (responded start r.msg_id),
          expected,
        )
  unfolding run start
  resp_first t0 t1 t2 =
      let tm1 = add_submit_transaction tm info in
      let quiet : lookup r.msg_id tm1.pending_reports ≡ none =
        unfold add_submit_transaction in new.no_report in
      let known : lookup r.msg_id (rekey tm1 info.sequence_id r.msg_id start).transactions
          ≡ some (responded start r.msg_id) =
        (lookup-rekey tm1 info.sequence_id r.msg_id start new.apart) in
      rw
        (
          resp_quiet tm1 info.sequence_id r.msg_id start added_held result t1 quiet,
          report_found (rekey tm1 info.sequence_id r.msg_id start) r t2 (responded start r.msg_id)
              known,
          append-nil,
        )
        (unfold add_submit_transaction rekey in refl)

  report_first :
      (t0 t1 t2 : ℕ)
      → let tm1 = add_submit_transaction tm info in
        let tm2 = record tm1 { pending_reports = insert r.msg_id (r, t1) tm1.pending_reports } in
        run tm (
          (t0, submits info)
          ∷ (t1, report r)
          ∷ (t2, resp info.sequence_id (some r.msg_id) result)
          ∷ [])
        ≡ (
          settled
              (record (rekey tm2 info.sequence_id r.msg_id start) {
                pending_reports = remove r.msg_id tm2.pending_reports;
              })
              (responded start r.msg_id),
          expected,
        )
  unfolding run start
  report_first t0 t1 t2 =
      let tm1 = add_submit_transaction tm info in
      let tm2 = record tm1 { pending_reports = insert r.msg_id (r, t1) tm1.pending_reports } in
      let stashed : lookup r.msg_id tm2.pending_reports ≡ some (r, t1) =
        lookup-insert_self r.msg_id (r, t1) tm1.pending_reports in
      let tm3 = record (rekey tm2 info.sequence_id r.msg_id start) {
        pending_reports = remove r.msg_id tm2.pending_reports;
      } in
      let known : lookup r.msg_id tm3.transactions ≡ some (responded start r.msg_id) =
        lookup-rekey tm2 info.sequence_id r.msg_id start new.apart in
      rw
        (
          report_stashed tm1 r t1 (add-IsKeyed tm info new.fresh new.keyed) added_free,
          resp_flush tm2 info.sequence_id r.msg_id start added_held r t1 result t2 stashed,
          report_found tm3 r t2 (responded start r.msg_id) known,
          append-nil,
        )
        (unfold add_submit_transaction rekey in refl)

  -- The response first or the report first: a submit that the manager does not know, under a message
  -- id that is free, differs from the text of its sequence number and has no report waiting, gets
  -- the callback of its response and then the one of its report, each once, in both orders. Both
  -- orders leave all other transactions as they were and none of the submit.
  pub either_order :
      (t0 t1 t2 : ℕ)
      → let in_order = run tm (
          (t0, submits info)
          ∷ (t1, resp info.sequence_id (some r.msg_id) result)
          ∷ (t2, report r)
          ∷ []) in
        let out_of_order = run tm (
          (t0, submits info)
          ∷ (t1, report r)
          ∷ (t2, resp info.sequence_id (some r.msg_id) result)
          ∷ []) in
        (in_order.1 ≡ expected)
        × (out_of_order.1 ≡ expected)
        × Without tm info r.msg_id in_order.0
        × Without tm info r.msg_id out_of_order.0
  either_order t0 t1 t2 =
      let tm1 = add_submit_transaction tm info in
      let tm2 = record tm1 { pending_reports = insert r.msg_id (r, t1) tm1.pending_reports } in
      (
        ap (λ s. s.1) (resp_first t0 t1 t2),
        ap (λ s. s.1) (report_first t0 t1 t2),
        rw (resp_first t0 t1 t2) (settled-Without tm1 start refl),
        rw (report_first t0 t1 t2) (settled-Without tm2 start refl),
      )
