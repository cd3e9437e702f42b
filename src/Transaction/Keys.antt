-- ===== src/Transaction/Keys.antt =====
-- Under which keys a manager holds its transactions, and what follows for the lookup of reports.
use Prim.Native.String.{String}
use rsms.Common.{
  ℕ, ◌≡◌, refl, sym, ◌∙◌, Option, none, some, List, [], ◌∷◌, inl, inr, ◌==◌, All, Option-cases,
  Bool-cases,
}
use rsms.Common.Classes.{bytes_eq, nat_eq, list_beq, list_beq_iff}
use rsms.Common.Decimal.{to_string}
use rsms.Common.Dict.{
  lookup, insert, remove, All-insert, All-remove, All-lookup, Unique, Unique-insert, Unique-remove,
}
use rsms.Transaction.{
  TransactionManager, TransactionEntry, TransactionStatus, SubmitInfo, ReportInfo, pending,
  resp_received, new, add_submit_transaction, scan, find_transaction, on_report, on_submit_resp,
  rekey, flush, remove_own, on_send_failed, check_timeouts, keys_where, is_overdue, remove_all,
  responded,
}

-- Without a message id the key is the sequence number; with one it is that id, and the response
-- has come.
abbrev pub KeyFits : List ℕ → ℕ → TransactionStatus → Option (List ℕ) → Type 0
KeyFits k seq status none = k ≡ to_string seq
KeyFits k seq status (some mid) = (k ≡ mid) × (status ≡ resp_received)

abbrev pub EntryFits : List ℕ × TransactionEntry → Type 0
EntryFits (k, e) = KeyFits k e.info.sequence_id e.status e.info.msg_id

pub record IsKeyed (tm : TransactionManager) : Type 0 where
  pub fits : All EntryFits tm.transactions
  pub unique : Unique tm.transactions

own_key :
    (k : List ℕ) (e : TransactionEntry) (mid : List ℕ)
    → EntryFits (k, e)
    → e.info.msg_id ≡ some mid
    → k ≡ mid
own_key k e mid h q = go e.info.msg_id refl h
  where
    go :
        (o : Option (List ℕ))
        → e.info.msg_id ≡ o
        → KeyFits k e.info.sequence_id e.status o
        → k ≡ mid
    go none p f = cc
    go (some own) p f = f.0 ∙ cc

scan-none :
    (id : List ℕ) (txs : List (List ℕ × TransactionEntry)) (seqs : List (ℕ × List ℕ))
    → All EntryFits txs
    → lookup id txs ≡ none
    → scan id txs seqs ≡ none
unfolding scan
scan-none id txs [] h missing = refl
scan-none id txs ((seq, mid) ∷ seqs) h missing = elim (Option-cases (lookup mid txs)) [
  | inl e ↦ rw (e, scan) (scan-none id txs seqs h missing)
  | inr (tx, e) ↦ elim (Option-cases tx.info.msg_id) [
    | inl q ↦ rw (e, scan) (rw q (scan-none id txs seqs h missing))
    | inr (own, q) ↦ elim (Bool-cases (list_beq ◌==◌ own id)) [
      | inl hit ↦
          let same : mid ≡ id =
            own_key mid tx own (All-lookup EntryFits mid tx txs h e) q
            ∙ (list_beq_iff own id).0 hit in
          absurd (let clash : some tx ≡ none = sym e ∙ rw same missing in cc)
      | inr miss ↦ rw (e, scan) (rw (q, miss) (scan-none id txs seqs h missing))
    ]
  ]
]

-- In a manager that is keyed so, the scan of `seq_to_msg_id` adds nothing to the direct lookup of a
-- report's message id.
pub find_transaction-lookup :
    (tm : TransactionManager) (id : List ℕ)
    → IsKeyed tm
    → find_transaction tm id ≡ lookup id tm.transactions
unfolding find_transaction
find_transaction-lookup tm id h = elim (Option-cases (lookup id tm.transactions)) [
  | inl e ↦ rw (e, find_transaction) (scan-none id tm.transactions tm.seq_to_msg_id h.fits e)
  | inr (tx, e) ↦ rw (e, find_transaction)
]

pub new-IsKeyed : (limit : ℕ) → IsKeyed (new limit)
unfolding new
new-IsKeyed limit = record { fits = tt; unique = tt }

pub add-IsKeyed :
    (tm : TransactionManager) (info : SubmitInfo)
    → info.msg_id ≡ none
    → IsKeyed tm
    → IsKeyed (add_submit_transaction tm info)
unfolding add_submit_transaction
add-IsKeyed tm info fresh h = record {
  fits =
      All-insert EntryFits (to_string info.sequence_id) (record { info = info; status = pending })
        tm.transactions (rw fresh refl) h.fits;
  unique = Unique-insert (to_string info.sequence_id) _ tm.transactions h.unique;
}

remove_own-IsKeyed :
    (id : Option (List ℕ)) (tm : TransactionManager)
    → IsKeyed tm
    → All EntryFits (remove_own id tm.transactions) × Unique (remove_own id tm.transactions)
unfolding remove_own
remove_own-IsKeyed none tm h = (h.fits, h.unique)
remove_own-IsKeyed (some mid) tm h =
    (All-remove EntryFits mid tm.transactions h.fits, Unique-remove mid tm.transactions h.unique)

pub on_report-IsKeyed :
    (tm : TransactionManager) (report : ReportInfo) (now : ℕ)
    → IsKeyed tm
    → IsKeyed (on_report tm report now).0
unfolding on_report
on_report-IsKeyed tm report now h = elim (Option-cases (find_transaction tm report.msg_id)) [
  | inl e ↦ rw (e, on_report) (record { fits = h.fits; unique = h.unique })
  | inr (entry, e) ↦
      let (fits, unique) = remove_own-IsKeyed entry.info.msg_id tm h in
      rw (e, on_report) (record { fits = fits; unique = unique })
]

pub rekey-IsKeyed :
    (tm : TransactionManager) (seq : ℕ) (mid : List ℕ) (tx : TransactionEntry)
    → IsKeyed tm
    → IsKeyed (rekey tm seq mid tx)
unfolding rekey
rekey-IsKeyed tm seq mid tx h =
    let placed = insert mid (responded tx mid) tm.transactions in
    record {
      fits =
          All-remove EntryFits (to_string seq) placed
            (All-insert EntryFits mid (responded tx mid) tm.transactions (refl, refl) h.fits);
      unique =
          Unique-remove (to_string seq) placed
            (Unique-insert mid (responded tx mid) tm.transactions h.unique);
    }

flush-IsKeyed :
    (tm : TransactionManager) (mid : List ℕ) (now : ℕ) → IsKeyed tm → IsKeyed (flush tm mid now).0
unfolding flush
flush-IsKeyed tm mid now h = elim (Option-cases (lookup mid tm.pending_reports)) [
  | inl e ↦ rw (e, flush) h
  | inr ((report, at), e) ↦
      rw (e, flush)
        (on_report-IsKeyed (record tm { pending_reports = remove mid tm.pending_reports }) report
          now (record { fits = h.fits; unique = h.unique }))
]

status_fits :
    (k : List ℕ) (e : TransactionEntry)
    → EntryFits (k, e)
    → EntryFits (k, record { info = e.info; status = resp_received })
status_fits k e h = go e.info.msg_id h
  where
    go :
        (o : Option (List ℕ))
        → KeyFits k e.info.sequence_id e.status o
        → KeyFits k e.info.sequence_id resp_received o
    go none f = f
    go (some mid) f = (f.0, refl)

pub on_submit_resp-IsKeyed :
    (tm : TransactionManager) (seq : ℕ) (mid : Option (List ℕ)) (result now : ℕ)
    → IsKeyed tm
    → IsKeyed (on_submit_resp tm seq mid result now).0
unfolding on_submit_resp
on_submit_resp-IsKeyed tm seq none result now h =
    elim (Option-cases (lookup (to_string seq) tm.transactions)) [
      | inl e ↦ rw (e, on_submit_resp) h
      | inr (tx, e) ↦
          rw (e, on_submit_resp)
            (record {
              fits =
                  All-insert EntryFits (to_string seq) _ tm.transactions
                    (status_fits (to_string seq) tx
                      (All-lookup EntryFits _ tx tm.transactions h.fits e))
                    h.fits;
              unique = Unique-insert (to_string seq) _ tm.transactions h.unique;
            })
    ]
on_submit_resp-IsKeyed tm seq (some mid) result now h =
    elim (Option-cases (lookup (to_string seq) tm.transactions)) [
      | inl e ↦ rw (e, on_submit_resp) h
      | inr (tx, e) ↦
          rw (e, on_submit_resp)
            (flush-IsKeyed (rekey tm seq mid tx) mid now (rekey-IsKeyed tm seq mid tx h))
    ]

pub on_send_failed-IsKeyed :
    (tm : TransactionManager) (seq : ℕ) (error : String)
    → IsKeyed tm
    → IsKeyed (on_send_failed tm seq error).0
unfolding on_send_failed
on_send_failed-IsKeyed tm seq error h =
    elim (Option-cases (lookup (to_string seq) tm.transactions)) [
      | inl e ↦ rw (e, on_send_failed) h
      | inr (tx, e) ↦
          rw (e, on_send_failed)
            (record {
              fits = All-remove EntryFits (to_string seq) tm.transactions h.fits;
              unique = Unique-remove (to_string seq) tm.transactions h.unique;
            })
    ]

remove_all-fits :
    (ks : List (List ℕ)) (m : List (List ℕ × TransactionEntry))
    → All EntryFits m
    → Unique m
    → All EntryFits (remove_all ks m) × Unique (remove_all ks m)
unfolding remove_all
remove_all-fits [] m f u = (f, u)
remove_all-fits (k ∷ ks) m f u =
    remove_all-fits ks (remove k m) (All-remove EntryFits k m f) (Unique-remove k m u)

pub check_timeouts-IsKeyed :
    (tm : TransactionManager) (now : ℕ) → IsKeyed tm → IsKeyed (check_timeouts tm now).0
unfolding check_timeouts
check_timeouts-IsKeyed tm now h =
    let (fits, unique) =
      remove_all-fits (keys_where (is_overdue now tm.resp_timeout) tm.transactions) tm.transactions
        h.fits h.unique in
    record { fits = fits; unique = unique }
