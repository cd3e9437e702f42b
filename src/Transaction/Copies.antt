-- ===== src/Transaction/Copies.antt =====
-- How many transactions a manager holds of one sequence number: no call but a submit adds one.
use Prim.Native.String.{String}
use rsms.Common.{
  ℕ, ◌+◌, ◌≤◌, ◌≡◌, refl, ap, ◌∙◌, Option, none, some, List, [], ◌∷◌, inl, inr, ◌==◌, if◌then◌else◌,
  Option-cases, Bool-cases, arith,
}
use rsms.Common.Classes.{bytes_eq}
use rsms.Common.Decimal.{to_string}
use rsms.Common.Dict.{lookup, insert, remove, lookup-insert}
use rsms.Transaction.{
  TransactionManager, TransactionEntry, SubmitInfo, ReportInfo, add_submit_transaction,
  find_transaction, on_report, on_submit_resp, rekey, flush, remove_own, on_send_failed,
  check_timeouts, keys_where, is_overdue, remove_all, responded,
}

unfoldable pub same : ℕ → ℕ → ℕ
same i j = if i == j then 1 else 0

-- The transactions with a sequence number.
unfoldable pub copies : ℕ → List (List ℕ × TransactionEntry) → ℕ
unfolding same
copies seq [] = 0
copies seq ((k, e) ∷ m) = same e.info.sequence_id seq + copies seq m

module _ (seq : ℕ) where
  copies-insert_le :
      (k : List ℕ) (e : TransactionEntry) (m : List (List ℕ × TransactionEntry))
      → copies seq (insert k e m) ≤ same e.info.sequence_id seq + copies seq m
  unfolding copies insert
  copies-insert_le k e [] = omega arith
  copies-insert_le k e ((j, d) ∷ m) = elim (Bool-cases (bytes_eq.beq j k)) [
    | inl hit ↦ rw hit (omega arith)
    | inr miss ↦ rw miss (omega (arith, copies-insert_le k e m))
  ]

  copies-remove_le :
      (k : List ℕ) (m : List (List ℕ × TransactionEntry)) → copies seq (remove k m) ≤ copies seq m
  unfolding copies remove
  copies-remove_le k [] = omega arith
  copies-remove_le k ((j, d) ∷ m) = elim (Bool-cases (bytes_eq.beq j k)) [
    | inl hit ↦ rw hit (omega (arith, copies-remove_le k m))
    | inr miss ↦ rw miss (omega (arith, copies-remove_le k m))
  ]

  -- The entry that is found is one of those that are removed.
  copies-remove :
      (k : List ℕ) (e : TransactionEntry) (m : List (List ℕ × TransactionEntry))
      → lookup k m ≡ some e
      → same e.info.sequence_id seq + copies seq (remove k m) ≤ copies seq m
  unfolding copies remove lookup
  copies-remove k e [] found = cc
  copies-remove k e ((j, d) ∷ m) found = elim (Bool-cases (bytes_eq.beq j k)) [
    | inl hit ↦
        let value : some d ≡ some e = rw hit at found in
        let own : d ≡ e = cc in rw (hit, own) (omega (arith, copies-remove_le k m))
    | inr miss ↦ rw miss (omega (arith, copies-remove k e m (rw miss at found)))
  ]

  -- The entry that is found is replaced by one with its sequence number.
  copies-insert :
      (k : List ℕ) (d e : TransactionEntry) (m : List (List ℕ × TransactionEntry))
      → lookup k m ≡ some d
      → e.info.sequence_id ≡ d.info.sequence_id
      → copies seq (insert k e m) ≤ copies seq m
  unfolding copies insert lookup
  copies-insert k d e [] found h = cc
  copies-insert k d e ((j, c) ∷ m) found h = elim (Bool-cases (bytes_eq.beq j k)) [
    | inl hit ↦
        let value : some c ≡ some d = rw hit at found in
        let own : c ≡ d = cc in rw (hit, own, h) (omega arith)
    | inr miss ↦ rw miss (omega (arith, copies-insert k d e m (rw miss at found) h))
  ]

  pub copies-add :
      (tm : TransactionManager) (info : SubmitInfo)
      → copies seq (add_submit_transaction tm info).transactions
        ≤ same info.sequence_id seq + copies seq tm.transactions
  unfolding add_submit_transaction
  copies-add tm info = copies-insert_le (to_string info.sequence_id) _ tm.transactions

  copies-remove_own :
      (id : Option (List ℕ)) (m : List (List ℕ × TransactionEntry))
      → copies seq (remove_own id m) ≤ copies seq m
  unfolding remove_own
  copies-remove_own none m = omega arith
  copies-remove_own (some mid) m = copies-remove_le mid m

  pub copies-on_report :
      (tm : TransactionManager) (r : ReportInfo) (now : ℕ)
      → copies seq (on_report tm r now).0.transactions ≤ copies seq tm.transactions
  unfolding on_report
  copies-on_report tm r now = elim (Option-cases (find_transaction tm r.msg_id)) [
    | inl e ↦ rw (e, on_report) (omega arith)
    | inr (entry, e) ↦ rw (e, on_report) (copies-remove_own entry.info.msg_id tm.transactions)
  ]

  -- What is found under the old key once the transaction stands under its message id as well.
  still_found :
      (k mid : List ℕ) (tx : TransactionEntry) (m : List (List ℕ × TransactionEntry))
      → lookup k m ≡ some tx
      → (e : TransactionEntry) × (lookup k (insert mid (responded tx mid) m) ≡ some e)
        × (e.info.sequence_id ≡ tx.info.sequence_id)
  still_found k mid tx m found = elim (Bool-cases (bytes_eq.beq mid k)) [
    | inl q ↦ (responded tx mid, lookup-insert mid k (responded tx mid) m ∙ rw q refl, refl)
    | inr q ↦ (tx, lookup-insert mid k (responded tx mid) m ∙ rw q found, refl)
  ]

  copies-rekey :
      (tm : TransactionManager) (n : ℕ) (mid : List ℕ) (tx : TransactionEntry)
      → lookup (to_string n) tm.transactions ≡ some tx
      → copies seq (rekey tm n mid tx).transactions ≤ copies seq tm.transactions
  unfolding rekey
  copies-rekey tm n mid tx found =
      let placed = insert mid (responded tx mid) tm.transactions in
      let (e, there, own) = still_found (to_string n) mid tx tm.transactions found in
      let left : same e.info.sequence_id seq + copies seq (remove (to_string n) placed)
          ≤ copies seq placed =
        copies-remove (to_string n) e placed there in
      let more : copies seq placed ≤ same tx.info.sequence_id seq + copies seq tm.transactions =
        copies-insert_le mid (responded tx mid) tm.transactions in
      cancel own left more
    where
      cancel : {i j a b c : ℕ} → i ≡ j → same i seq + a ≤ b → b ≤ same j seq + c → a ≤ c
      cancel e left more = let alike = ap (λ (n : ℕ). same n seq) e in omega (arith, alike)

  copies-flush :
      (tm : TransactionManager) (mid : List ℕ) (now : ℕ)
      → copies seq (flush tm mid now).0.transactions ≤ copies seq tm.transactions
  unfolding flush
  copies-flush tm mid now = elim (Option-cases (lookup mid tm.pending_reports)) [
    | inl e ↦ rw (e, flush) (omega arith)
    | inr ((r, at), e) ↦
        rw (e, flush)
          (copies-on_report (record tm { pending_reports = remove mid tm.pending_reports }) r now)
  ]

  pub copies-on_submit_resp :
      (tm : TransactionManager) (n : ℕ) (mid : Option (List ℕ)) (result now : ℕ)
      → copies seq (on_submit_resp tm n mid result now).0.transactions ≤ copies seq tm.transactions
  unfolding on_submit_resp
  copies-on_submit_resp tm n none result now =
      elim (Option-cases (lookup (to_string n) tm.transactions)) [
        | inl e ↦ rw (e, on_submit_resp) (omega arith)
        | inr (tx, e) ↦
            rw (e, on_submit_resp) (copies-insert (to_string n) tx _ tm.transactions e refl)
      ]
  copies-on_submit_resp tm n (some mid) result now =
      elim (Option-cases (lookup (to_string n) tm.transactions)) [
        | inl e ↦ rw (e, on_submit_resp) (omega arith)
        | inr (tx, e) ↦
            rw (e, on_submit_resp)
              (omega (arith, copies-flush (rekey tm n mid tx) mid now, copies-rekey tm n mid tx e))
      ]

  pub copies-on_send_failed :
      (tm : TransactionManager) (n : ℕ) (error : String)
      → copies seq (on_send_failed tm n error).0.transactions ≤ copies seq tm.transactions
  unfolding on_send_failed
  copies-on_send_failed tm n error = elim (Option-cases (lookup (to_string n) tm.transactions)) [
    | inl e ↦ rw (e, on_send_failed) (omega arith)
    | inr (tx, e) ↦ rw (e, on_send_failed) (copies-remove_le (to_string n) tm.transactions)
  ]

  copies-remove_all :
      (ks : List (List ℕ)) (m : List (List ℕ × TransactionEntry))
      → copies seq (remove_all ks m) ≤ copies seq m
  unfolding remove_all
  copies-remove_all [] m = omega arith
  copies-remove_all (k ∷ ks) m =
      omega (arith, copies-remove_all ks (remove k m), copies-remove_le k m)

  pub copies-check_timeouts :
      (tm : TransactionManager) (now : ℕ)
      → copies seq (check_timeouts tm now).0.transactions ≤ copies seq tm.transactions
  unfolding check_timeouts
  copies-check_timeouts tm now =
      copies-remove_all (keys_where (is_overdue now tm.resp_timeout) tm.transactions)
        tm.transactions
