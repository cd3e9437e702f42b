-- ===== src/Transaction.antt =====
-- crates/rsms-connector/src/transaction/mod.rs: matching submits with their responses and reports.
-- Each operation is one atomic step; it returns the callbacks that it makes, in their order. Time is
-- an argument. A `DashMap` is an association list, and is iterated in the order of the list.
pub mod Keys
pub mod Copies
pub mod History
pub mod Lifecycle
pub mod Orders
pub mod Collisions
pub mod Timeouts
mod Tests
use Prim.Native.String.{String}
use rsms.Common.{
  ℕ, ◌-◌, ◌≡◌, Bool, true, false, ◌&&◌, not, Option, none, some, List, [], ◌∷◌, ◌++◌, map, ltb,
  ◌==◌, if◌then◌else◌, length,
}
use rsms.Common.Classes.{bytes_eq, nat_eq, list_beq}
use rsms.Common.Decimal.{to_string}
use rsms.Common.Dict.{lookup, insert, remove, retain}

pub data TransactionStatus : Type 0 where
  pending resp_received timeout send_failed : TransactionStatus

pub record SubmitInfo : Type 0 where
  pub sequence_id : ℕ
  pub msg_id : Option (List ℕ)
  pub dest_id : List ℕ
  pub src_id : List ℕ
  pub content : List ℕ
  pub protocol : String
  pub submit_time : ℕ

unfoldable pub new_info : ℕ → List ℕ → List ℕ → List ℕ → String → ℕ → SubmitInfo
new_info seq dest src content protocol now = record {
  sequence_id = seq;
  msg_id = none;
  dest_id = dest;
  src_id = src;
  content = content;
  protocol = protocol;
  submit_time = now;
}

unfoldable pub with_msg_id : ℕ → List ℕ → List ℕ → List ℕ → List ℕ → String → ℕ → SubmitInfo
with_msg_id seq mid dest src content protocol now = record {
  sequence_id = seq;
  msg_id = some mid;
  dest_id = dest;
  src_id = src;
  content = content;
  protocol = protocol;
  submit_time = now;
}

pub record ReportInfo : Type 0 where
  pub msg_id : List ℕ
  pub src_terminal_id : List ℕ
  pub stat : List ℕ

pub record MoInfo : Type 0 where
  pub dest_id : List ℕ
  pub src_terminal_id : List ℕ
  pub content : List ℕ

-- The calls of `MessageCallback`.
pub data Callback : Type 0 where
  submit_resp_ok : SubmitInfo → Callback
  submit_resp_error : SubmitInfo → ℕ → Callback
  submit_resp_timeout : SubmitInfo → Callback
  sending_failed : ℕ → String → Callback
  report_matched : ReportInfo → SubmitInfo → Callback
  mo_received : MoInfo → Callback

pub record TransactionEntry : Type 0 where
  pub info : SubmitInfo
  pub status : TransactionStatus

pub record TransactionManager : Type 0 where
  pub transactions : List (List ℕ × TransactionEntry)
  pub seq_to_msg_id : List (ℕ × List ℕ)
  pub pending_reports : List (List ℕ × (ReportInfo × ℕ))
  pub resp_timeout : ℕ
  -- whether a callback is set
  pub callback : Bool

unfoldable pub new : ℕ → TransactionManager
new resp_timeout = record {
  transactions = [];
  seq_to_msg_id = [];
  pending_reports = [];
  resp_timeout = resp_timeout;
  callback = false;
}

unfoldable pub set_callback : TransactionManager → Bool → TransactionManager
set_callback tm set = record tm { callback = set }

-- `if let Some(ref cb) = *callback { … }`
abbrev pub call : TransactionManager → Callback → List Callback
call tm c = if tm.callback then c ∷ [] else []

abbrev pub Step : Type 0
Step = TransactionManager × List Callback

unfoldable pub add_submit_transaction : TransactionManager → SubmitInfo → TransactionManager
add_submit_transaction tm info = record tm {
  transactions =
      insert (to_string info.sequence_id) (record { info = info; status = pending })
        tm.transactions;
}

-- The scan of `seq_to_msg_id` in `on_report`.
unfoldable pub scan :
    List ℕ → List (List ℕ × TransactionEntry) → List (ℕ × List ℕ) → Option TransactionEntry
scan id txs [] = none
scan id txs ((seq, mid) ∷ rest) =
    let next = scan id txs rest in
    elim (lookup mid txs) [
      | none ↦ next
      | some tx ↦ elim tx.info.msg_id [
        | none ↦ next
        | some own ↦ if list_beq ◌==◌ own id then some tx else next
      ]
    ]

unfoldable pub find_transaction : TransactionManager → List ℕ → Option TransactionEntry
unfolding scan
find_transaction tm id = elim (lookup id tm.transactions) [
  | some tx ↦ some tx
  | none ↦ scan id tm.transactions tm.seq_to_msg_id
]

-- `if let Some(mid) = entry.info.msg_id { transactions.remove(mid) }`
unfoldable pub remove_own :
    Option (List ℕ) → List (List ℕ × TransactionEntry) → List (List ℕ × TransactionEntry)
remove_own none txs = txs
remove_own (some mid) txs = remove mid txs

unfoldable pub on_report : TransactionManager → ReportInfo → ℕ → Step
unfolding find_transaction remove_own
on_report tm report now = elim (find_transaction tm report.msg_id) [
  | some entry ↦ (
    record tm {
      transactions = remove_own entry.info.msg_id tm.transactions;
      seq_to_msg_id = remove entry.info.sequence_id tm.seq_to_msg_id;
    },
    call tm (report_matched report entry.info),
  )
  | none ↦
      (record tm { pending_reports = insert report.msg_id (report, now) tm.pending_reports }, [])
]

-- The callback for a response.
abbrev pub resp_callback : TransactionManager → SubmitInfo → ℕ → List Callback
resp_callback tm info result =
    if result == 0 then call tm (submit_resp_ok info) else call tm (submit_resp_error info result)

-- The transaction as a response with a message id leaves it.
abbrev pub responded : TransactionEntry → List ℕ → TransactionEntry
responded tx mid = record { info = record (tx.info) { msg_id = some mid }; status = resp_received }

-- The transaction goes from the key of its sequence to its message id: inserted first, then removed.
unfoldable pub rekey : TransactionManager → ℕ → List ℕ → TransactionEntry → TransactionManager
rekey tm seq mid tx = record tm {
  seq_to_msg_id = insert seq mid tm.seq_to_msg_id;
  transactions = remove (to_string seq) (insert mid (responded tx mid) tm.transactions);
}

-- A report that came before the response is handled now.
unfoldable pub flush : TransactionManager → List ℕ → ℕ → Step
unfolding on_report
flush tm mid now = elim (lookup mid tm.pending_reports) [
  | none ↦ (tm, [])
  | some (report, _) ↦
      on_report (record tm { pending_reports = remove mid tm.pending_reports }) report now
]

unfoldable pub on_submit_resp : TransactionManager → ℕ → Option (List ℕ) → ℕ → ℕ → Step
unfolding rekey flush
on_submit_resp tm seq (some mid) result now = elim (lookup (to_string seq) tm.transactions) [
  | none ↦ (tm, [])
  | some tx ↦
      let tm' = rekey tm seq mid tx in
      let (tm'', more) = flush tm' mid now in
      (tm'', resp_callback tm (responded tx mid).info result ++ more)
]
on_submit_resp tm seq none result now = elim (lookup (to_string seq) tm.transactions) [
  | none ↦ (tm, [])
  | some tx ↦ (
    record tm {
      transactions =
          insert (to_string seq) (record { info = tx.info; status = resp_received })
            tm.transactions;
    },
    resp_callback tm tx.info result,
  )
]

unfoldable pub on_send_failed : TransactionManager → ℕ → String → Step
on_send_failed tm seq error = elim (lookup (to_string seq) tm.transactions) [
  | none ↦ (tm, [])
  | some entry ↦ (
    record tm { transactions = remove (to_string seq) tm.transactions },
    call tm (sending_failed entry.info.sequence_id error),
  )
]

unfoldable pub on_mo : TransactionManager → MoInfo → Step
on_mo tm mo = (tm, call tm (mo_received mo))

abbrev pub is_pending : TransactionStatus → Bool
is_pending pending = true
is_pending resp_received = false
is_pending timeout = false
is_pending send_failed = false

-- A submit that waits for its response longer than allowed.
unfoldable pub is_overdue : ℕ → ℕ → TransactionEntry → Bool
is_overdue now limit e = is_pending e.status && ltb limit (now - e.info.submit_time)

-- The keys that pass a test, and the removal of the entries under a list of keys, which keeps what
-- is removed.
unfoldable pub keys_where {ℓ} : {V : Type ℓ} → (V → Bool) → List (List ℕ × V) → List (List ℕ)
keys_where p [] = []
keys_where p ((k, v) ∷ m) = if p v then k ∷ keys_where p m else keys_where p m

unfoldable pub remove_all {ℓ} : {V : Type ℓ} → List (List ℕ) → List (List ℕ × V) → List (List ℕ × V)
remove_all [] m = m
remove_all (k ∷ ks) m = remove_all ks (remove k m)

unfoldable pub removed_infos : List (List ℕ) → List (List ℕ × TransactionEntry) → List SubmitInfo
removed_infos [] m = []
removed_infos (k ∷ ks) m = elim (lookup k m) [
  | none ↦ removed_infos ks (remove k m)
  | some tx ↦ tx.info ∷ removed_infos ks (remove k m)
]

unfoldable pub check_timeouts : TransactionManager → ℕ → Step
unfolding keys_where remove_all removed_infos is_overdue
check_timeouts tm now =
    let keys = keys_where (is_overdue now tm.resp_timeout) tm.transactions in
    let stale = keys_where (λ (r, at). ltb tm.resp_timeout (now - at)) tm.pending_reports in
    (
      record tm {
        transactions = remove_all keys tm.transactions;
        pending_reports = remove_all stale tm.pending_reports;
      },
      (if tm.callback then map submit_resp_timeout (removed_infos keys tm.transactions) else []),
    )

unfoldable pub transaction_count : TransactionManager → ℕ
transaction_count tm = length tm.transactions

unfoldable pub pending_count : TransactionManager → ℕ
pending_count tm = length (retain (λ (k, e). is_pending e.status) tm.transactions)
