-- ===== src/Transaction/Timeouts.antt =====
-- What `check_timeouts` removes and calls back: the submits that are overdue, each once, and no
-- other.
use rsms.Common.{
  ℕ, ◌+◌, ◌<◌, ◌≡◌, ◌≢◌, refl, sym, ap, subst, ◌∙◌, Bool, true, false, not, arith, if◌then◌else◌,
  none, some, List, [], ◌∷◌, map, All, Bool-cases, Option-cases, inl, inr,
}
use rsms.Common.Classes.{bytes_eq}
use rsms.Common.Dict.{
  lookup, remove, retain, Unique, lookup-remove_ne, lookup_head, lookup_skip, remove_head,
  remove_skip,
}
use rsms.Transaction.{
  TransactionManager, TransactionEntry, TransactionStatus, SubmitInfo, pending, resp_received,
  timeout, send_failed, is_pending, submit_resp_timeout, is_overdue, keys_where, remove_all,
  removed_infos, check_timeouts,
}
use rsms.Transaction.Keys.{IsKeyed}

module _ {ℓ} {V : Type ℓ} (p : V → Bool) where
  -- No key of a table is removed that the table does not have.
  keys_apart :
      (k : List ℕ) (m : List (List ℕ × V)) → lookup k m ≡ none → All (λ j. j ≢ k) (keys_where p m)
  unfolding keys_where lookup
  keys_apart k [] h = tt
  keys_apart k ((j, v) ∷ m) h = elim (Bool-cases (bytes_eq.beq j k)) [
    | inl hit ↦ absurd (let clash : some v ≡ none = rw hit at h in cc)
    | inr miss ↦
        let rest = keys_apart k m (rw miss at h) in
        let ne : j ≢ k = λ q. cc (miss, (bytes_eq.beq_iff j k).1 q) in
        elim (Bool-cases (p v)) [ inl e ↦ rw e (ne, rest) | inr e ↦ rw e rest ]
  ]

  lookup-remove_all_apart :
      (k : List ℕ) (ks : List (List ℕ)) (m : List (List ℕ × V))
      → All (λ j. j ≢ k) ks
      → lookup k (remove_all ks m) ≡ lookup k m
  unfolding remove_all
  lookup-remove_all_apart k [] m h = refl
  lookup-remove_all_apart k (j ∷ ks) m h =
      lookup-remove_all_apart k ks (remove j m) h.1 ∙ lookup-remove_ne j k m h.0

  remove_all-cons :
      (k : List ℕ) (v : V) (ks : List (List ℕ)) (m : List (List ℕ × V))
      → All (λ j. j ≢ k) ks
      → remove_all ks ((k, v) ∷ m) ≡ (k, v) ∷ remove_all ks m
  unfolding remove_all
  remove_all-cons k v [] m h = refl
  remove_all-cons k v (j ∷ ks) m h =
      rw (remove_skip k j v m (λ q. h.0 (sym q))) (remove_all-cons k v ks (remove j m) h.1)

  -- Removing the entries that pass the test leaves the others, in their order.
  pub remove_all-keys :
      (m : List (List ℕ × V))
      → Unique m
      → remove_all (keys_where p m) m ≡ retain (λ (k, v). not (p v)) m
  unfolding remove_all keys_where retain
  remove_all-keys [] u = refl
  remove_all-keys ((k, v) ∷ m) u = elim (Bool-cases (p v)) [
    | inl e ↦
        rw e (ap (remove_all (keys_where p m)) (remove_head k v m u.0) ∙ remove_all-keys m u.1)
    | inr e ↦ rw e (
        remove_all-cons k v (keys_where p m) m (keys_apart k m u.0)
        ∙ ap (◌∷◌ (k, v)) (remove_all-keys m u.1))
  ]

removed_infos-skip :
    (k : List ℕ) (e : TransactionEntry) (ks : List (List ℕ)) (m : List (List ℕ × TransactionEntry))
    → All (λ j. j ≢ k) ks
    → removed_infos ks ((k, e) ∷ m) ≡ removed_infos ks m
unfolding removed_infos
removed_infos-skip k e [] m h = refl
removed_infos-skip k e (j ∷ ks) m h =
    let ne : k ≢ j = λ q. h.0 (sym q) in
    let rest = removed_infos-skip k e ks (remove j m) h.1 in
    elim (Option-cases (lookup j m)) [
      | inl q ↦
          rw (lookup_skip k j e m ne, removed_infos)
            (rw (q, removed_infos) (rw (remove_skip k j e m ne) rest))
      | inr (tx, q) ↦
          rw (lookup_skip k j e m ne, removed_infos)
            (rw (q, removed_infos) (rw (remove_skip k j e m ne) (ap (◌∷◌ tx.info) rest)))
    ]

-- The infos of the removed entries are those of the entries that pass the test, in their order.
removed_infos-keys :
    (p : TransactionEntry → Bool) (m : List (List ℕ × TransactionEntry))
    → Unique m
    → removed_infos (keys_where p m) m ≡ map (λ (k, e). e.info) (retain (λ (k, e). p e) m)
unfolding removed_infos keys_where retain
removed_infos-keys p [] u = refl
removed_infos-keys p ((k, e) ∷ m) u = elim (Bool-cases (p e)) [
  | inl q ↦ rw q (
      rw (lookup_head k e m, removed_infos)
        (rw (remove_head k e m u.0) (ap (◌∷◌ e.info) (removed_infos-keys p m u.1))))
  | inr q ↦ rw q (
      removed_infos-skip k e (keys_where p m) m (keys_apart p k m u.0) ∙ removed_infos-keys p m u.1)
]

-- A submit waits for its response, and has waited longer than the limit.
abbrev pub IsLate : ℕ → ℕ → TransactionEntry → Type 0
IsLate limit now e = (e.status ≡ pending) × (e.info.submit_time + limit < now)

-- A table, what a check at `now` leaves of it, and the submits that it times out, in their order.
pub data Checked (limit now : ℕ)
    : List (List ℕ × TransactionEntry)
      → List (List ℕ × TransactionEntry)
      → List SubmitInfo
      → Type 0 where
  nothing : Checked limit now [] [] []
  late :
      {m kept : List (List ℕ × TransactionEntry)} {infos : List SubmitInfo} (k : List ℕ)
      (e : TransactionEntry)
      → IsLate limit now e
      → Checked limit now m kept infos
      → Checked limit now ((k, e) ∷ m) kept (e.info ∷ infos)
  stays :
      {m kept : List (List ℕ × TransactionEntry)} {infos : List SubmitInfo} (k : List ℕ)
      (e : TransactionEntry)
      → ¬ IsLate limit now e
      → Checked limit now m kept infos
      → Checked limit now ((k, e) ∷ m) ((k, e) ∷ kept) infos

is_pending-true : (s : TransactionStatus) → is_pending s ≡ true → s ≡ pending
is_pending-true pending h = refl
is_pending-true resp_received h = cc
is_pending-true timeout h = cc
is_pending-true send_failed h = cc

overdue-IsLate :
    (limit now : ℕ) (e : TransactionEntry) → is_overdue now limit e ≡ true → IsLate limit now e
unfolding is_overdue
overdue-IsLate limit now e h = elim (Bool-cases (is_pending e.status)) [
  | inl q ↦ (is_pending-true e.status q, ground arith)
  | inr q ↦ absurd (let clash : false ≡ true = rw q at h in cc)
]

not_overdue :
    (limit now : ℕ) (e : TransactionEntry) → is_overdue now limit e ≡ false → ¬ IsLate limit now e
unfolding is_overdue
not_overdue limit now e h (waits, long) =
    let open_now : is_pending e.status ≡ true = rw waits refl in ground arith

retain-Checked :
    (limit now : ℕ) (m : List (List ℕ × TransactionEntry))
    → Checked limit now m
        (retain (λ (k, e). not (is_overdue now limit e)) m)
        (map (λ (k, e). e.info) (retain (λ (k, e). is_overdue now limit e) m))
unfolding retain
retain-Checked limit now [] = nothing
retain-Checked limit now ((k, e) ∷ m) = elim (Bool-cases (is_overdue now limit e)) [
  | inl q ↦ rw q (late k e (overdue-IsLate limit now e q) (retain-Checked limit now m))
  | inr q ↦ rw q (stays k e (not_overdue limit now e q) (retain-Checked limit now m))
]

-- One check goes through the transactions of a keyed manager: it removes those that are pending and
-- were submitted more than the limit before, keeps all others in place, and, with a callback set,
-- reports each removed submit once, in the order of the table. Without a callback it removes the same
-- and reports nothing.
pub check_timeouts_exact :
    (tm : TransactionManager) (now : ℕ)
    → IsKeyed tm
    → (infos : List SubmitInfo) × Checked tm.resp_timeout now tm.transactions
        (check_timeouts tm now).0.transactions
        infos
      × ((check_timeouts tm now).1 ≡ (if tm.callback then map submit_resp_timeout infos else []))
unfolding check_timeouts
check_timeouts_exact tm now h =
    let overdue = is_overdue now tm.resp_timeout in
    (
      map (λ (k, e). e.info) (retain (λ (k, e). overdue e) tm.transactions),
      subst
          (λ (kept : List (List ℕ × TransactionEntry)).
            Checked tm.resp_timeout now tm.transactions kept
              (map (λ (k, e). e.info) (retain (λ (k, e). overdue e) tm.transactions)))
          (sym (remove_all-keys overdue tm.transactions h.unique))
          (retain-Checked tm.resp_timeout now tm.transactions),
      ap (λ (infos : List SubmitInfo). if tm.callback then map submit_resp_timeout infos else [])
          (removed_infos-keys overdue tm.transactions h.unique),
    )
