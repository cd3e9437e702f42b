-- ===== src/Window/Laws.antt =====
-- What each operation of a window does to it, on every branch.
use rsms.Common.{
  ℕ, ◌+◌, ◌≤◌, ◌<◌, ◌≡◌, refl, ◌⊎◌, inl, inr, true, false, none, some, List, [], ◌∷◌, Bool-cases,
  leb, length, arith, if◌then◌else◌, ok, err,
}
use rsms.Common.Classes.{Eq}
use rsms.Common.Dict.{
  lookup, remove, contains_key, lookup-insert, lookup-remove, length-insert_new, length-remove-lt,
}
use rsms.Window.{
  Window, WindowFuture, completed, window_full, duplicate_key, future_of, try_offer, complete,
  contains, size,
}

module _ {K P : Type 0} ⦃e : Eq K⦄ where
  contains_lookup :
      (k : K) (m : List (K × WindowFuture K P)) → contains_key k m ≡ false → lookup k m ≡ none
  unfolding contains_key
  contains_lookup k m h = ground arith

  lookup_contains :
      (k : K) {f : WindowFuture K P} (m : List (K × WindowFuture K P))
      → lookup k m ≡ some f
      → contains_key k m ≡ true
  unfolding contains_key
  lookup_contains k m h = rw (h, contains_key)

  -- An offer is refused as a duplicate if its key is pending, whether or not there is room; else it
  -- is refused if the window is full; else it is accepted, takes one place, and every other key
  -- keeps its request. A refusal leaves the window as it was.
  pub try_offer_branches :
      (w : Window K P) (key : K) (params : P) (now : ℕ)
      → ((contains w key ≡ true) × (try_offer w key params now ≡ (w, err (duplicate_key key))))
        ⊎ ((contains w key ≡ false)
            × (w.config.max_size ≤ size w)
            × (try_offer w key params now ≡ (w, err window_full)))
        ⊎ ((contains w key ≡ false)
            × (size w < w.config.max_size)
            × ((try_offer w key params now).1 ≡ ok (future_of w key params now))
            × (size (try_offer w key params now).0 ≡ size w + 1)
            × ((j : K)
                → lookup j (try_offer w key params now).0.pending ≡ (
                    if e.beq key j then some (future_of w key params now) else lookup j w.pending)))
  unfolding try_offer contains size
  try_offer_branches w key params now = elim (Bool-cases (contains_key key w.pending)) [
    | inl twice ↦ rw twice (inl (refl, refl))
    | inr fresh ↦ elim (Bool-cases (leb w.config.max_size (length w.pending))) [
      | inl full ↦ rw (fresh, full) (inr (inl (refl, ground arith, refl)))
      | inr room ↦
          rw (fresh, room)
            (inr (
              inr (
                refl,
                ground arith,
                refl,
                omega (
                  arith,
                  length-insert_new key (future_of w key params now) w.pending
                      (contains_lookup key w.pending fresh),
                ),
                λ j. lookup-insert key j (future_of w key params now) w.pending,
              )))
    ]
  ]

  -- Completing a pending key sends its event and wakes the waiting callers, forgets this key and no
  -- other, and frees a place: a key that is not pending is then accepted, also if the window was
  -- full.
  pub complete_frees :
      (w : Window K P) (key next : K) (f : WindowFuture K P) (params : P) (now : ℕ)
      → lookup key w.pending ≡ some f
      → lookup next w.pending ≡ none
      → size w ≤ w.config.max_size
      → let done = (complete w key).0 in
        (done.events ≡ (if w.sender then completed key ∷ [] else []))
        × (done.woken ≡ true)
        × ((j : K)
            → lookup j done.window.pending ≡ (if e.beq key j then none else lookup j w.pending))
        × ((try_offer done.window next params now).1 ≡ ok (future_of w next params now))
  unfolding complete try_offer size
  complete_frees w key next f params now held free bounded =
      let gone : lookup next (remove key w.pending) ≡ none =
        ground (arith, lookup-remove key next w.pending) in
      let absent : contains_key next (remove key w.pending) ≡ false =
        unfold contains_key in rw (gone, contains_key) in
      let room : leb w.config.max_size (length (remove key w.pending)) ≡ false =
        ground (arith, length-remove-lt key f w.pending held) in
      rw (held, complete) (refl, refl, λ j. lookup-remove key j w.pending, rw (absent, room))
