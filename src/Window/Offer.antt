-- ===== src/Window/Offer.antt =====
-- What `Window::offer` answers, and at which of its tries.
use rsms.Common.{
  ap, ℕ, ◌+◌, ◌≤◌, ◌<◌, ◌⊎◌, Option, none, Result, ◌-◌, ◌≡◌, refl, true, false, some, List, [], ◌∷◌,
  ◌++◌, All, Bool-cases, inl, inr, leb, length, arith, ok, err,
}
use rsms.Common.Classes.{Eq}
use rsms.Common.Dict.{lookup, insert, contains_key, length-insert_new, lookup-insert_self}
use rsms.Window.{
  Window, WindowFuture, WindowError, duplicate_key, window_full, offer_timeout, future_of,
  try_offer, offer, contains, size,
}

module _ {K P : Type 0} ⦃e : Eq K⦄ (key : K) (params : P) (start timeout : ℕ) where
  -- At this try the key is new, the window is full and the time is not up.
  abbrev pub Waits : Window K P × ℕ → Type 0
  Waits (w, now) =
      (contains w key ≡ false)
      × (leb w.config.max_size (size w) ≡ true)
      × (leb timeout (now - start) ≡ false)

  one_wait :
      (try : Window K P × ℕ) (tries : List (Window K P × ℕ))
      → Waits try
      → offer key params start timeout (try ∷ tries) ≡ offer key params start timeout tries
  unfolding offer try_offer contains size
  one_wait (w, now) tries (fresh, full, early) = rw (fresh, full, early, offer) refl

  -- What ends the wait at a try: the key is there, or there is room for it, or the window is full and
  -- the time is up.
  pub data Ends
      : Window K P × ℕ
        → Option (Window K P × Result (WindowError K) (WindowFuture K P))
        → Type 0 where
    twice :
        (w : Window K P) (now : ℕ)
        → contains w key ≡ true
        → Ends (w, now) (some (w, err (duplicate_key key)))
    accepted :
        (w w' : Window K P) (f : WindowFuture K P) (now : ℕ)
        → contains w key ≡ false
        → size w < w.config.max_size
        → size w' ≡ size w + 1
        → lookup key w'.pending ≡ some f
        → (f.key ≡ key) × (f.params ≡ params) × (f.created_at ≡ now)
        → Ends (w, now) (some (w', ok f))
    late :
        (w : Window K P) (now : ℕ)
        → contains w key ≡ false
        → w.config.max_size ≤ size w
        → timeout ≤ now - start
        → Ends (w, now) (some (w, err offer_timeout))

  offered :
      (w : Window K P) (now : ℕ)
      → contains w key ≡ false
      → size w < w.config.max_size
      → let w' = record w { pending = insert key (future_of w key params now) w.pending } in
        (size w' ≡ size w + 1) × (lookup key w'.pending ≡ some (future_of w key params now))
  unfolding contains size
  offered w now fresh room =
      let missing : lookup key w.pending ≡ none = unfold contains_key in ground arith in
      (
        omega (arith, length-insert_new key (future_of w key params now) w.pending missing),
        lookup-insert_self key (future_of w key params now) w.pending,
      )

  offer_twice :
      (w : Window K P) (now : ℕ)
      → contains w key ≡ true
      → try_offer w key params now ≡ (w, err (duplicate_key key))
  unfolding try_offer contains
  offer_twice w now there = rw there refl

  offer_full :
      (w : Window K P) (now : ℕ)
      → contains w key ≡ false
      → leb w.config.max_size (size w) ≡ true
      → try_offer w key params now ≡ (w, err window_full)
  unfolding try_offer contains size
  offer_full w now fresh full = rw (fresh, full) refl

  offer_room :
      (w : Window K P) (now : ℕ)
      → contains w key ≡ false
      → leb w.config.max_size (size w) ≡ false
      → try_offer w key params now ≡ (
        record w { pending = insert key (future_of w key params now) w.pending },
        ok (future_of w key params now),
      )
  unfolding try_offer contains size
  offer_room w now fresh room = rw (fresh, room) refl

  one_try :
      (try : Window K P × ℕ) (tries : List (Window K P × ℕ))
      → Waits try ⊎ Ends try (offer key params start timeout (try ∷ tries))
  unfolding offer
  one_try (w, now) tries = elim (Bool-cases (contains w key)) [
    | inl there ↦
        inr (rw (offer_twice w now there, offer) (rw (offer_twice w now there) (twice w now there)))
    | inr fresh ↦ elim (Bool-cases (leb w.config.max_size (size w))) [
      | inr room ↦
          let small : size w < w.config.max_size = ground arith in
          let (grown, found) = offered w now fresh small in
          inr (
            rw (offer_room w now fresh room, offer)
              (rw (offer_room w now fresh room)
                (accepted w _ _ now fresh small grown found (refl, refl, refl))))
      | inl full ↦ elim (Bool-cases (leb timeout (now - start))) [
        | inr early ↦ inl (fresh, full, early)
        | inl up ↦ inr (
            rw (offer_full w now fresh full, offer)
              (rw up (
                rw (offer_full w now fresh full) (late w now fresh (ground arith) (ground arith)))))
      ]
    ]
  ]

  late_ends : (w : Window K P) (now : ℕ) → timeout ≤ now - start → Waits (w, now) → ⊥
  late_ends w now up (fresh, full, early) = ground arith

  -- An offer has its answer at the latest at the first try at which the time is up, whatever the windows
  -- are that it meets: at the first try at which the key is pending, or there is room, or the time is
  -- up. The answer is then a duplicate, or the request with its key, parameters and time in a window
  -- that has one more, or a timeout; it is never that the window is full.
  pub offer-decides :
      (front back : List (Window K P × ℕ)) (w : Window K P) (now : ℕ)
      → timeout ≤ now - start
      → (waits rest : List (Window K P × ℕ)) × (try : Window K P × ℕ) × (front ++ (w, now) ∷ back
          ≡ waits ++ try ∷ rest)
        × (length waits ≤ length front)
        × All Waits waits
        × Ends try (offer key params start timeout (front ++ (w, now) ∷ back))
  offer-decides [] back w now up = elim (one_try (w, now) back) [
    | inl waits ↦ absurd (late_ends w now up waits)
    | inr ends ↦ ([], back, (w, now), refl, omega arith, tt, ends)
  ]
  offer-decides (try ∷ front) back w now up = elim (one_try try (front ++ (w, now) ∷ back)) [
    | inr ends ↦ ([], front ++ (w, now) ∷ back, try, refl, omega arith, tt, ends)
    | inl here ↦
        let (waits, rest, last, parts, few, all, ends) = offer-decides front back w now up in
        (
          try ∷ waits,
          rest,
          last,
          ap (◌∷◌ try) parts,
          omega arith,
          (here, all),
          rw (one_wait try (front ++ (w, now) ∷ back) here) ends,
        )
  ]
