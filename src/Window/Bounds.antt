-- ===== src/Window/Bounds.antt =====
-- Whatever is done to a window, in whatever order, it holds no key twice and no more than its size.
use rsms.Common.{
  ℕ, ◌+◌, ◌≤◌, ◌≡◌, refl, ap, ◌∙◌, none, List, [], ◌∷◌, Bool-cases, Option-cases, inl, inr, leb,
  length, arith, false,
}
use rsms.Common.Classes.{Eq}
use rsms.Common.Dict.{
  lookup, remove, contains_key, Unique, Unique-insert, Unique-remove, length-insert_new,
  length-remove-le,
}
use rsms.Window.{
  Window, WindowConfig, WindowFuture, WindowError, try_offer, complete, fail, cancel, monitor_tick,
  expired_keys, remove_expired, size, available, new, with_channel, future_of,
}

module _ {K P : Type 0} ⦃e : Eq K⦄ where
  pub record IsBounded (w : Window K P) : Type 0 where
    pub unique : Unique w.pending
    pub bounded : length w.pending ≤ w.config.max_size

  -- One operation of any caller, at any time; the configuration stays.
  pub data Step : Window K P → Window K P → Type 0 where
    offers :
        (w : Window K P) (key : K) (params : P) (now : ℕ) → Step w (try_offer w key params now).0
    completes : (w : Window K P) (key : K) → Step w (complete w key).0.window
    fails : (w : Window K P) (key : K) (error : WindowError K) → Step w (fail w key error).0.window
    cancels : (w : Window K P) (key : K) → Step w (cancel w key).0.window
    ticks : (w : Window K P) (now : ℕ) → Step w (monitor_tick w now).window

  pub data Reach (w : Window K P) : Window K P → Type 0 where
    here : Reach w w
    next : {u v : Window K P} → Reach w u → Step u v → Reach w v

  missing_key :
      (k : K) (w : Window K P) → contains_key k w.pending ≡ false → lookup k w.pending ≡ none
  unfolding contains_key
  missing_key k w h = ground arith

  offer-IsBounded :
      (w : Window K P) (key : K) (params : P) (now : ℕ)
      → IsBounded w
      → IsBounded (try_offer w key params now).0
  unfolding try_offer
  offer-IsBounded w key params now b = elim (Bool-cases (contains_key key w.pending)) [
    | inl twice ↦ rw twice b
    | inr fresh ↦ elim (Bool-cases (leb w.config.max_size (length w.pending))) [
      | inl full ↦ rw (fresh, full) b
      | inr room ↦
          let grown =
            length-insert_new key (future_of w key params now) w.pending
              (missing_key key w fresh) in
          rw (fresh, room)
            (record {
              unique = Unique-insert key (future_of w key params now) w.pending b.unique;
              bounded = ground (arith, grown);
            })
    ]
  ]

  removed-IsBounded :
      (w : Window K P) (key : K)
      → IsBounded w
      → IsBounded (record w { pending = remove key w.pending })
  removed-IsBounded w key b = record {
    unique = Unique-remove key w.pending b.unique;
    bounded = omega (arith, length-remove-le key w.pending, b.bounded);
  }

  remove_expired_step :
      (k : K) (ks : List K) (m : List (K × WindowFuture K P))
      → (remove_expired (k ∷ ks) m).0 ≡ (remove_expired ks (remove k m)).0
  unfolding remove_expired
  remove_expired_step k ks m = elim (Option-cases (lookup k m)) [
    | inl q ↦ rw (q, remove_expired) refl
    | inr (f, q) ↦ rw (q, remove_expired) refl
  ]

  remove_expired-bounded :
      (ks : List K) (m : List (K × WindowFuture K P))
      → Unique m
      → Unique (remove_expired ks m).0 × (length (remove_expired ks m).0 ≤ length m)
  unfolding remove_expired
  remove_expired-bounded [] m u = (u, omega arith)
  remove_expired-bounded (k ∷ ks) m u =
      let (unique, short) = remove_expired-bounded ks (remove k m) (Unique-remove k m u) in
      rw (remove_expired_step k ks m) (unique, omega (arith, short, length-remove-le k m))

  Step-IsBounded : {u v : Window K P} → Step u v → IsBounded u → IsBounded v
  unfolding complete fail cancel monitor_tick
  Step-IsBounded (offers w key params now) b = offer-IsBounded w key params now b
  Step-IsBounded (completes w key) b = elim (Option-cases (lookup key w.pending)) [
    | inl q ↦ rw (q, complete) b
    | inr (f, q) ↦ rw (q, complete) (removed-IsBounded w key b)
  ]
  Step-IsBounded (fails w key error) b = elim (Option-cases (lookup key w.pending)) [
    | inl q ↦ rw (q, fail) b
    | inr (f, q) ↦ rw (q, fail) (removed-IsBounded w key b)
  ]
  Step-IsBounded (cancels w key) b = elim (Option-cases (lookup key w.pending)) [
    | inl q ↦ rw (q, cancel) b
    | inr (f, q) ↦ rw (q, cancel) (removed-IsBounded w key b)
  ]
  Step-IsBounded (ticks w now) b =
      let (unique, short) =
        remove_expired-bounded (expired_keys now w.pending) w.pending b.unique in
      record { unique = unique; bounded = omega (arith, b.bounded, short) }

  Step-config : {u v : Window K P} → Step u v → v.config ≡ u.config
  unfolding try_offer complete fail cancel monitor_tick
  Step-config (offers w key params now) = ground arith
  Step-config (completes w key) = ground arith
  Step-config (fails w key error) = ground arith
  Step-config (cancels w key) = ground arith
  Step-config (ticks w now) = refl

  Reach-IsBounded :
      {u v : Window K P} → Reach u v → IsBounded u → IsBounded v × (v.config ≡ u.config)
  Reach-IsBounded here b = (b, refl)
  Reach-IsBounded (next r s) b =
      let (b', same) = Reach-IsBounded r b in (Step-IsBounded s b', Step-config s ∙ same)

  -- A window as one of the two constructors makes it.
  pub data Made (config : WindowConfig) : Window K P → Type 0 where
    by_new : Made config (new config)
    by_with_channel : Made config (with_channel config)

  Made-IsBounded :
      (config : WindowConfig) {u : Window K P} → Made config u → IsBounded u × (u.config ≡ config)
  unfolding new with_channel
  Made-IsBounded config by_new = (record { unique = tt; bounded = omega arith }, refl)
  Made-IsBounded config by_with_channel = (record { unique = tt; bounded = omega arith }, refl)

  -- However callers offer, complete, fail and cancel, and whenever the monitor ticks, a window that
  -- `new` or `with_channel` made holds no key twice, never more requests than its size, and its free
  -- places and its requests add up to that size.
  pub Reach-new :
      (config : WindowConfig) {u w : Window K P}
      → Made config u
      → Reach u w
      → Unique w.pending × (size w ≤ config.max_size) × (size w + available w ≡ config.max_size)
  unfolding size available
  Reach-new config {u} {w} made r =
      let (start, own) = Made-IsBounded config made in
      let (b, same) = Reach-IsBounded r start in
      let total : w.config.max_size ≡ config.max_size = ap (λ c. c.max_size) (same ∙ own) in
      (b.unique, omega (arith, b.bounded, total), omega (arith, b.bounded, total))
