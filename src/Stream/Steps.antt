-- ===== src/Stream/Steps.antt =====
-- One round of the loop: a longer buffer, the fuel, and the frames that it cuts.
use rsms.Common.{
  ℕ, zero, suc, ◌≤◌, ◌<◌, ◌≡◌, refl, true, false, List, [], ◌∷◌, ◌++◌, ltb, length, length-append,
  take, drop, length-drop, take_short, drop_short, Bool-cases, inl, inr, ◌⊎◌, arith, ok, err, ◌>>=◌,
}
use rsms.Core.Protocol.{Protocol, cmpp, smgp, smpp, sgip}
use rsms.Stream.{
  waits, refuses, cuts, next, accepts, total_length, decode_fuel, decode_frames,
  invalid_total_length, Frames,
}

-- A whole frame: at least four bytes, which give a length that the protocol accepts, the frame's own.
pub record IsFrame (p : Protocol) (f : List ℕ) : Type 0 where
  pub header : 4 ≤ length f
  pub accepted : accepts p (total_length f) ≡ true
  pub whole : total_length f ≡ length f

pub accepts_min : (p : Protocol) (total : ℕ) → accepts p total ≡ true → 12 ≤ total
unfolding accepts
accepts_min cmpp total h = ground arith
accepts_min smgp total h = ground arith
accepts_min smpp total h = ground arith
accepts_min sgip total h = ground arith

-- The three outcomes of a round.
pub next-cases :
    (p : Protocol) (b : List ℕ)
    → (next p b ≡ waits)
      ⊎ ((next p b ≡ refuses (total_length b))
          × (4 ≤ length b)
          × (accepts p (total_length b) ≡ false))
      ⊎ ((next p b ≡ cuts (take (total_length b) b) (drop (total_length b) b))
          × (4 ≤ length b)
          × (accepts p (total_length b) ≡ true)
          × (total_length b ≤ length b))
unfolding next
next-cases p b = elim (Bool-cases (ltb (length b) 4)) [
  | inl short ↦ inl (rw short refl)
  | inr long ↦ elim (Bool-cases (accepts p (total_length b))) [
    | inr bad ↦ inr (inl (rw (long, bad) refl, ground arith, bad))
    | inl good ↦ elim (Bool-cases (ltb (length b) (total_length b))) [
      | inl part ↦ inl (rw (long, good, part) refl)
      | inr whole ↦ inr (inr (rw (long, good, whole) refl, ground arith, good, ground arith))
    ]
  ]
]

-- The length field does not change when bytes follow.
pub total_length-append : (x y : List ℕ) → 4 ≤ length x → total_length (x ++ y) ≡ total_length x
unfolding total_length
total_length-append [] y h = absurd (omega arith)
total_length-append (a ∷ []) y h = absurd (omega arith)
total_length-append (a ∷ b ∷ []) y h = absurd (omega arith)
total_length-append (a ∷ b ∷ c ∷ []) y h = absurd (omega arith)
total_length-append (a ∷ b ∷ c ∷ d ∷ x) y h = refl

-- A round that does not wait does the same when bytes follow; what follows stays behind the rest.
pub next-append :
    (p : Protocol) (x y : List ℕ)
    → (next p x ≡ waits)
      ⊎ ((next p x ≡ refuses (total_length x)) × (next p (x ++ y) ≡ refuses (total_length x)))
      ⊎ ((f rest : List ℕ) × (next p x ≡ cuts f rest)
          × (next p (x ++ y) ≡ cuts f (rest ++ y))
          × (length rest < length x))
unfolding next
next-append p x y = elim (next-cases p x) [
  | inl e ↦ inl e
  | inr (inl (e, long, bad)) ↦
      let longer : ltb (length (x ++ y)) 4 ≡ false = ground (arith, length-append x y) in
      inr (inl (e, rw (longer, total_length-append x y long, bad) refl))
  | inr (inr (e, long, good, whole)) ↦
      let longer : ltb (length (x ++ y)) 4 ≡ false = ground (arith, length-append x y) in
      let there : ltb (length (x ++ y)) (total_length x) ≡ false =
        ground (arith, length-append x y) in
      inr (
        inr (
          take (total_length x) x,
          drop (total_length x) x,
          e,
          rw
              (
                longer,
                total_length-append x y long,
                good,
                there,
                take_short (total_length x) x y whole,
                drop_short (total_length x) x y whole,
              )
              refl,
          omega (arith, length-drop (total_length x) x, accepts_min p (total_length x) good),
        ))
]

abbrev pub prefixed : List (List ℕ) → List ℕ × Frames → List ℕ × Frames
prefixed fs (b, r) = (b, r >>= λ gs. ok (fs ++ gs))

-- Any fuel of at least the length of the buffer gives the same.
pub decode_fuel-enough :
    (n m : ℕ) (p : Protocol) (b : List ℕ)
    → length b ≤ n
    → length b ≤ m
    → decode_fuel n p b ≡ decode_fuel m p b
unfolding decode_fuel
decode_fuel-enough zero zero p b h h' = refl
decode_fuel-enough zero (suc m) p [] h h' = refl
decode_fuel-enough zero (suc m) p (x ∷ b) h h' = absurd (omega arith)
decode_fuel-enough (suc n) zero p [] h h' = refl
decode_fuel-enough (suc n) zero p (x ∷ b) h h' = absurd (omega arith)
decode_fuel-enough (suc n) (suc m) p b h h' = elim (next-append p b []) [
  | inl e ↦ rw (e, decode_fuel) refl
  | inr (inl (e, _)) ↦ rw (e, decode_fuel) refl
  | inr (inr (f, rest, e, _, less)) ↦
      rw (e, decode_fuel) (rw (decode_fuel-enough n m p rest (omega arith) (omega arith)) refl)
]

pub decode-waits : (p : Protocol) (b : List ℕ) → next p b ≡ waits → decode_frames p b ≡ (b, ok [])
unfolding decode_frames decode_fuel
decode-waits p [] e = refl
decode-waits p (x ∷ b) e = rw (e, decode_fuel) refl

pub decode-refuses :
    (p : Protocol) (b : List ℕ) (total : ℕ)
    → next p b ≡ refuses total
    → decode_frames p b ≡ (b, err (invalid_total_length total))
unfolding decode_frames decode_fuel
decode-refuses p [] total e = absurd (let clash : waits ≡ refuses total = unfold next in e in cc)
decode-refuses p (x ∷ b) total e = rw (e, decode_fuel) refl

pub decode-cuts :
    (p : Protocol) (b f rest : List ℕ)
    → next p b ≡ cuts f rest
    → length rest < length b
    → decode_frames p b ≡ prefixed (f ∷ []) (decode_frames p rest)
unfolding decode_frames decode_fuel
decode-cuts p [] f rest e less = absurd (omega arith)
decode-cuts p (x ∷ b) f rest e less =
    rw (e, decode_fuel)
      (rw (decode_fuel-enough (length b) (length rest) p rest (omega arith) (omega arith)) refl)
