-- ===== src/Wire/Readers.antt =====
-- What a reader may fail with, and how many bytes it takes at least, from those of its parts.
use rsms.Common.{
  ℕ, ◌+◌, ◌≤◌, ◌≡◌, sym, ap, ◌∙◌, Bool, true, false, List, [], ◌∷◌, ltb, if◌then◌else◌, length,
  take, drop, length-drop, Result, ok, err, Result-cases, ok_injective, inl, inr, Bool-cases, arith,
}
use rsms.Wire.Fields.{Get, ◌>>=◌, pure, ensure, get_u8, get_u16, get_u32, get_bytes}

module _ {E : Type 0} where
  abbrev pub Fails : {A : Type 0} → E → Get E A → Type 0
  Fails e r = (b : List ℕ) (x : E) → r b ≡ err x → x ≡ e

  abbrev pub Takes : {A : Type 0} → ℕ → Get E A → Type 0
  Takes {A = A} k r = (b rest : List ℕ) (a : A) → r b ≡ ok (a, rest) → k + length rest ≤ length b

  -- Both at once.
  pub record Reads {A : Type 0} (e : E) (k : ℕ) (r : Get E A) : Type 0 where
    pub fails : Fails e r
    pub takes : Takes k r

  rest-ok :
      {A : Type 0} {a y : A} {b rest : List ℕ}
      → Path (Result E (A × List ℕ)) (ok (a, b)) (ok (y, rest))
      → b ≡ rest
  rest-ok h = ap (λ s. s.1) (ok_injective h)

  err_or : {B : Type 0} → E → Result E B → E
  err_or e (ok b) = e
  err_or e (err x) = x

  err-path : {B : Type 0} {x y : E} → Path (Result E B) (err x) (err y) → x ≡ y
  unfolding err_or
  err-path {x = x} h = ap (err_or x) h

  same-err : {x y e : E} → y ≡ e → y ≡ x → x ≡ e
  same-err p q = sym q ∙ p

  bind-Fails :
      {A B : Type 0} (e : E) (r : Get E A) (f : A → Get E B)
      → Fails e r
      → ((a : A) → Fails e (f a))
      → Fails e (r >>= f)
  unfolding ◌>>=◌
  bind-Fails e r f s t b x h = elim (Result-cases (r b)) [
    | inl ((a, rest), q) ↦ t a rest x (rw (q, ◌>>=◌) at h)
    | inr (y, q) ↦ let same : y ≡ x = err-path (rw (q, ◌>>=◌) at h) in same-err (s b y q) same
  ]

  bind-Takes :
      {A B : Type 0} (k m : ℕ) (r : Get E A) (f : A → Get E B)
      → Takes k r
      → ((a : A) → Takes m (f a))
      → Takes (k + m) (r >>= f)
  unfolding ◌>>=◌
  bind-Takes k m r f s t b rest y h = elim (Result-cases (r b)) [
    | inl ((a, more), q) ↦
        let later : m + length rest ≤ length more = t a more rest y (rw (q, ◌>>=◌) at h) in
        omega (arith, s b more a q)
    | inr (x, q) ↦ absurd (let clash : err x ≡ ok (y, rest) = rw (q, ◌>>=◌) at h in cc)
  ]

  pub Reads-bind :
      {A B : Type 0} {e : E} {k m : ℕ} (r : Get E A) (f : A → Get E B)
      → Reads e k r
      → ((a : A) → Reads e m (f a))
      → Reads e (k + m) (r >>= f)
  Reads-bind {e = e} {k = k} {m = m} r f s t = record {
    fails = bind-Fails e r f s.fails (λ a. (t a).fails);
    takes = bind-Takes k m r f s.takes (λ a. (t a).takes);
  }

  pub Reads-pure : {A : Type 0} (e : E) (a : A) → Reads e 0 (pure a)
  unfolding pure
  Reads-pure e a = record {
    fails = λ b x h. absurd cc;
    takes = λ b rest y h. omega (arith, ap length (rest-ok h));
  }

  pub Reads-ensure : (e : E) (n : ℕ) → Reads e 0 (ensure e n)
  unfolding ensure
  Reads-ensure e n = record { fails = λ b x h. ground arith; takes = λ b rest y h. ground arith }

  u8-Fails : (e : E) → Fails e (get_u8 e)
  unfolding get_u8
  u8-Fails e [] x h = cc
  u8-Fails e (a ∷ b) x h = absurd cc

  u8-Takes : (e : E) → Takes 1 (get_u8 e)
  unfolding get_u8
  u8-Takes e [] rest y h = absurd cc
  u8-Takes e (a ∷ b) rest y h = omega (arith, ap length (rest-ok h))

  pub Reads-u8 : (e : E) → Reads e 1 (get_u8 e)
  Reads-u8 e = record { fails = u8-Fails e; takes = u8-Takes e }

  u16-Fails : (e : E) → Fails e (get_u16 e)
  unfolding get_u16
  u16-Fails e [] x h = cc
  u16-Fails e (a ∷ []) x h = cc
  u16-Fails e (a ∷ b ∷ bs) x h = absurd cc

  u16-Takes : (e : E) → Takes 2 (get_u16 e)
  unfolding get_u16
  u16-Takes e [] rest y h = absurd cc
  u16-Takes e (a ∷ []) rest y h = absurd cc
  u16-Takes e (a ∷ b ∷ bs) rest y h = omega (arith, ap length (rest-ok h))

  pub Reads-u16 : (e : E) → Reads e 2 (get_u16 e)
  Reads-u16 e = record { fails = u16-Fails e; takes = u16-Takes e }

  u32-Fails : (e : E) → Fails e (get_u32 e)
  unfolding get_u32
  u32-Fails e [] x h = cc
  u32-Fails e (a ∷ []) x h = cc
  u32-Fails e (a ∷ b ∷ []) x h = cc
  u32-Fails e (a ∷ b ∷ c ∷ []) x h = cc
  u32-Fails e (a ∷ b ∷ c ∷ d ∷ bs) x h = absurd cc

  u32-Takes : (e : E) → Takes 4 (get_u32 e)
  unfolding get_u32
  u32-Takes e [] rest y h = absurd cc
  u32-Takes e (a ∷ []) rest y h = absurd cc
  u32-Takes e (a ∷ b ∷ []) rest y h = absurd cc
  u32-Takes e (a ∷ b ∷ c ∷ []) rest y h = absurd cc
  u32-Takes e (a ∷ b ∷ c ∷ d ∷ bs) rest y h = omega (arith, ap length (rest-ok h))

  pub Reads-u32 : (e : E) → Reads e 4 (get_u32 e)
  Reads-u32 e = record { fails = u32-Fails e; takes = u32-Takes e }

  bytes-Takes : (e : E) (n : ℕ) → Takes 0 (get_bytes e n)
  unfolding get_bytes
  bytes-Takes e n b rest y h = elim (Bool-cases (ltb (length b) n)) [
    | inl q ↦ absurd (let clash : err e ≡ ok (y, rest) = rw q at h in cc)
    | inr q ↦
        let found : Path (Result E (List ℕ × List ℕ)) (ok (take n b, drop n b)) (ok (y, rest)) =
          rw q at h in
        let left : drop n b ≡ rest = rest-ok found in omega (arith, ap length left, length-drop n b)
  ]

  pub Reads-bytes : (e : E) (n : ℕ) → Reads e 0 (get_bytes e n)
  unfolding get_bytes
  Reads-bytes e n = record { fails = λ b x h. ground arith; takes = bytes-Takes e n }

  pub Reads-weaken :
      {A : Type 0} {e : E} {k m : ℕ} (r : Get E A) → Reads e k r → m ≤ k → Reads e m r
  Reads-weaken r s h = record {
    fails = s.fails;
    takes = λ b rest a q. omega (arith, s.takes b rest a q, h);
  }

  pub Reads-if :
      {A : Type 0} {e : E} {k : ℕ} (c : Bool) (r s : Get E A)
      → Reads e k r
      → Reads e k s
      → Reads e k (if c then r else s)
  Reads-if true r s h h' = h
  Reads-if false r s h h' = h'
