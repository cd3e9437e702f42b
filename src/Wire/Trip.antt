-- ===== src/Wire/Trip.antt =====
-- A writer and a reader that belong together, and how those of a body follow from those of its fields.
use rsms.Common.{
  ℕ, ◌+◌, ◌*◌, ◌≤◌, ◌<◌, ◌≡◌, refl, sym, ap, subst, ◌∙◌, Bool, false, List, [], ◌∷◌, ◌++◌,
  append_assoc, ltb, length, length-append, take-append, drop-append, All, Result, ok, Result-cases,
  inl, inr, arith,
}
use rsms.Common.Bytes.{u16_mod, u32_mod, u16_be, u32_be, from_u16_be-u16_be, from_u32_be-u32_be}
use rsms.Wire.Fields.{
  Get, Put, ◌>>=◌, ◌⊕◌, pure, done, check, put_check, ensure, get_u8, get_u16, get_u32, get_bytes,
  get_many, put_u8, put_u16, put_u32, put_slice, put_many, lift,
}

-- The writer appends `size` bytes, from which the reader takes the value and no more.
pub record Trip {E F A : Type 0} (w : Put E) (r : Get F A) (a : A) (size : ℕ) : Type 0 where
  pub bytes : List ℕ
  pub written : w ≡ ok bytes
  pub width : length bytes ≡ size
  pub reads : (rest : List ℕ) → r (bytes ++ rest) ≡ ok (a, rest)

module _ {F : Type 0} where
  reads-seq :
      {A B : Type 0} {x : A} {y : B} (r : Get F A) (f : A → Get F B) (front back : List ℕ)
      → ((rest : List ℕ) → r (front ++ rest) ≡ ok (x, rest))
      → ((rest : List ℕ) → f x (back ++ rest) ≡ ok (y, rest))
      → (rest : List ℕ) → (r >>= f) ((front ++ back) ++ rest) ≡ ok (y, rest)
  unfolding ◌>>=◌
  reads-seq r f front back first second rest =
      rw (append_assoc front back rest) (rw (first (back ++ rest), ◌>>=◌) (second rest))

  Reads-ensure :
      {A : Type 0} {x : A} (r : Get F A) (n k : ℕ) (e : F) (b rest : List ℕ)
      → k ≤ length b
      → r (b ++ rest) ≡ ok (x, rest)
      → (ensure e k >>= λ _. r) (b ++ rest) ≡ ok (x, rest)
  unfolding ◌>>=◌ ensure
  Reads-ensure r n k e b rest h q =
      let enough : ltb (length (b ++ rest)) k ≡ false = ground (arith, length-append b rest) in
      rw (enough, ◌>>=◌) q

  >>=-assoc :
      {A B C : Type 0} (r : Get F A) (g : A → Get F B) (f : B → Get F C) (b : List ℕ)
      → ((r >>= g) >>= f) b ≡ (r >>= λ x. (g x >>= f)) b
  unfolding ◌>>=◌
  >>=-assoc r g f b = elim (Result-cases (r b)) [
    | inl ((a, rest), e) ↦ rw (e, ◌>>=◌) refl
    | inr (x, e) ↦ rw (e, ◌>>=◌) refl
  ]

  Reads-bytes :
      (e : F) (n : ℕ) (v rest : List ℕ) → length v ≡ n → get_bytes e n (v ++ rest) ≡ ok (v, rest)
  unfolding get_bytes
  Reads-bytes e n v rest h =
      let enough : ltb (length (v ++ rest)) (length v) ≡ false =
        ground (arith, length-append v rest) in
      rw (← h, take-append v rest, drop-append v rest) (rw enough refl)

module _ {E F : Type 0} where
  pub Trip-pure : {A : Type 0} (a : A) → Trip {E = E} {F = F} done (pure a) a 0
  unfolding done pure
  Trip-pure a = record { bytes = []; written = refl; width = refl; reads = λ rest. refl }

  -- A field and the fields after it.
  pub Trip-seq :
      {A B : Type 0} {w v : Put E} {r : Get F A} {x : A} {y : B} {m n : ℕ} (f : A → Get F B)
      → Trip w r x m
      → Trip v (f x) y n
      → Trip (w ⊕ v) (r >>= f) y (m + n)
  unfolding ◌⊕◌
  Trip-seq {r = r} f s t = record {
    bytes = s.bytes ++ t.bytes;
    written = rw (s.written, t.written) refl;
    width = omega (arith, length-append s.bytes t.bytes, s.width, t.width);
    reads = reads-seq r f s.bytes t.bytes s.reads t.reads;
  }

  -- A check that does not fail, before the fields.
  pub Trip-check :
      {A : Type 0} {w : Put E} {r : Get F A} {x : A} {n : ℕ} {bad : Bool} (e : F)
      → bad ≡ false
      → Trip w r x n
      → Trip w (check bad e >>= λ _. r) x n
  unfolding ◌>>=◌ check
  Trip-check e q t = record {
    bytes = t.bytes;
    written = t.written;
    width = t.width;
    reads = λ rest. rw (q, ◌>>=◌) (t.reads rest);
  }

  pub Trip-put_check :
      {A : Type 0} {w : Put E} {r : Get F A} {x : A} {n : ℕ} {bad : Bool} (e : E)
      → bad ≡ false
      → Trip w r x n
      → Trip (put_check bad e ⊕ w) r x n
  unfolding ◌⊕◌ put_check
  Trip-put_check e q t = record {
    bytes = t.bytes;
    written = rw (q, t.written) refl;
    width = t.width;
    reads = t.reads;
  }

  -- Enough bytes remain where the fields after the check take as many.
  pub Trip-ensure :
      {A : Type 0} {w : Put E} {r : Get F A} {x : A} {n : ℕ} (k : ℕ) (e : F)
      → k ≤ n
      → Trip w r x n
      → Trip w (ensure e k >>= λ _. r) x n
  Trip-ensure {r = r} {n = n} k e h t = record {
    bytes = t.bytes;
    written = t.written;
    width = t.width;
    reads = λ rest. Reads-ensure r n k e t.bytes rest (omega (arith, t.width)) (t.reads rest);
  }

  -- A reader of several parts, in front of what follows.
  pub Trip-assoc :
      {A B C : Type 0} {w : Put E} {x : C} {n : ℕ} (r : Get F A) (g : A → Get F B) (f : B → Get F C)
      → Trip w (r >>= λ y. (g y >>= f)) x n
      → Trip w ((r >>= g) >>= f) x n
  Trip-assoc r g f t = record {
    bytes = t.bytes;
    written = t.written;
    width = t.width;
    reads = λ rest. >>=-assoc r g f (t.bytes ++ rest) ∙ t.reads rest;
  }

  pub Trip-unassoc :
      {A B C : Type 0} {w : Put E} {x : C} {n : ℕ} (r : Get F A) (g : A → Get F B) (f : B → Get F C)
      → Trip w ((r >>= g) >>= f) x n
      → Trip w (r >>= λ y. (g y >>= f)) x n
  Trip-unassoc r g f t = record {
    bytes = t.bytes;
    written = t.written;
    width = t.width;
    reads = λ rest. sym (>>=-assoc r g f (t.bytes ++ rest)) ∙ t.reads rest;
  }

  pub Trip-resize :
      {A : Type 0} {w : Put E} {r : Get F A} {x : A} {m n : ℕ} → Trip w r x m → m ≡ n → Trip w r x n
  Trip-resize t e = record {
    bytes = t.bytes;
    written = t.written;
    width = t.width ∙ e;
    reads = t.reads;
  }

  -- A value that is computed and not read, in front of what follows.
  pub Trip-lift :
      {A B : Type 0} {w : Put E} {m : Result F A} {x : A} {y : B} {n : ℕ} (f : A → Get F B)
      → m ≡ ok x
      → Trip w (f x) y n
      → Trip w (lift m >>= f) y n
  unfolding ◌>>=◌ lift
  Trip-lift f q t = record {
    bytes = t.bytes;
    written = t.written;
    width = t.width;
    reads = λ rest. rw (q, lift, ◌>>=◌) (t.reads rest);
  }

  -- A value computed from a read one.
  pub Trip-map :
      {A B : Type 0} {w : Put E} {r : Get F A} {x : A} {n : ℕ} (g : A → B)
      → Trip w r x n
      → Trip w (r >>= λ y. pure (g y)) (g x) n
  unfolding ◌>>=◌ pure
  Trip-map g t = record {
    bytes = t.bytes;
    written = t.written;
    width = t.width;
    reads = λ rest. rw (t.reads rest, ◌>>=◌) refl;
  }

  pub Trip-u8 : (e : F) (n : ℕ) → Trip {E = E} (put_u8 n) (get_u8 e) n 1
  unfolding put_u8 get_u8
  Trip-u8 e n = record { bytes = n ∷ []; written = refl; width = refl; reads = λ rest. refl }

  pub Trip-u16 : (e : F) {n : ℕ} → n < u16_mod → Trip {E = E} (put_u16 n) (get_u16 e) n 2
  unfolding put_u16 get_u16 u16_be
  Trip-u16 e {n} h = record {
    bytes = u16_be n;
    written = refl;
    width = refl;
    reads = λ rest. ap (λ (k : ℕ). ok (k, rest)) (from_u16_be-u16_be n h);
  }

  pub Trip-u32 : (e : F) {n : ℕ} → n < u32_mod → Trip {E = E} (put_u32 n) (get_u32 e) n 4
  unfolding put_u32 get_u32 u32_be
  Trip-u32 e {n} h = record {
    bytes = u32_be n;
    written = refl;
    width = refl;
    reads = λ rest. ap (λ (k : ℕ). ok (k, rest)) (from_u32_be-u32_be n h);
  }

  pub Trip-bytes :
      (e : F) {n : ℕ} {v : List ℕ} → length v ≡ n → Trip {E = E} (put_slice v) (get_bytes e n) v n
  unfolding put_slice
  Trip-bytes e {n} {v} h = record {
    bytes = v;
    written = refl;
    width = h;
    reads = λ rest. Reads-bytes e n v rest h;
  }

  -- As many values as are written one after another.
  pub Trip-many :
      {A : Type 0} {w : A → Put E} {r : Get F A} {k : ℕ} (P : A → Type 0) (xs : List A)
      → ((x : A) → P x → Trip (w x) r x k)
      → All P xs
      → Trip (put_many w xs) (get_many (length xs) r) xs (length xs * k)
  unfolding put_many get_many
  Trip-many P [] each all = Trip-resize (Trip-pure []) (omega arith)
  Trip-many {k = k} P (x ∷ xs) each all =
      Trip-resize (Trip-seq _ (each x all.0) (Trip-map (◌∷◌ x) (Trip-many P xs each all.1)))
        (omega arith)

  -- The reader's count is one that was read before.
  pub Trip-counted :
      {A : Type 0} {w : A → Put E} {r : Get F A} {k n : ℕ} (P : A → Type 0) (xs : List A)
      → n ≡ length xs
      → ((x : A) → P x → Trip (w x) r x k)
      → All P xs
      → Trip (put_many w xs) (get_many n r) xs (length xs * k)
  Trip-counted {w = w} {r = r} {k = k} P xs count each all =
      subst (λ (m : ℕ). Trip (put_many w xs) (get_many m r) xs (length xs * k)) (sym count)
        (Trip-many P xs each all)
