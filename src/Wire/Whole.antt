-- ===== src/Wire/Whole.antt =====
-- Writers and readers of a body that ends the frame, so that the reader may read to the end.
use rsms.Common.{
  ℕ, ◌+◌, ◌≤◌, ◌≡◌, refl, ◌∙◌, subst, false, List, [], ◌++◌, append-nil, ltb, length, length-append,
  ok, arith,
}
use rsms.Wire.Fields.{Get, Put, ◌>>=◌, ◌⊕◌, ensure, pure}
use rsms.Wire.Trip.{Trip}

-- The writer's `size` bytes are all of a body, which the reader consumes.
pub record Whole {E F A : Type 0} (w : Put E) (r : Get F A) (a : A) (size : ℕ) : Type 0 where
  pub bytes : List ℕ
  pub written : w ≡ ok bytes
  pub width : length bytes ≡ size
  pub reads : (rest : List ℕ) × (r bytes ≡ ok (a, rest))

pub Trip-Whole :
    {E F A : Type 0} {w : Put E} {r : Get F A} {a : A} {size : ℕ}
    → Trip w r a size
    → Whole w r a size
Trip-Whole {r = r} {a = a} t = record {
  bytes = t.bytes;
  written = t.written;
  width = t.width;
  reads = ([], subst (λ (l : List ℕ). r l ≡ ok (a, [])) (append-nil t.bytes) (t.reads []));
}

module _ {F : Type 0} where
  reads-whole :
      {A B : Type 0} {x : A} {y : B} (r : Get F A) (f : A → Get F B) (front back rest : List ℕ)
      → r (front ++ back) ≡ ok (x, back)
      → f x back ≡ ok (y, rest)
      → (r >>= f) (front ++ back) ≡ ok (y, rest)
  unfolding ◌>>=◌
  reads-whole r f front back rest first second = rw (first, ◌>>=◌) second

module _ {E F : Type 0} where
  pub Whole-seq :
      {A B : Type 0} {w v : Put E} {r : Get F A} {x : A} {y : B} {m n : ℕ} (f : A → Get F B)
      → Trip w r x m
      → Whole v (f x) y n
      → Whole (w ⊕ v) (r >>= f) y (m + n)
  unfolding ◌⊕◌
  Whole-seq {r = r} f s t = record {
    bytes = s.bytes ++ t.bytes;
    written = rw (s.written, t.written) refl;
    width = omega (arith, length-append s.bytes t.bytes, s.width, t.width);
    reads = (t.reads.0, reads-whole r f s.bytes t.bytes t.reads.0 (s.reads t.bytes) t.reads.1);
  }

  pub Whole-ensure :
      {A : Type 0} {w : Put E} {r : Get F A} {x : A} {n : ℕ} (k : ℕ) (e : F)
      → k ≤ n
      → Whole w r x n
      → Whole w (ensure e k >>= λ _. r) x n
  unfolding ◌>>=◌ ensure
  Whole-ensure k e h t =
      let enough : ltb (length t.bytes) k ≡ false = ground (arith, h, t.width) in
      record {
        bytes = t.bytes;
        written = t.written;
        width = t.width;
        reads = (t.reads.0, rw (enough, ◌>>=◌) (t.reads.1));
      }

  pub Whole-resize :
      {A : Type 0} {w : Put E} {r : Get F A} {x : A} {m n : ℕ}
      → Whole w r x m
      → m ≡ n
      → Whole w r x n
  Whole-resize t e = record {
    bytes = t.bytes;
    written = t.written;
    width = t.width ∙ e;
    reads = t.reads;
  }

  pub Whole-map :
      {A B : Type 0} {w : Put E} {r : Get F A} {x : A} {n : ℕ} (g : A → B)
      → Whole w r x n
      → Whole w (r >>= λ y. pure (g y)) (g x) n
  unfolding ◌>>=◌ pure
  Whole-map g t = record {
    bytes = t.bytes;
    written = t.written;
    width = t.width;
    reads = (t.reads.0, rw (t.reads.1, ◌>>=◌) refl);
  }
