-- ===== src/Pool/Rotation.antt =====
-- The order in which the loop of crates/rsms-connector/src/pool.rs visits the connections.
use native.Mathlib.Nat.{suc-mod, mod-eq_of_lt, mod_self}
use rsms.Common.{
  ℕ, zero, suc, ◌+◌, ◌%◌, ◌≤◌, ◌<◌, ◌≡◌, refl, ap, ◌∙◌, ◌⊎◌, inl, inr, Bool, true, false, Option,
  none, some, List, [], ◌∷◌, ◌++◌, length, take, drop, take_short, drop_all, length-drop, arith,
}
use rsms.Common.Bytes.{u64_mod}
use rsms.Pool.{Connection, get_elem?, fetch_loop}

-- The first connection that passes the test.
unfoldable pub find : (Connection → Bool) → List Connection → Option Connection
find test [] = none
find test (c ∷ cs) = elim (test c) [ true ↦ some c | false ↦ find test cs ]

-- The list from its `r`-th element on, and then its first `r` elements.
abbrev pub rotate : ℕ → List Connection → List Connection
rotate r cs = drop r cs ++ take r cs

pub elem-drop :
    (cs : List Connection) (r : ℕ)
    → r < length cs
    → (c : Connection) × (get_elem? cs r ≡ some c) × (drop r cs ≡ c ∷ drop (suc r) cs)
elem-drop [] r h = absurd (omega arith)
elem-drop (c ∷ cs) zero h = (c, refl, refl)
elem-drop (c ∷ cs) (suc r) h = elem-drop cs r (omega arith)

take_over :
    (xs ys : List Connection) (m n : ℕ) → n ≡ length xs + m → take n (xs ++ ys) ≡ xs ++ take m ys
take_over [] ys m n h = let same : n ≡ m = omega arith in ap (λ (k : ℕ). take k ys) same
take_over (x ∷ xs) ys m zero h = absurd (omega arith)
take_over (x ∷ xs) ys m (suc n) h = ap (◌∷◌ x) (take_over xs ys m n (omega arith))

pub take-rotate :
    (r : ℕ) (cs : List Connection)
    → r ≤ length cs
    → take (length cs) (drop r cs ++ cs) ≡ rotate r cs
take-rotate r cs h = take_over (drop r cs) cs r (length cs) (omega (arith, length-drop r cs))

-- The index in the next round: one more, or 0 at the end.
pub next_index :
    (m n r : ℕ)
    → m % n ≡ r
    → r < n
    → ((suc r < n) × (suc m % n ≡ suc r)) ⊎ ((suc r ≡ n) × (suc m % n ≡ 0))
next_index m n r h small = elim (lt_or_eq r n small) [
  | inl more ↦ inl (more, suc-mod m n ∙ ap (λ (k : ℕ). suc k % n) h ∙ mod-eq_of_lt more)
  | inr last ↦
      inr
        (last, suc-mod m n ∙ ap (λ (k : ℕ). suc k % n) h ∙ ap (λ (k : ℕ). k % n) last ∙ mod_self n)
]
  where
    lt_or_eq : (r n : ℕ) → r < n → (suc r < n) ⊎ (suc r ≡ n)
    lt_or_eq r n h = ground arith

pub drop_last :
    (cs : List Connection) (r left : ℕ)
    → suc r ≡ length cs
    → left ≤ length cs
    → take left (cs ++ cs) ≡ take left (drop (suc r) cs ++ cs)
drop_last cs r left last few = rw (drop_all (suc r) cs (omega arith)) (take_short left cs cs few)

-- The rounds that are left visit the list from index `r` on, and then from its start.
pub loop-find :
    (test : Connection → Bool) (cs : List Connection) (start i r left : ℕ)
    → (start + i) % length cs ≡ r
    → r < length cs
    → left ≤ length cs
    → start + i + left ≤ u64_mod
    → fetch_loop test cs start i left ≡ find test (take left (drop r cs ++ cs))
unfolding fetch_loop find
loop-find test cs start i r zero at small few fits = refl
loop-find test cs start i r (suc left) at small few fits =
    let (c, got, dropped) = elem-drop cs r small in
    let index : (start + i) % u64_mod % length cs ≡ r =
      ap (λ (k : ℕ). k % length cs) (mod-eq_of_lt (omega arith)) ∙ at in
    let moved : start + suc i ≡ suc (start + i) = omega arith in
    let later : fetch_loop test cs start (suc i) left
        ≡ find test (take left (drop (suc r) cs ++ cs)) =
      elim (next_index (start + i) (length cs) r at small) [
        | inl (more, next) ↦
            loop-find test cs start (suc i) (suc r) left
              (ap (λ (k : ℕ). k % length cs) moved ∙ next) more (omega arith) (omega arith)
        | inr (last, next) ↦
            loop-find test cs start (suc i) 0 left (ap (λ (k : ℕ). k % length cs) moved ∙ next)
              (omega arith) (omega arith) (omega arith)
            ∙ ap (find test) (drop_last cs r left last (omega arith))
      ] in
    rw (index, fetch_loop)
      (rw (got, fetch_loop)
        (rw dropped
          (ap (λ (o : Option Connection). elim (test c) [ true ↦ some c | false ↦ o ]) later)))
