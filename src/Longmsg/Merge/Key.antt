-- ===== src/Longmsg/Merge/Key.antt =====
-- The key of a group tells senders, references and totals apart, whatever bytes a sender has.
use rsms.Common.{
  ℕ, ◌<◌, ◌≡◌, subst, ◌⊎◌, ◌≢◌, refl, sym, List, [], ◌∷◌, ◌++◌, All, All-append, arith,
}
use rsms.Common.Decimal.{to_string, to_string-IsDigit, to_string_injective, IsDigit}
use rsms.Longmsg.Frame.{LongMessageFrame, unique_id}
use rsms.Longmsg.Merge.{group_key}

abbrev IsNot : ℕ → ℕ → Type 0
IsNot c x = x ≢ c

All-middle {ℓ} : (P : ℕ → Type ℓ) (c : ℕ) (xs ys : List ℕ) → All P (xs ++ (c ∷ ys)) → P c
All-middle P c [] ys h = h.0
All-middle P c (x ∷ xs) ys h = All-middle P c xs ys h.1

tail-eq : (c x : ℕ) (us xs : List ℕ) → c ∷ us ≡ x ∷ xs → us ≡ xs
tail-eq c x us xs e = cc

-- Behind the last separator the texts are equal.
split_last :
    (c : ℕ) (xs ys us vs : List ℕ)
    → All (IsNot c) us
    → All (IsNot c) vs
    → xs ++ (c ∷ us) ≡ ys ++ (c ∷ vs)
    → (xs ≡ ys) × (us ≡ vs)
split_last c [] [] us vs hu hv e = (refl, cc)
split_last c [] (y ∷ ys) us vs hu hv e = absurd (
    All-middle (IsNot c) c ys vs (subst (All (IsNot c)) (tail-eq c y us (ys ++ (c ∷ vs)) e) hu)
      refl)
split_last c (x ∷ xs) [] us vs hu hv e = absurd (
    All-middle (IsNot c) c xs us
      (subst (All (IsNot c)) (sym (tail-eq x c (xs ++ (c ∷ us)) vs e)) hv) refl)
split_last c (x ∷ xs) (y ∷ ys) us vs hu hv e =
    let (front, back) = split_last c xs ys us vs hu hv (tail-eq x y _ _ e) in (cc, back)

digits-IsNot : (c : ℕ) (xs : List ℕ) → (c < 48) ⊎ (57 < c) → All IsDigit xs → All (IsNot c) xs
digits-IsNot c [] h d = tt
digits-IsNot c (x ∷ xs) h d = (omega arith, digits-IsNot c xs h d.1)

to_string-IsNot : (c n : ℕ) → (c < 48) ⊎ (57 < c) → All (IsNot c) (to_string n)
to_string-IsNot c n h = digits-IsNot c (to_string n) h (to_string-IsDigit n)

-- The text of a reference and a total names both.
pub unique_id_injective :
    (f g : LongMessageFrame)
    → unique_id f ≡ unique_id g
    → (f.reference_id ≡ g.reference_id) × (f.total_segments ≡ g.total_segments)
unfolding unique_id
unique_id_injective f g e =
    let (ref, total) =
      split_last b'-' _ _ _ _ (to_string-IsNot b'-' f.total_segments (omega arith))
        (to_string-IsNot b'-' g.total_segments (omega arith)) e in
    (
      to_string_injective f.reference_id g.reference_id ref,
      to_string_injective f.total_segments g.total_segments total,
    )

unique_id-IsNot : (f : LongMessageFrame) → All (IsNot 0x1f) (unique_id f)
unfolding unique_id
unique_id-IsNot f =
    All-append (IsNot 0x1f) (to_string f.reference_id) (b'-' ∷ to_string f.total_segments)
      (to_string-IsNot 0x1f f.reference_id (omega arith))
      (omega arith, to_string-IsNot 0x1f f.total_segments (omega arith))

-- Two frames share a group only if sender, reference and total agree, also for senders that hold
-- the separator.
pub group_key_injective :
    (sender other : List ℕ) (f g : LongMessageFrame)
    → group_key sender f ≡ group_key other g
    → (sender ≡ other) × (f.reference_id ≡ g.reference_id) × (f.total_segments ≡ g.total_segments)
unfolding group_key
group_key_injective sender other f g e =
    let (who, what) = split_last 0x1f _ _ _ _ (unique_id-IsNot f) (unique_id-IsNot g) e in
    let (ref, total) = unique_id_injective f g what in (who, ref, total)
