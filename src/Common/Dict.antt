-- ===== src/Common/Dict.antt =====
-- `HashMap` and `DashMap` as an association list in the order of first insertion. A map whose keys
-- are distinct (`Unique`) has no two entries for one key; every operation keeps that.
use rsms.Common.Tests.{if◌then◌else◌, Bool-cases}
use rsms.Common.Lists.{length, All}
use rsms.Common.Classes.{Eq, beq_refl, beq_ne}
use Prim.Native.Nat.{suc, ◌≤◌, ◌<◌}
use mathlib.Core.Path.{◌≡◌, refl, sym, ap, ◌∙◌}
use mathlib.Core.Logic.{inl, inr, ◌≢◌}
use mathlib.Core.Bool.{Bool, true, false}
use mathlib.Core.List.{List, [], ◌∷◌}
use mathlib.Core.Option.{Option, none, some}
use native.Mathlib.Omega.{arith}

unfoldable pub retain {ℓ} : {A : Type ℓ} → (A → Bool) → List A → List A
retain p [] = []
retain p (x ∷ m) = if p x then x ∷ retain p m else retain p m

module _ {ℓ κ} {K : Type ℓ} {V : Type κ} ⦃e : Eq K⦄ where
  unfoldable pub lookup : K → List (K × V) → Option V
  lookup k [] = none
  lookup k ((j, v) ∷ m) = if e.beq j k then some v else lookup k m

  unfoldable pub insert : K → V → List (K × V) → List (K × V)
  insert k v [] = (k, v) ∷ []
  insert k v ((j, w) ∷ m) = if e.beq j k then (j, v) ∷ m else (j, w) ∷ insert k v m

  unfoldable pub remove : K → List (K × V) → List (K × V)
  remove k [] = []
  remove k ((j, w) ∷ m) = if e.beq j k then remove k m else (j, w) ∷ remove k m

  unfoldable pub contains_key : K → List (K × V) → Bool
  unfolding lookup
  contains_key k m = elim (lookup k m) [ none ↦ false | some v ↦ true ]

  pub lookup-insert :
      (k j : K) (v : V) (m : List (K × V))
      → lookup j (insert k v m) ≡ (if e.beq k j then some v else lookup j m)
  unfolding lookup insert
  lookup-insert k j v [] = refl
  lookup-insert k j v ((i, w) ∷ m) =
      ground
        (arith, e.beq_iff k j, e.beq_iff i k, e.beq_iff i j, e.beq_iff j j, lookup-insert k j v m)

  pub lookup-remove :
      (k j : K) (m : List (K × V))
      → lookup j (remove k m) ≡ (if e.beq k j then none else lookup j m)
  unfolding lookup remove
  lookup-remove k j [] = ground arith
  lookup-remove k j ((i, w) ∷ m) =
      ground (arith, e.beq_iff k j, e.beq_iff i k, e.beq_iff i j, lookup-remove k j m)

  pub lookup-insert_self : (k : K) (v : V) (m : List (K × V)) → lookup k (insert k v m) ≡ some v
  lookup-insert_self k v m = rw (lookup-insert k k v m, beq_refl e k)

  pub lookup-insert_ne :
      (k j : K) (v : V) (m : List (K × V)) → k ≢ j → lookup j (insert k v m) ≡ lookup j m
  lookup-insert_ne k j v m h = rw (lookup-insert k j v m, beq_ne e k j h)

  pub lookup-remove_self : (k : K) (m : List (K × V)) → lookup k (remove k m) ≡ none
  lookup-remove_self k m = rw (lookup-remove k k m, beq_refl e k)

  pub lookup-remove_ne : (k j : K) (m : List (K × V)) → k ≢ j → lookup j (remove k m) ≡ lookup j m
  lookup-remove_ne k j m h = rw (lookup-remove k j m, beq_ne e k j h)

  pub remove_missing : (k : K) (m : List (K × V)) → lookup k m ≡ none → remove k m ≡ m
  unfolding lookup remove
  remove_missing k [] h = refl
  remove_missing k ((j, w) ∷ m) h = ground (arith, remove_missing k m)

  pub lookup_head : (k : K) (v : V) (m : List (K × V)) → lookup k ((k, v) ∷ m) ≡ some v
  unfolding lookup
  lookup_head k v m = rw (beq_refl e k)

  pub lookup_skip :
      (k j : K) (v : V) (m : List (K × V)) → k ≢ j → lookup j ((k, v) ∷ m) ≡ lookup j m
  unfolding lookup
  lookup_skip k j v m h = rw (beq_ne e k j h)

  pub remove_head :
      (k : K) (v : V) (m : List (K × V)) → lookup k m ≡ none → remove k ((k, v) ∷ m) ≡ m
  unfolding remove
  remove_head k v m h = rw (beq_refl e k) (remove_missing k m h)

  pub remove_skip :
      (k j : K) (v : V) (m : List (K × V)) → k ≢ j → remove j ((k, v) ∷ m) ≡ (k, v) ∷ remove j m
  unfolding remove
  remove_skip k j v m h = rw (beq_ne e k j h)

  pub length-insert_new :
      (k : K) (v : V) (m : List (K × V))
      → lookup k m ≡ none
      → length (insert k v m) ≡ suc (length m)
  unfolding lookup insert
  length-insert_new k v [] h = refl
  length-insert_new k v ((j, w) ∷ m) h = ground (arith, length-insert_new k v m)

  pub length-remove-le : (k : K) (m : List (K × V)) → length (remove k m) ≤ length m
  unfolding remove
  length-remove-le k [] = omega arith
  length-remove-le k ((j, w) ∷ m) = ground (arith, length-remove-le k m)

  pub length-remove-lt :
      (k : K) (v : V) (m : List (K × V)) → lookup k m ≡ some v → length (remove k m) < length m
  unfolding lookup remove
  length-remove-lt k v [] h = cc
  length-remove-lt k v ((j, w) ∷ m) h = ground (arith, length-remove-le k m, length-remove-lt k v m)

  abbrev pub Unique : List (K × V) → Type (ℓ ⊔ κ)
  Unique [] = Unit {ℓ ⊔ κ}
  Unique ((k, v) ∷ m) = (lookup k m ≡ none) × Unique m

  pub Unique-insert : (k : K) (v : V) (m : List (K × V)) → Unique m → Unique (insert k v m)
  unfolding insert
  Unique-insert k v [] u = (unfold lookup in refl, tt)
  Unique-insert k v ((j, w) ∷ m) u = elim (Bool-cases (e.beq j k)) [
    | inl hit ↦ rw hit u
    | inr miss ↦
        let apart : k ≢ j = λ q. cc (miss, (e.beq_iff j k).1 (sym q)) in
        rw miss (lookup-insert_ne k j v m apart ∙ u.0, Unique-insert k v m u.1)
  ]

  lookup-remove-none :
      (k j : K) (m : List (K × V)) → lookup j m ≡ none → lookup j (remove k m) ≡ none
  lookup-remove-none k j m h = ground (arith, lookup-remove k j m)

  pub Unique-remove : (k : K) (m : List (K × V)) → Unique m → Unique (remove k m)
  unfolding remove
  Unique-remove k [] u = tt
  Unique-remove k ((j, w) ∷ m) u = elim (Bool-cases (e.beq j k)) [
    | inl hit ↦ rw hit (Unique-remove k m u.1)
    | inr miss ↦ rw miss (lookup-remove-none k j m u.0, Unique-remove k m u.1)
  ]

  lookup_hit :
      {k j : K} {v w : V} (m : List (K × V))
      → e.beq j k ≡ true
      → lookup k ((j, w) ∷ m) ≡ some v
      → (j ≡ k) × (w ≡ v)
  unfolding lookup
  lookup_hit {k} {j} m hit h = ground (arith, e.beq_iff j k)

  pub lookup-retain-some :
      (p : K × V → Bool) (k : K) (v : V) (m : List (K × V))
      → lookup k m ≡ some v
      → p (k, v) ≡ true
      → lookup k (retain p m) ≡ some v
  unfolding lookup retain
  lookup-retain-some p k v [] h keep = cc
  lookup-retain-some p k v ((j, w) ∷ m) h keep = elim (Bool-cases (e.beq j k)) [
    | inl hit ↦
        let (same, value) = lookup_hit m hit h in
        let kept : p (j, w) ≡ true = rw (same, value) keep in rw (kept, hit) (ap some value)
    | inr miss ↦ elim (Bool-cases (p (j, w))) [
      | inl kept ↦ rw (kept, miss) (lookup-retain-some p k v m (rw miss at h) keep)
      | inr gone ↦ rw gone (lookup-retain-some p k v m (rw miss at h) keep)
    ]
  ]

  pub lookup-retain-none :
      (p : K × V → Bool) (k : K) (m : List (K × V))
      → lookup k m ≡ none
      → lookup k (retain p m) ≡ none
  unfolding lookup retain
  lookup-retain-none p k [] h = refl
  lookup-retain-none p k ((j, w) ∷ m) h = ground (arith, lookup-retain-none p k m)

  -- A predicate on all entries through the operations.
  module _ {ι} (P : K × V → Type ι) where
    pub All-insert : (k : K) (v : V) (m : List (K × V)) → P (k, v) → All P m → All P (insert k v m)
    unfolding insert
    All-insert k v [] hv h = (hv, tt)
    All-insert k v ((j, w) ∷ m) hv h = elim (Bool-cases (e.beq j k)) [
      | inl hit ↦ let same = (e.beq_iff j k).0 hit in rw hit (rw same hv, h.1)
      | inr miss ↦ rw miss (h.0, All-insert k v m hv h.1)
    ]

    pub All-remove : (k : K) (m : List (K × V)) → All P m → All P (remove k m)
    unfolding remove
    All-remove k [] h = tt
    All-remove k ((j, w) ∷ m) h = elim (Bool-cases (e.beq j k)) [
      | inl hit ↦ rw hit (All-remove k m h.1)
      | inr miss ↦ rw miss (h.0, All-remove k m h.1)
    ]

    pub All-retain : (p : K × V → Bool) (m : List (K × V)) → All P m → All P (retain p m)
    unfolding retain
    All-retain p [] h = tt
    All-retain p (x ∷ m) h = elim (Bool-cases (p x)) [
      | inl kept ↦ rw kept (h.0, All-retain p m h.1)
      | inr gone ↦ rw gone (All-retain p m h.1)
    ]

    pub All-lookup : (k : K) (v : V) (m : List (K × V)) → All P m → lookup k m ≡ some v → P (k, v)
    unfolding lookup
    All-lookup k v [] h found = cc
    All-lookup k v ((j, w) ∷ m) h found = elim (Bool-cases (e.beq j k)) [
      | inl hit ↦ let (same, value) = lookup_hit m hit found in rw (← same, ← value) h.0
      | inr miss ↦ All-lookup k v m h.1 (rw miss at found)
    ]

-- What a filter keeps passes its test.
pub retain-passes {ℓ} :
    {A : Type ℓ} (p : A → Bool) (m : List A) → All (λ x. p x ≡ true) (retain p m)
unfolding retain
retain-passes p [] = tt
retain-passes p (x ∷ m) = elim (Bool-cases (p x)) [
  | inl kept ↦ rw kept (kept, retain-passes p m)
  | inr gone ↦ rw gone (retain-passes p m)
]
