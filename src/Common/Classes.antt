-- ===== src/Common/Classes.antt =====
-- Equality tests of keys as an interface, with the instances that the components use.
use mathlib.Core.Path.{◌≡◌, refl}
use mathlib.Core.Logic.{◌↔◌, ◌≢◌, inl, inr}
use mathlib.Core.Bool.{Bool, true, false, ◌&&◌}
use mathlib.Core.List.{List, [], ◌∷◌}
use Prim.Native.Nat.{ℕ}
use rsms.Common.Tests.{◌==◌, ==_iff, Bool-cases}
use native.Mathlib.Omega.{arith}

pub record Eq {ℓ} (A : Type ℓ) : Type ℓ where
  pub beq : A → A → Bool
  pub beq_iff : (a b : A) → (beq a b ≡ true) ↔ (a ≡ b)

module _ {ℓ} {A : Type ℓ} (e : Eq A) where
  pub beq_refl : (a : A) → e.beq a a ≡ true
  beq_refl a = (e.beq_iff a a).1 refl

  pub beq_ne : (a b : A) → a ≢ b → e.beq a b ≡ false
  beq_ne a b h = elim (Bool-cases (e.beq a b)) [
    | inl hit ↦ absurd (h ((e.beq_iff a b).0 hit))
    | inr miss ↦ miss
  ]

instance abbrev pub nat_eq : Eq ℕ
nat_eq = record { beq = ◌==◌; beq_iff = ==_iff }

abbrev pub list_beq {ℓ} : {A : Type ℓ} → (A → A → Bool) → List A → List A → Bool
list_beq f [] [] = true
list_beq f [] (y ∷ ys) = false
list_beq f (x ∷ xs) [] = false
list_beq f (x ∷ xs) (y ∷ ys) = f x y && list_beq f xs ys

module _ {ℓ} {A : Type ℓ} (e : Eq A) where
  pub list_beq→eq : (xs ys : List A) → list_beq e.beq xs ys ≡ true → xs ≡ ys
  list_beq→eq [] [] h = refl
  list_beq→eq [] (y ∷ ys) h = cc
  list_beq→eq (x ∷ xs) [] h = cc
  list_beq→eq (x ∷ xs) (y ∷ ys) h = ground (arith, e.beq_iff x y, list_beq→eq xs ys)

  pub list_beq_refl : (xs : List A) → list_beq e.beq xs xs ≡ true
  list_beq_refl [] = refl
  list_beq_refl (x ∷ xs) = ground (arith, e.beq_iff x x, list_beq_refl xs)

pub list_beq_iff : (xs ys : List ℕ) → (list_beq ◌==◌ xs ys ≡ true) ↔ (xs ≡ ys)
list_beq_iff xs ys = (list_beq→eq nat_eq xs ys, λ h. rw (h) (list_beq_refl nat_eq ys))

instance abbrev pub bytes_eq : Eq (List ℕ)
bytes_eq = record { beq = list_beq ◌==◌; beq_iff = list_beq_iff }
