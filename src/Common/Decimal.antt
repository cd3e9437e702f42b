-- ===== src/Common/Decimal.antt =====
-- Decimal printing of unsigned integers (`to_string`, `{}`), as the bytes of the text.
use rsms.Common.Tests.{ltb, if◌then◌else◌, Bool-cases}
use rsms.Common.Lists.{All}
use Prim.Native.Nat.{ℕ, zero, suc, ◌+◌, ◌-◌, ◌*◌, ◌/◌, ◌%◌, ◌≤◌, ◌<◌}
use mathlib.Core.Path.{◌≡◌, sym, ap, ◌∙◌}
use mathlib.Core.Logic.{inl, inr}
use mathlib.Core.List.{List, [], ◌∷◌}
use native.Mathlib.Omega.{arith}

abbrev pub IsDigit : ℕ → Type 0
IsDigit c = (48 ≤ c) × (c ≤ 57)

-- Each round writes the last digit in front of what is written already.
unfoldable pub digits_loop : ℕ → ℕ → List ℕ → List ℕ
digits_loop zero n acc = acc
digits_loop (suc f) n acc =
    let more = digits_loop f (n / 10) ((48 + n % 10) ∷ acc) in
    if ltb n 10 then (48 + n) ∷ acc else more

-- `n + 1` rounds are enough, since the number falls in each.
unfoldable pub to_string : ℕ → List ℕ
unfolding digits_loop
to_string n = digits_loop (suc n) n []

value_from : ℕ → List ℕ → ℕ
value_from a [] = a
value_from a (c ∷ cs) = value_from (a * 10 + (c - 48)) cs

digits_loop-value :
    (f n : ℕ) (acc : List ℕ) → n < f → value_from 0 (digits_loop f n acc) ≡ value_from n acc
unfolding digits_loop value_from
digits_loop-value zero n acc h = absurd (omega arith)
digits_loop-value (suc f) n acc h = elim (Bool-cases (ltb n 10)) [
  | inl e ↦ rw e (ap (λ (k : ℕ). value_from k acc) (omega arith))
  | inr e ↦
      let small : n / 10 < f = ground arith in
      let back : n / 10 * 10 + (48 + n % 10 - 48) ≡ n = omega arith in
      rw e (
        digits_loop-value f (n / 10) ((48 + n % 10) ∷ acc) small
        ∙ ap (λ (k : ℕ). value_from k acc) back)
]

to_string-value : (n : ℕ) → value_from 0 (to_string n) ≡ n
unfolding to_string value_from
to_string-value n = digits_loop-value (suc n) n [] (omega arith)

-- Two numbers with the same text are equal.
pub to_string_injective : (m n : ℕ) → to_string m ≡ to_string n → m ≡ n
to_string_injective m n h = sym (to_string-value m) ∙ ap (value_from 0) h ∙ to_string-value n

digits_loop-IsDigit : (f n : ℕ) (acc : List ℕ) → All IsDigit acc → All IsDigit (digits_loop f n acc)
unfolding digits_loop
digits_loop-IsDigit zero n acc h = h
digits_loop-IsDigit (suc f) n acc h =
    ground (arith, digits_loop-IsDigit f (n / 10) ((48 + n % 10) ∷ acc))

pub to_string-IsDigit : (n : ℕ) → All IsDigit (to_string n)
unfolding to_string
to_string-IsDigit n = digits_loop-IsDigit (suc n) n [] tt
