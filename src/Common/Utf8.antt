-- ===== src/Common/Utf8.antt =====
-- `String::from_utf8_lossy` on bytes: a text is the list of its bytes. Each longest start of a
-- character that does not go on as one becomes U+FFFD.
use rsms.Common.Tests.{ltb, leb, ◌==◌, if◌then◌else◌}
use Prim.Native.Nat.{ℕ, zero, suc, ◌≤◌, ◌<◌}
use mathlib.Core.Path.{◌≡◌, refl, sym, ap, subst, ◌∙◌}
use rsms.Common.Lists.{replicate}
use mathlib.Core.Bool.{Bool, true, false, ◌&&◌}
use mathlib.Core.Option.{Option, none, some}
use mathlib.Core.List.{List, [], ◌∷◌, ◌++◌, append_assoc}
use native.Mathlib.Omega.{arith}

-- The range of the second byte behind a first one, and the number of bytes after it.
pub record Lead : Type 0 where
  pub low : ℕ
  pub high : ℕ
  pub more : ℕ

abbrev in_range : ℕ → ℕ → ℕ → Bool
in_range b low high = leb low b && leb b high

abbrev lead_of : ℕ → ℕ → ℕ → Option Lead
lead_of low high more = some (record { low = low; high = high; more = more })

unfoldable pub lead : ℕ → Option Lead
lead b =
    if in_range b 0xC2 0xDF
    then lead_of 0x80 0xBF 0
    else if b == 0xE0
    then lead_of 0xA0 0xBF 1
    else if b == 0xED
    then lead_of 0x80 0x9F 1
    else if in_range b 0xE1 0xEF
    then lead_of 0x80 0xBF 1
    else if b == 0xF0
    then lead_of 0x90 0xBF 2
    else if in_range b 0xF1 0xF3
    then lead_of 0x80 0xBF 2
    else if b == 0xF4
    then lead_of 0x80 0x8F 2
    else none

-- Between characters, or inside one: its bytes so far and what must follow.
pub data State : Type 0 where
  idle : State
  inside : List ℕ → Lead → State

abbrev pub replacement : List ℕ
replacement = 0xEF ∷ 0xBF ∷ 0xBD ∷ []

unfoldable pub start : ℕ → List ℕ × State
unfolding lead
start b =
    if ltb b 0x80
    then (b ∷ [], idle)
    else elim (lead b) [ none ↦ (replacement, idle) | some l ↦ ([], inside (b ∷ []) l) ]

abbrev pub tail_lead : ℕ → Lead
tail_lead more = record { low = 0x80; high = 0xBF; more = more }

unfoldable pub further : List ℕ → ℕ → ℕ → List ℕ × State
further seen zero b = (seen ++ (b ∷ []), idle)
further seen (suc more) b = ([], inside (seen ++ (b ∷ [])) (tail_lead more))

unfoldable pub step : State → ℕ → List ℕ × State
step idle b = start b
step (inside seen l) b =
    if in_range b l.low l.high
    then further seen l.more b
    else (replacement ++ (start b).0, (start b).1)

unfoldable pub lossy : State → List ℕ → List ℕ
lossy idle [] = []
lossy (inside seen l) [] = replacement
lossy s (b ∷ bs) = (step s b).0 ++ lossy (step s b).1 bs

unfoldable pub from_utf8_lossy : List ℕ → List ℕ
from_utf8_lossy b = lossy idle b

-- The bytes of a Rust string.
abbrev pub Tails : ℕ → List ℕ → Type 0
Tails zero ts = ts ≡ []
Tails (suc n) [] = ⊥
Tails (suc n) (t ∷ ts) = (0x80 ≤ t) × (t ≤ 0xBF) × Tails n ts

pub data IsUtf8 : List ℕ → Type 0 where
  empty : IsUtf8 []
  ascii : (b : ℕ) (bs : List ℕ) → b < 0x80 → IsUtf8 bs → IsUtf8 (b ∷ bs)
  char :
      (a b : ℕ) (l : Lead) (ts bs : List ℕ)
      → 0x80 ≤ a
      → lead a ≡ some l
      → l.low ≤ b
      → b ≤ l.high
      → Tails l.more ts
      → IsUtf8 bs
      → IsUtf8 (a ∷ b ∷ (ts ++ bs))

lossy-Tails :
    (n : ℕ) (seen : List ℕ) (b : ℕ) (ts bs : List ℕ)
    → Tails n ts
    → (further seen n b).0 ++ lossy (further seen n b).1 (ts ++ bs)
      ≡ seen ++ (b ∷ (ts ++ lossy idle bs))
unfolding further lossy step
lossy-Tails zero seen b ts bs h = rw h (append_assoc seen (b ∷ []) (lossy idle bs))
lossy-Tails (suc n) seen b [] bs h = absurd h
lossy-Tails (suc n) seen b (t ∷ ts) bs (low, high, h) =
    let inside_range : in_range t 0x80 0xBF ≡ true = ground arith in
    rw inside_range (
      lossy-Tails n (seen ++ (b ∷ [])) t ts bs h
      ∙ append_assoc seen (b ∷ []) (t ∷ (ts ++ lossy idle bs)))

-- A text is read back from its own bytes unchanged.
pub lossy-IsUtf8 : {bs : List ℕ} → IsUtf8 bs → from_utf8_lossy bs ≡ bs
unfolding from_utf8_lossy lossy step start
lossy-IsUtf8 empty = refl
lossy-IsUtf8 (ascii b bs h rest) =
    let small : ltb b 0x80 ≡ true = ground arith in rw small (ap (◌∷◌ b) (lossy-IsUtf8 rest))
lossy-IsUtf8 (char a b l ts bs big e low high tails rest) =
    let large : ltb a 0x80 ≡ false = ground arith in
    let inside_range : in_range b l.low l.high ≡ true = ground arith in
    rw (large, e, start)
      (rw inside_range (
        lossy-Tails l.more (a ∷ []) b ts bs tails
        ∙ ap (λ (r : List ℕ). a ∷ b ∷ (ts ++ r)) (lossy-IsUtf8 rest)))

pub IsUtf8-append : {xs ys : List ℕ} → IsUtf8 xs → IsUtf8 ys → IsUtf8 (xs ++ ys)
IsUtf8-append empty h = h
IsUtf8-append (ascii b bs small rest) h = ascii b _ small (IsUtf8-append rest h)
IsUtf8-append {ys = ys} (char a b l ts bs big e low high tails rest) h =
    subst (λ (r : List ℕ). IsUtf8 (a ∷ b ∷ r)) (sym (append_assoc ts bs ys))
      (char a b l ts (bs ++ ys) big e low high tails (IsUtf8-append rest h))

pub zeros-IsUtf8 : (n : ℕ) → IsUtf8 (replicate n 0)
zeros-IsUtf8 zero = empty
zeros-IsUtf8 (suc n) = ascii 0 _ (omega arith) (zeros-IsUtf8 n)
