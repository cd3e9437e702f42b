-- ===== src/Common/Bytes.antt =====
-- Machine integers as big-endian bytes (`to_be_bytes`, `from_be_bytes`).
use Prim.Native.Nat.{ℕ, ◌+◌, ◌*◌, ◌/◌, ◌%◌, ◌^◌, ◌<◌}
use mathlib.Core.Path.{◌≡◌, refl}
use mathlib.Core.List.{List, [], ◌∷◌}
use native.Mathlib.Omega.{arith}
use rsms.Common.Lists.{All}

abbrev pub IsByte : ℕ → Type 0
IsByte b = b < 256

abbrev pub u8_mod : ℕ
u8_mod = 2 ^ 8

abbrev pub u16_mod : ℕ
u16_mod = 2 ^ 16

abbrev pub u32_mod : ℕ
u32_mod = 2 ^ 32

abbrev pub u64_mod : ℕ
u64_mod = 2 ^ 64

unfoldable pub u16_be : ℕ → List ℕ
u16_be n = (n / 2 ^ 8 % 256) ∷ (n % 256) ∷ []

unfoldable pub u32_be : ℕ → List ℕ
u32_be n = (n / 2 ^ 24 % 256) ∷ (n / 2 ^ 16 % 256) ∷ (n / 2 ^ 8 % 256) ∷ (n % 256) ∷ []

unfoldable pub from_u16_be : ℕ → ℕ → ℕ
from_u16_be a b = a * 2 ^ 8 + b

unfoldable pub from_u32_be : ℕ → ℕ → ℕ → ℕ → ℕ
from_u32_be a b c d = a * 2 ^ 24 + b * 2 ^ 16 + c * 2 ^ 8 + d

pub from_u16_be-u16_be : (n : ℕ) → n < u16_mod → from_u16_be (n / 2 ^ 8 % 256) (n % 256) ≡ n
unfolding from_u16_be
from_u16_be-u16_be n h = omega arith

pub from_u32_be-u32_be :
    (n : ℕ)
    → n < u32_mod
    → from_u32_be (n / 2 ^ 24 % 256) (n / 2 ^ 16 % 256) (n / 2 ^ 8 % 256) (n % 256) ≡ n
unfolding from_u32_be
from_u32_be-u32_be n h = omega arith

pub u32_be-IsByte : (n : ℕ) → All IsByte (u32_be n)
unfolding u32_be
u32_be-IsByte n = omega arith

pub u16_be-IsByte : (n : ℕ) → All IsByte (u16_be n)
unfolding u16_be
u16_be-IsByte n = omega arith

pub u32_be-from_u32_be :
    (a b c d : ℕ)
    → IsByte a
    → IsByte b
    → IsByte c
    → IsByte d
    → u32_be (from_u32_be a b c d) ≡ a ∷ b ∷ c ∷ d ∷ []
unfolding u32_be from_u32_be
u32_be-from_u32_be a b c d ha hb hc hd =
    let n = a * 2 ^ 24 + b * 2 ^ 16 + c * 2 ^ 8 + d in
    let first : n / 2 ^ 24 % 256 ≡ a = omega arith in
    let second : n / 2 ^ 16 % 256 ≡ b = omega arith in
    let third : n / 2 ^ 8 % 256 ≡ c = omega arith in
    let fourth : n % 256 ≡ d = omega arith in rw (first, second, third, fourth) refl

pub from_u32_be-bounded :
    (a b c d : ℕ) → IsByte a → IsByte b → IsByte c → IsByte d → from_u32_be a b c d < u32_mod
unfolding from_u32_be
from_u32_be-bounded a b c d ha hb hc hd = omega arith
