-- ===== src/Longmsg/ReferenceId/Distinct.antt =====
-- References that must not collide: of one generator, and of generators made one after another.
use rsms.Common.{ℕ, zero, suc, ◌+◌, ◌*◌, ◌%◌, ◌<◌, ◌≡◌, ◌≢◌, arith}
use rsms.Common.Bytes.{u16_mod, u64_mod}
use rsms.Longmsg.ReferenceId.{ReferenceIdGenerator, next_reference_id, current, next_seed, new}

-- The generator after `k` references.
unfoldable pub advance : ℕ → ReferenceIdGenerator → ReferenceIdGenerator
advance zero g = g
advance (suc k) g = advance k (next_reference_id g).0

advance-counter :
    (k : ℕ) (g : ReferenceIdGenerator)
    → g.counter < u64_mod
    → (advance k g).counter ≡ (g.counter + k) % u64_mod
unfolding advance next_reference_id
advance-counter zero g h = omega arith
advance-counter (suc k) g h =
    omega (arith, advance-counter k (record { counter = (g.counter + 1) % u64_mod }) (omega arith))

-- Any 65536 references that one generator gives in a row are distinct, also where the counter wraps.
pub advance-reference_distinct :
    (g : ReferenceIdGenerator) (i j : ℕ)
    → g.counter < u64_mod
    → i < j
    → j < i + u16_mod
    → (next_reference_id (advance i g)).1 ≢ (next_reference_id (advance j g)).1
unfolding next_reference_id
advance-reference_distinct g i j h hi hj e =
    omega (arith, advance-counter i g h, advance-counter j g h)

-- The golden-ratio step is odd, so it has an inverse modulo 2 ^ 16.
odd_step :
    (m n : ℕ) → m < u16_mod → n < u16_mod → m * 0x79B1 % u16_mod ≡ n * 0x79B1 % u16_mod → m ≡ n
odd_step m n hm hn e = omega arith

-- Of 65536 generators that a process makes one after another, whatever its time base, no two start
-- at the same reference.
pub current-new_distinct :
    (base m n : ℕ) → m < n → n < u16_mod → current (new base m) ≢ current (new base n)
unfolding current new next_seed
current-new_distinct base m n h hn e = omega (arith, odd_step m n (omega arith) hn (omega arith))
