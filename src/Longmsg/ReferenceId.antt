-- ===== src/Longmsg/ReferenceId.antt =====
-- crates/rsms-longmsg/src/reference_id.rs: the 16-bit references that tell long messages apart.
pub mod Distinct
use rsms.Common.{ℕ, ◌+◌, ◌*◌, ◌%◌, ◌^◌, ◌<◌, ◌≡◌, ◌≢◌, arith}
use rsms.Common.Bytes.{u16_mod, u64_mod}

-- The counter is a `u64`; `fetch_add` wraps.
pub record ReferenceIdGenerator : Type 0 where
  pub counter : ℕ

unfoldable pub with_value : ℕ → ReferenceIdGenerator
with_value v = record { counter = v }

-- The reference is the counter's low 16 bits.
unfoldable pub next_reference_id : ReferenceIdGenerator → ReferenceIdGenerator × ℕ
next_reference_id g = (record { counter = (g.counter + 1) % u64_mod }, g.counter % u16_mod)

unfoldable pub current : ReferenceIdGenerator → ℕ
current g = g.counter % u16_mod

unfoldable pub reset : ReferenceIdGenerator → ReferenceIdGenerator
reset g = record { counter = 0 }

-- The start value of the generator that is made after `n` others, from the time base of the process.
unfoldable pub next_seed : ℕ → ℕ → ℕ
next_seed base n = (base + n * 0x9E37_79B1 % u64_mod) % u64_mod

-- `new` of the `n`-th generator.
unfoldable pub new : ℕ → ℕ → ReferenceIdGenerator
unfolding next_seed
new base n = record { counter = next_seed base n }
