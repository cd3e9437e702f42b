-- ===== src/Smgp/MsgId.antt =====
-- crates/rsms-codec-smgp/src/datatypes/msg_id.rs: ids of ten bytes.
use rsms.Common.{
  ℕ, ◌+◌, ◌*◌, ◌/◌, ◌%◌, ◌^◌, ◌<◌, ◌≡◌, Bool, true, List, [], ◌∷◌, ◌++◌, drop, ◌==◌, ◌&&◌,
  replicate, arith,
}
use rsms.Common.Bytes.{u64_mod}

pub record SmgpMsgId : Type 0 where
  pub bytes : List ℕ

-- `to_be_bytes` and `from_be_bytes` of 64 bits.
unfoldable pub u64_be : ℕ → List ℕ
u64_be n =
    (n / 2 ^ 56 % 256)
    ∷ (n / 2 ^ 48 % 256)
    ∷ (n / 2 ^ 40 % 256)
    ∷ (n / 2 ^ 32 % 256)
    ∷ (n / 2 ^ 24 % 256)
    ∷ (n / 2 ^ 16 % 256)
    ∷ (n / 2 ^ 8 % 256)
    ∷ (n % 256)
    ∷ []

unfoldable pub from_be : ℕ → List ℕ → ℕ
from_be acc [] = acc
from_be acc (b ∷ bs) = from_be (acc * 256 + b) bs

-- Two zero bytes and the value.
unfoldable pub from_u64 : ℕ → SmgpMsgId
from_u64 value = record { bytes = replicate 2 0 ++ u64_be value }

unfoldable pub to_u64 : SmgpMsgId → ℕ
to_u64 id = from_be 0 (drop 2 id.bytes)

unfoldable pub all_zero : List ℕ → Bool
all_zero [] = true
all_zero (b ∷ bs) = (b == 0) && all_zero bs

unfoldable pub is_empty : SmgpMsgId → Bool
is_empty id = all_zero id.bytes

-- A value below 2 ^ 64 is read back from its id.
pub to_u64-from_u64 : (n : ℕ) → n < u64_mod → to_u64 (from_u64 n) ≡ n
unfolding to_u64 from_u64 u64_be from_be
to_u64-from_u64 n h = omega arith
