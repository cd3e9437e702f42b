-- ===== src/Longmsg/Frame/Header.antt =====
-- The header as bytes: what the parser reads back, and what `from_bytes` refuses.
use rsms.Common.{
  ℕ, suc, ◌<◌, ◌≡◌, refl, inl, inr, some, List, ◌∷◌, ◌++◌, length, err, ◌==◌, Bool-cases, arith,
}
use rsms.Common.Bytes.{u16_mod, u8_mod, from_u16_be-u16_be}
use rsms.Core.Error.{RsmsError}
use rsms.Longmsg.Frame.{
  UdhHeader, new_8bit, new_16bit, to_bytes, from_bytes, extract_udh, udh_iei_concat_16bit,
}

-- The headers that the splitter makes: a reference of one byte or of two.
pub data IsConcat : UdhHeader → Type 0 where
  short : (ref total seg : ℕ) → ref < u8_mod → IsConcat (new_8bit ref total seg)
  long : (ref total seg : ℕ) → ref < u16_mod → IsConcat (new_16bit ref total seg)

-- The parser reads a header of either kind back from its length byte, its bytes and whatever
-- follows, and says how many bytes it took.
pub extract_udh-to_bytes :
    (h : UdhHeader) (rest : List ℕ)
    → IsConcat h
    → extract_udh (length (to_bytes h) ∷ (to_bytes h ++ rest)) ≡ some (h, suc (length (to_bytes h)))
unfolding extract_udh to_bytes new_8bit new_16bit
extract_udh-to_bytes _ rest (short ref total seg h) = ground arith
extract_udh-to_bytes _ rest (long ref total seg h) = ground (arith, from_u16_be-u16_be ref h)

-- `from_bytes` refuses what `to_bytes` writes, for every header: it asks for a byte too many.
pub from_bytes-to_bytes_fails :
    (h : UdhHeader) → (e : RsmsError) × (from_bytes (to_bytes h) ≡ err e)
unfolding from_bytes to_bytes
from_bytes-to_bytes_fails h = elim (Bool-cases (h.iei == udh_iei_concat_16bit)) [
  | inl e ↦ rw e (rw e (_, refl))
  | inr e ↦ rw e (_, refl)
]
