-- ===== src/Longmsg/Frame.antt =====
-- crates/rsms-longmsg/src/frame.rs: the user data header of a segment, its bytes and its parser.
pub mod Header
use Prim.Native.String.{String}
use mathlib.Core.Option
use rsms.Common.{
  ℕ, zero, suc, ◌+◌, ◌/◌, ◌%◌, ◌^◌, ◌≡◌, Bool, true, false, ◌||◌, Option, none, some, List, [], ◌∷◌,
  ◌++◌, ltb, ◌==◌, if◌then◌else◌, length, get_or, take, drop, Result, ok, err,
}
use rsms.Common.Bytes.{from_u16_be}
use rsms.Common.Decimal.{to_string}
use rsms.Core.Error.{RsmsError, codec}

abbrev pub udh_iei_concat_8bit : ℕ
udh_iei_concat_8bit = 0x00

abbrev pub udh_iei_concat_16bit : ℕ
udh_iei_concat_16bit = 0x08

abbrev pub udh_header_8bit_len : ℕ
udh_header_8bit_len = 6

abbrev pub udh_header_16bit_len : ℕ
udh_header_16bit_len = 7

pub record UdhHeader : Type 0 where
  pub iei : ℕ
  pub iedl : ℕ
  pub reference_id : ℕ
  pub total_segments : ℕ
  pub segment_number : ℕ

unfoldable pub new_8bit : ℕ → ℕ → ℕ → UdhHeader
new_8bit ref total seg = record {
  iei = udh_iei_concat_8bit;
  iedl = 3;
  reference_id = ref;
  total_segments = total;
  segment_number = seg;
}

unfoldable pub new_16bit : ℕ → ℕ → ℕ → UdhHeader
new_16bit ref total seg = record {
  iei = udh_iei_concat_16bit;
  iedl = 4;
  reference_id = ref;
  total_segments = total;
  segment_number = seg;
}

-- `x >> 8 as u8` and `x as u8` of a `u16`.
abbrev pub high_byte : ℕ → ℕ
high_byte x = x / 2 ^ 8 % 256

abbrev pub low_byte : ℕ → ℕ
low_byte x = x % 256

-- `b[i]`, where the code has checked that `i` is in range.
abbrev pub at : List ℕ → ℕ → ℕ
at b i = get_or b i 0

unfoldable pub to_bytes : UdhHeader → List ℕ
to_bytes h =
    if h.iei == udh_iei_concat_16bit
    then h.iei
      ∷ h.iedl
      ∷ high_byte h.reference_id
      ∷ low_byte h.reference_id
      ∷ h.total_segments
      ∷ h.segment_number
      ∷ []
    else h.iei ∷ h.iedl ∷ low_byte h.reference_id ∷ h.total_segments ∷ h.segment_number ∷ []

-- The fields of a header with a reference of two bytes, and of one byte.
header_16bit : List ℕ → UdhHeader
header_16bit b = record {
  iei = at b 0;
  iedl = at b 1;
  reference_id = from_u16_be (at b 2) (at b 3);
  total_segments = at b 4;
  segment_number = at b 5;
}

header_8bit : List ℕ → UdhHeader
header_8bit b = record {
  iei = at b 0;
  iedl = at b 1;
  reference_id = at b 2;
  total_segments = at b 3;
  segment_number = at b 4;
}

unfoldable pub from_bytes : List ℕ → Result RsmsError UdhHeader
unfolding header_16bit header_8bit
from_bytes b =
    if ltb (length b) udh_header_8bit_len
    then err (codec "UDH header too short")
    else if at b 0 == udh_iei_concat_16bit
    then if ltb (length b) udh_header_16bit_len
      then err (codec "16-bit UDH header too short")
      else ok (header_16bit b)
    else ok (header_8bit b)

pub record LongMessageFrame : Type 0 where
  pub reference_id : ℕ
  pub total_segments : ℕ
  pub segment_number : ℕ
  pub content : List ℕ
  pub has_udhi : Bool
  pub udh : Option UdhHeader

-- `format!("{}-{}", reference_id, total_segments)`
unfoldable pub unique_id : LongMessageFrame → List ℕ
unique_id f = to_string f.reference_id ++ (b'-' ∷ to_string f.total_segments)

unfoldable pub parse_concat_udh : List ℕ → Option UdhHeader
unfolding header_16bit header_8bit
parse_concat_udh [] = none
parse_concat_udh (iei ∷ rest) =
    let udh : List ℕ = iei ∷ rest in
    if iei == udh_iei_concat_16bit
    then if ltb (length udh) 6 then none else some (header_16bit udh)
    else if iei == udh_iei_concat_8bit
    then if ltb (length udh) 5 then none else some (header_8bit udh)
    else none

-- The header with the number of bytes that it takes, its length byte included.
unfoldable pub extract_udh : List ℕ → Option (UdhHeader × ℕ)
unfolding parse_concat_udh
extract_udh [] = none
extract_udh (udhl ∷ rest) =
    if udhl == 0 || ltb (length (udhl ∷ rest)) (1 + udhl)
    then none
    else Option.map (λ h. (h, 1 + udhl)) (parse_concat_udh (take udhl rest))

unfoldable pub strip_udh : List ℕ → List ℕ
unfolding extract_udh
strip_udh content = elim (extract_udh content) [
  | none ↦ content
  | some (h, udh_len) ↦ drop udh_len content
]

-- `UdhParser::has_udhi`
unfoldable pub starts_with_udh : List ℕ → Bool
unfolding extract_udh
starts_with_udh content = elim (extract_udh content) [ none ↦ false | some p ↦ true ]
