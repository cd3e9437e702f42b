-- ===== src/Smgp/Tlv.antt =====
-- crates/rsms-codec-smgp/src/datatypes/tlv.rs: the optional parameters at the end of a body.
use rsms.Common.{
  ℕ, zero, suc, ◌+◌, ◌%◌, true, false, Option, none, some, List, [], ◌∷◌, ◌++◌, ltb, ◌==◌,
  if◌then◌else◌, length, ok, err,
}
use rsms.Common.Bytes.{u16_mod}
use rsms.Common.Utf8.{from_utf8_lossy}
use rsms.Wire.Error.{
  CodecError, incomplete, invalid_command_id, invalid_pdu_length, field_validation, io,
}
use rsms.Wire.Fields.{
  Get, Put, ◌>>=◌, ◌>>◌, ◌⊕◌, pure, done, ensure, get_u16, put_u8, put_u16, put_u32, put_slice,
  put_many,
}
use rsms.Wire.Body.{u8, u32, slice}

-- `Tlv::String` has the name `string`; its value is the list of its bytes.
pub data Tlv : Type 0 where
  byte : ℕ → ℕ → Tlv
  short : ℕ → ℕ → Tlv
  int : ℕ → ℕ → Tlv
  string : ℕ → List ℕ → Tlv
  octets : ℕ → List ℕ → Tlv
  empty : ℕ → Tlv

unfoldable pub tag : Tlv → ℕ
tag (byte t v) = t
tag (short t v) = t
tag (int t v) = t
tag (string t v) = t
tag (octets t v) = t
tag (empty t) = t

-- The length and the value: `as u16` cuts the length of a long value.
unfoldable pub encode_value : Tlv → Put CodecError
encode_value (byte t v) = put_u16 1 ⊕ put_u8 v ⊕ done
encode_value (short t v) = put_u16 2 ⊕ put_u16 v ⊕ done
encode_value (int t v) = put_u16 4 ⊕ put_u32 v ⊕ done
encode_value (string t v) = put_u16 (length v % u16_mod) ⊕ put_slice v ⊕ done
encode_value (octets t v) = put_u16 (length v % u16_mod) ⊕ put_slice v ⊕ done
encode_value (empty t) = put_u16 0 ⊕ done

unfoldable pub encode_tlv : Tlv → Put CodecError
encode_tlv t = put_u16 (tag t) ⊕ encode_value t

unfoldable pub value_size : Tlv → ℕ
value_size (byte t v) = 1
value_size (short t v) = 2
value_size (int t v) = 4
value_size (string t v) = length v
value_size (octets t v) = length v
value_size (empty t) = 0

unfoldable pub tlv_size : Tlv → ℕ
unfolding value_size
tlv_size t = 4 + value_size t

-- `match length`
unfoldable pub decode_value : ℕ → ℕ → Get CodecError Tlv
decode_value t n =
    if n == 0
    then pure (empty t)
    else if n == 1
    then (u8 >>= λ v. pure (byte t v))
    else if n == 2
    then (get_u16 incomplete >>= λ v. pure (short t v))
    else if n == 4
    then (u32 >>= λ v. pure (int t v))
    else (slice n >>= λ v. pure (octets t v))

unfoldable pub decode_tlv : Get CodecError Tlv
decode_tlv = do
  ensure incomplete 4
  t ← get_u16 incomplete
  n ← get_u16 incomplete
  ensure incomplete n
  decode_value t n

-- `OptionalParameters` is the list of its parameters.
abbrev pub OptionalParameters : Type 0
OptionalParameters = List Tlv

unfoldable pub add : OptionalParameters → Tlv → OptionalParameters
add ps t = ps ++ (t ∷ [])

-- `find_map`
unfoldable pub find_map : {A : Type 0} → (Tlv → Option A) → OptionalParameters → Option A
find_map f [] = none
find_map f (t ∷ ts) = elim (f t) [ some a ↦ some a | none ↦ find_map f ts ]

unfoldable pub byte_of : ℕ → Tlv → Option ℕ
byte_of wanted (byte t v) = if t == wanted then some v else none
byte_of wanted (octets t (v ∷ [])) = if t == wanted then some v else none
byte_of wanted _ = none

unfoldable pub short_of : ℕ → Tlv → Option ℕ
short_of wanted (short t v) = if t == wanted then some v else none
short_of wanted _ = none

unfoldable pub int_of : ℕ → Tlv → Option ℕ
int_of wanted (int t v) = if t == wanted then some v else none
int_of wanted _ = none

unfoldable pub string_of : ℕ → Tlv → Option (List ℕ)
string_of wanted (string t v) = if t == wanted then some v else none
string_of wanted (octets t v) = if t == wanted then some (from_utf8_lossy v) else none
string_of wanted _ = none

unfoldable pub get_byte : OptionalParameters → ℕ → Option ℕ
get_byte ps wanted = find_map (byte_of wanted) ps

unfoldable pub get_short : OptionalParameters → ℕ → Option ℕ
get_short ps wanted = find_map (short_of wanted) ps

unfoldable pub get_int : OptionalParameters → ℕ → Option ℕ
get_int ps wanted = find_map (int_of wanted) ps

unfoldable pub get_string : OptionalParameters → ℕ → Option (List ℕ)
get_string ps wanted = find_map (string_of wanted) ps

unfoldable pub encode_params : OptionalParameters → Put CodecError
encode_params ps = put_many encode_tlv ps

unfoldable pub params_size : OptionalParameters → ℕ
params_size [] = 0
params_size (t ∷ ts) = tlv_size t + params_size ts

-- The loop, on fuel: each parameter takes four bytes at least. Nothing is read after it.
unfoldable pub decode_loop : ℕ → Get CodecError OptionalParameters
decode_loop zero b = ok ([], [])
decode_loop (suc fuel) b = elim (ltb (length b) 4) [
  | true ↦ ok ([], [])
  | false ↦ elim (decode_tlv b) [
    | ok (t, rest) ↦ (decode_loop fuel >>= λ ts. pure (t ∷ ts)) rest
    | err incomplete ↦ ok ([], [])
    | err (invalid_command_id n) ↦ err (invalid_command_id n)
    | err (invalid_pdu_length n low high) ↦ err (invalid_pdu_length n low high)
    | err (field_validation field reason) ↦ err (field_validation field reason)
    | err (io e) ↦ err (io e)
  ]
]

unfoldable pub decode_remaining : Get CodecError OptionalParameters
decode_remaining b = decode_loop (length b) b
