-- ===== src/Wire/Body.antt =====
-- The fields of bodies as the codecs' datatypes read and write them, with the codecs' errors.
use Prim.Native.String.{String}
use rsms.Common.{
  refl, ℕ, ◌+◌, ◌%◌, ◌≤◌, ◌<◌, ◌≡◌, not, false, List, subst, sym, ltb, ◌==◌, length, arith,
}
use rsms.Common.Bytes.{u8_mod, u32_mod}
use rsms.Wire.Fields
use rsms.Wire.Fields.{
  Get, Put, ◌>>=◌, ◌>>◌, ◌⊕◌, check, put_check, ensure, get_u8, get_u32, get_bytes, put_u8, put_u32,
  put_slice,
}
use rsms.Wire.Trip.{
  Trip, Trip-seq, Trip-u8, Trip-u32, Trip-bytes, Trip-check, Trip-ensure, Trip-put_check,
  Trip-assoc,
}
use rsms.Wire.Strings.{FitsField, Trip-pstring}
use rsms.Wire.Error.{
  CodecError, incomplete, invalid_pdu_length, field_validation, of_pstring, content_too_long,
}

abbrev pub u8 : Get CodecError ℕ
u8 = get_u8 incomplete

abbrev pub u32 : Get CodecError ℕ
u32 = get_u32 incomplete

abbrev pub slice : ℕ → Get CodecError (List ℕ)
slice n = get_bytes incomplete n

-- `decode_pstring(buf, n).map_err(|_| CodecError::Incomplete)`
abbrev pub pstring : ℕ → Get CodecError (List ℕ)
pstring n = Fields.get_pstring incomplete n

-- `encode_pstring(buf, value, n, field).map_err(…)`, in the bodies of version 3.0 and of 2.0.
abbrev pub put_pstring : List ℕ → ℕ → String → Put CodecError
put_pstring value n field =
    Fields.put_pstring (λ e. field_validation field (of_pstring e)) value n field

abbrev pub put_pstring_v20 : List ℕ → ℕ → String → Put CodecError
put_pstring_v20 value n field = Fields.put_pstring (λ e. incomplete) value n field

-- The content behind its length in one byte.
unfoldable pub put_content : String → List ℕ → Put CodecError
put_content field c =
    put_check (ltb 255 (length c)) (field_validation field (content_too_long (length c)))
    ⊕ put_u8 (length c % 256)
    ⊕ put_slice c

unfoldable pub get_content : Get CodecError (List ℕ)
get_content = do msg_length ← u8; ensure incomplete msg_length; slice msg_length

-- The checks that the decoders share: the length in the header, and the bytes that remain. The
-- numbers are the size of a header, the length that it announces and the size of the body.
unfoldable pub check_length : ℕ → ℕ → ℕ → Get CodecError (Unit {0})
check_length header_size total size = do
  check (not (total == header_size + size))
      (invalid_pdu_length total (header_size + size) (header_size + size))
  ensure incomplete size

pub at_pstring :
    {n : ℕ} {v : List ℕ} (field : String)
    → FitsField n v
    → Trip (put_pstring v n field) (pstring n) v n
at_pstring field fits = Trip-pstring incomplete _ field fits

pub at_pstring_v20 :
    {n : ℕ} {v : List ℕ} (field : String)
    → FitsField n v
    → Trip (put_pstring_v20 v n field) (pstring n) v n
at_pstring_v20 field fits = Trip-pstring incomplete _ field fits

pub at_content :
    (field : String) (c : List ℕ)
    → length c ≤ 255
    → Trip (put_content field c) get_content c (1 + length c)
unfolding put_content get_content
at_content field c small =
    let short : ltb 255 (length c) ≡ false = ground arith in
    let same : length c % 256 ≡ length c = omega arith in
    Trip-put_check _ short (
      subst (λ (n : ℕ). Trip {E = CodecError} (put_u8 n ⊕ put_slice c) get_content c (1 + length c))
        (sym same)
        (Trip-seq _ (Trip-u8 incomplete (length c))
          (Trip-ensure (length c) incomplete (omega arith) (Trip-bytes incomplete refl))))

pub at_length :
    {A : Type 0} {w : Put CodecError} {r : Get CodecError A} {x : A} (header_size total size : ℕ)
    → total ≡ header_size + size
    → Trip w r x size
    → Trip w (check_length header_size total size >>= λ _. r) x size
unfolding check_length
at_length header_size total size q t =
    let right : not (total == header_size + size) ≡ false = ground arith in
    Trip-assoc _ _ _ (Trip-check _ right (Trip-ensure size incomplete (omega arith) t))

-- The content behind its length in four bytes.
unfoldable pub put_content_u32 : String → List ℕ → Put CodecError
put_content_u32 field c =
    put_check (ltb 4294967295 (length c)) (field_validation field (content_too_long (length c)))
    ⊕ put_u32 (length c % u32_mod)
    ⊕ put_slice c

unfoldable pub get_content_u32 : Get CodecError (List ℕ)
get_content_u32 = do message_length ← u32; ensure incomplete message_length; slice message_length

pub at_content_u32 :
    (field : String) (c : List ℕ)
    → length c < u32_mod
    → Trip (put_content_u32 field c) get_content_u32 c (4 + length c)
unfolding put_content_u32 get_content_u32
at_content_u32 field c small =
    let short : ltb 4294967295 (length c) ≡ false = ground arith in
    let same : length c % u32_mod ≡ length c = omega arith in
    Trip-put_check _ short (
      subst
        (λ (n : ℕ).
          Trip {E = CodecError} (put_u32 n ⊕ put_slice c) get_content_u32 c (4 + length c))
        (sym same)
        (Trip-seq _ (Trip-u32 incomplete small)
          (Trip-ensure (length c) incomplete (omega arith) (Trip-bytes incomplete refl))))

-- A number written in one byte, `as u8`.
pub at_narrow : (n : ℕ) → n < 256 → Trip {E = CodecError} (put_u8 (n % u8_mod)) u8 n 1
at_narrow n small =
    let same : n % u8_mod ≡ n = omega arith in
    subst (λ (m : ℕ). Trip {E = CodecError} (put_u8 m) u8 n 1) (sym same) (Trip-u8 incomplete n)
