-- ===== src/Core/Pstring.antt =====
-- crates/rsms-core/src/pstring.rs: strings in fields of a fixed width, padded with NUL bytes.
-- A writer gives the bytes that it appends; a reader gives the value and the bytes that remain.
use Prim.Native.String.{String}
use rsms.Common.{
  ℕ, zero, suc, ◌-◌, ◌≤◌, ◌≡◌, refl, ◌∙◌, false, List, [], ◌∷◌, ◌++◌, ltb, ◌==◌, if◌then◌else◌,
  length, length-append, length-replicate, take, drop, take-append, drop-append, replicate, Result,
  ok, err, arith,
}
use rsms.Common.Utf8.{from_utf8_lossy, IsUtf8, lossy-IsUtf8}

-- The field, its length and the limit, of which the text of the error is made.
pub data FieldTooLong : Type 0 where
  exceeds : String → ℕ → ℕ → FieldTooLong

-- `read_exact` found too few bytes.
pub data ReadError : Type 0 where
  unexpected_eof : ReadError

unfoldable pub encode_pstring : List ℕ → ℕ → String → Result FieldTooLong (List ℕ)
encode_pstring value max_len field_name =
    if ltb max_len (length value)
    then err (exceeds field_name (length value) max_len)
    else ok (value ++ replicate (max_len - length value) 0)

-- Without the NUL bytes at the end (`rposition(|&b| b != 0)`).
unfoldable pub trim : List ℕ → List ℕ
trim [] = []
trim (b ∷ bs) = elim (trim bs) [ [] ↦ (if b == 0 then [] else b ∷ []) | c ∷ cs ↦ b ∷ c ∷ cs ]

unfoldable pub decode_pstring : List ℕ → ℕ → Result ReadError (List ℕ × List ℕ)
decode_pstring buf max_len =
    if ltb (length buf) max_len
    then err unexpected_eof
    else ok (from_utf8_lossy (trim (take max_len buf)), drop max_len buf)

trim-zeros : (n : ℕ) → trim (replicate n 0) ≡ []
unfolding trim
trim-zeros zero = refl
trim-zeros (suc n) = rw (trim-zeros n, trim) refl

pub trim-padded : (v : List ℕ) (n : ℕ) → trim (v ++ replicate n 0) ≡ trim v
unfolding trim
trim-padded [] n = trim-zeros n
trim-padded (b ∷ v) n = rw (trim-padded v n, trim) refl

-- A string that the field can hold and that does not end in NUL is written in exactly the width of
-- the field and read back, with what follows left over.
pub decode-encode_pstring :
    (value rest : List ℕ) (max_len : ℕ) (field : String)
    → IsUtf8 value
    → trim value ≡ value
    → length value ≤ max_len
    → (bytes : List ℕ) × (encode_pstring value max_len field ≡ ok bytes)
      × (length bytes ≡ max_len)
      × (decode_pstring (bytes ++ rest) max_len ≡ ok (value, rest))
unfolding encode_pstring decode_pstring
decode-encode_pstring value rest max_len field utf8 kept fits =
    let bytes = value ++ replicate (max_len - length value) 0 in
    let short : ltb max_len (length value) ≡ false = ground arith in
    let width : length bytes ≡ max_len = omega (
      arith,
      length-append value (replicate (max_len - length value) 0),
      length-replicate (max_len - length value) zero,
    ) in
    (
      bytes,
      rw short refl,
      width,
      read bytes width (trim-padded value (max_len - length value) ∙ kept),
    )
  where
    read :
        (bytes : List ℕ)
        → length bytes ≡ max_len
        → trim bytes ≡ value
        → decode_pstring (bytes ++ rest) max_len ≡ ok (value, rest)
    read bytes width trimmed =
        let enough : ltb (length (bytes ++ rest)) (length bytes) ≡ false =
          ground (arith, length-append bytes rest) in
        rw (← width, take-append bytes rest, drop-append bytes rest, trimmed, lossy-IsUtf8 utf8)
          (rw enough refl)
