-- ===== src/Core/Cstring.antt =====
-- crates/rsms-core/src/cstring.rs: strings that end in a NUL byte.
use Prim.Native.String.{String}
use rsms.Common.{
  ℕ, zero, suc, ◌<◌, ◌≡◌, ◌≢◌, refl, sym, ap, ◌∙◌, false, List, [], ◌∷◌, ◌++◌, append-nil,
  append_assoc, leb, ◌==◌, if◌then◌else◌, length, length-append, All, Result, ok, err, arith,
}
use rsms.Common.Utf8.{from_utf8_lossy, IsUtf8, lossy-IsUtf8}

pub data CstringError : Type 0 where
  incomplete : CstringError
  field_too_long : String → ℕ → CstringError

-- The loop, with the number of bytes that may still be read and the bytes read so far.
unfoldable pub read_cstring :
    ℕ → List ℕ → List ℕ → CstringError → Result CstringError (List ℕ × List ℕ)
read_cstring zero seen b full = err full
read_cstring (suc n) seen [] full = err incomplete
read_cstring (suc n) seen (b ∷ bs) full =
    let rest = read_cstring n (seen ++ (b ∷ [])) bs full in
    if b == 0 then ok (from_utf8_lossy seen, bs) else rest

unfoldable pub decode_cstring : List ℕ → ℕ → String → Result CstringError (List ℕ × List ℕ)
unfolding read_cstring
decode_cstring buf max_len field_name =
    read_cstring max_len [] buf (field_too_long field_name max_len)

unfoldable pub encode_cstring : List ℕ → ℕ → Result CstringError (List ℕ)
encode_cstring value max_len =
    if leb max_len (length value)
    then err (field_too_long "cstring" max_len)
    else ok (value ++ (0 ∷ []))

read_cstring-stop :
    (n : ℕ) (seen v rest : List ℕ) (full : CstringError)
    → All (λ b. b ≢ 0) v
    → length v < n
    → read_cstring n seen (v ++ (0 ∷ rest)) full ≡ ok (from_utf8_lossy (seen ++ v), rest)
unfolding read_cstring
read_cstring-stop zero seen v rest full h fits = absurd (omega arith)
read_cstring-stop (suc n) seen [] rest full h fits =
    ap (λ (l : List ℕ). ok (from_utf8_lossy l, rest)) (sym (append-nil seen))
read_cstring-stop (suc n) seen (b ∷ v) rest full (here, h) fits =
    let other : b == 0 ≡ false = ground arith in
    rw (other, read_cstring)
      (read_cstring-stop n (seen ++ (b ∷ [])) v rest full h (omega arith)
        ∙ ap (λ (l : List ℕ). ok (from_utf8_lossy l, rest)) (append_assoc seen (b ∷ []) v))

-- A string without NUL bytes that is shorter than the limit is written with one NUL byte at its end
-- and read back under the same limit, with what follows left over.
pub decode-encode_cstring :
    (value rest : List ℕ) (max_len : ℕ) (field : String)
    → IsUtf8 value
    → All (λ b. b ≢ 0) value
    → length value < max_len
    → (bytes : List ℕ) × (encode_cstring value max_len ≡ ok bytes)
      × (decode_cstring (bytes ++ rest) max_len field ≡ ok (value, rest))
unfolding encode_cstring decode_cstring
decode-encode_cstring value rest max_len field utf8 nonzero fits =
    let short : leb max_len (length value) ≡ false = ground arith in
    (
      value ++ (0 ∷ []),
      rw short refl,
      rw (append_assoc value (0 ∷ []) rest) (
          read_cstring-stop max_len [] value rest (field_too_long field max_len) nonzero fits
          ∙ ap (λ (l : List ℕ). ok (l, rest)) (lossy-IsUtf8 utf8)),
    )

-- A NUL byte inside a string is written too, without an error: reading ends in front of it and
-- leaves the tail of the string to be read as the next field.
pub encode_cstring-inner_nul :
    (value tail rest : List ℕ) (max_len : ℕ) (field : String)
    → IsUtf8 value
    → All (λ b. b ≢ 0) value
    → length (value ++ (0 ∷ tail)) < max_len
    → (bytes : List ℕ) × (encode_cstring (value ++ (0 ∷ tail)) max_len ≡ ok bytes)
      × (decode_cstring (bytes ++ rest) max_len field ≡ ok (value, tail ++ (0 ∷ rest)))
unfolding encode_cstring decode_cstring
encode_cstring-inner_nul value tail rest max_len field utf8 nonzero fits =
    let short : leb max_len (length (value ++ (0 ∷ tail))) ≡ false = ground arith in
    let parts : ((value ++ (0 ∷ tail)) ++ (0 ∷ [])) ++ rest ≡ value ++ (0 ∷ (tail ++ (0 ∷ rest))) =
      append_assoc (value ++ (0 ∷ tail)) (0 ∷ []) rest ∙ append_assoc value (0 ∷ tail) (0 ∷ rest) in
    (
      (value ++ (0 ∷ tail)) ++ (0 ∷ []),
      rw short refl,
      rw parts (
          read_cstring-stop max_len [] value (tail ++ (0 ∷ rest)) (field_too_long field max_len)
            nonzero (omega (arith, length-append value (0 ∷ tail)))
          ∙ ap (λ (l : List ℕ). ok (l, tail ++ (0 ∷ rest))) (lossy-IsUtf8 utf8)),
    )
