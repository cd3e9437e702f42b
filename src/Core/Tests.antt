-- ===== src/Core/Tests.antt =====
-- The theorems on strings at concrete texts.
use rsms.Common.{ℕ, ◌≡◌, refl, List, [], ◌∷◌, ◌++◌, length, ok, arith}
use rsms.Common.Utf8.{IsUtf8, empty, ascii}
use rsms.Core.Pstring.{encode_pstring, decode_pstring, trim, decode-encode_pstring}
use rsms.Core.Cstring.{
  encode_cstring, decode_cstring, decode-encode_cstring, encode_cstring-inner_nul,
}

abbrev name : List ℕ
name = b'S' ∷ b'P' ∷ []

name-IsUtf8 : IsUtf8 name
name-IsUtf8 = ascii b'S' (b'P' ∷ []) (omega arith) (ascii b'P' [] (omega arith) empty)

trimmed : trim name ≡ name
unfolding trim
trimmed = refl

decode-encode_pstring_example :
    (bytes : List ℕ) × (encode_pstring name 6 "source_addr" ≡ ok bytes)
    × (length bytes ≡ 6)
    × (decode_pstring (bytes ++ (9 ∷ [])) 6 ≡ ok (name, 9 ∷ []))
decode-encode_pstring_example =
    decode-encode_pstring name (9 ∷ []) 6 "source_addr" name-IsUtf8 trimmed (omega arith)

decode-encode_cstring_example :
    (bytes : List ℕ) × (encode_cstring name 3 ≡ ok bytes)
    × (decode_cstring (bytes ++ (9 ∷ [])) 3 "system_id" ≡ ok (name, 9 ∷ []))
decode-encode_cstring_example =
    decode-encode_cstring name (9 ∷ []) 3 "system_id" name-IsUtf8 (omega arith) (omega arith)

encode_cstring-inner_nul_example :
    (bytes : List ℕ) × (encode_cstring (name ++ (0 ∷ name)) 16 ≡ ok bytes)
    × (decode_cstring (bytes ++ (9 ∷ [])) 16 "system_id" ≡ ok (name, name ++ (0 ∷ 9 ∷ [])))
encode_cstring-inner_nul_example =
    encode_cstring-inner_nul name name (9 ∷ []) 16 "system_id" name-IsUtf8 (omega arith)
      (omega arith)
