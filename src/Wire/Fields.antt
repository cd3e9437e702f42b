-- ===== src/Wire/Fields.antt =====
-- The calls of `bytes::Buf` and `BufMut` that the codecs make, and rsms-core's strings among them.
-- A reader takes the bytes that remain and gives a value and what remains after it; a writer gives
-- the bytes that it appends. The errors that the codecs put in place of the calls' own are arguments.
use Prim.Native.String.{String}
use rsms.Common.{
  ℕ, zero, suc, ◌-◌, Bool, List, [], ◌∷◌, ◌++◌, ltb, if◌then◌else◌, length, take, drop, replicate,
  Result, ok, err, map_err,
}
use rsms.Common.Bytes.{u16_be, u32_be, from_u16_be, from_u32_be}
use rsms.Common.Utf8.{from_utf8_lossy}
use rsms.Core.Pstring.{FieldTooLong, encode_pstring, decode_pstring}

abbrev pub Get : Type 0 → Type 0 → Type 0
Get E A = List ℕ → Result E (A × List ℕ)

abbrev pub Put : Type 0 → Type 0
Put E = Result E (List ℕ)

infixl 5 ◌>>=◌ ◌>>◌
infixr 5 ◌⊕◌
-- The `?` operator between two reads.
unfoldable pub ◌>>=◌ : {E A B : Type 0} → Get E A → (A → Get E B) → Get E B
◌>>=◌ r f b = elim (r b) [ ok (a, rest) ↦ f a rest | err e ↦ err e ]

abbrev pub ◌>>◌ : {E B : Type 0} → Get E (Unit {0}) → Get E B → Get E B
r >> s = r >>= λ _. s

-- The `?` operator between two writes.
unfoldable pub ◌⊕◌ : {E : Type 0} → Put E → Put E → Put E
ok a ⊕ ok b = ok (a ++ b)
ok a ⊕ err e = err e
err e ⊕ v = err e

-- `Ok(value)` at the end of a decoder and `Ok(())` at the end of an encoder.
unfoldable pub pure : {E A : Type 0} → A → Get E A
pure a b = ok (a, b)

unfoldable pub done : {E : Type 0} → Put E
done = ok []

-- `if bad { return Err(e) }`
unfoldable pub check : {E : Type 0} → Bool → E → Get E (Unit {0})
check bad e b = if bad then err e else ok (tt, b)

unfoldable pub put_check : {E : Type 0} → Bool → E → Put E
put_check bad e = if bad then err e else ok []

-- `if buf.remaining() < n { return Err(e) }`
unfoldable pub ensure : {E : Type 0} → E → ℕ → Get E (Unit {0})
ensure e n b = if ltb (length b) n then err e else ok (tt, b)

-- `try_get_u8`
unfoldable pub get_u8 : {E : Type 0} → E → Get E ℕ
get_u8 e [] = err e
get_u8 e (a ∷ rest) = ok (a, rest)

-- `try_get_u16`
unfoldable pub get_u16 : {E : Type 0} → E → Get E ℕ
unfolding from_u16_be
get_u16 e [] = err e
get_u16 e (a ∷ []) = err e
get_u16 e (a ∷ b ∷ rest) = ok (from_u16_be a b, rest)

-- `try_get_u32`
unfoldable pub get_u32 : {E : Type 0} → E → Get E ℕ
unfolding from_u32_be
get_u32 e [] = err e
get_u32 e (a ∷ []) = err e
get_u32 e (a ∷ b ∷ []) = err e
get_u32 e (a ∷ b ∷ c ∷ []) = err e
get_u32 e (a ∷ b ∷ c ∷ d ∷ rest) = ok (from_u32_be a b c d, rest)

-- `try_copy_to_slice` into `n` bytes.
unfoldable pub get_bytes : {E : Type 0} → E → ℕ → Get E (List ℕ)
get_bytes e n b = if ltb (length b) n then err e else ok (take n b, drop n b)

-- `decode_pstring(buf, n).map_err(…)`
unfoldable pub get_pstring : {E : Type 0} → E → ℕ → Get E (List ℕ)
get_pstring e n b = map_err (λ _. e) (decode_pstring b n)

-- `for _ in 0..n`
unfoldable pub get_many : {E A : Type 0} → ℕ → Get E A → Get E (List A)
get_many zero r = pure []
get_many (suc n) r = do x ← r; xs ← get_many n r; pure (x ∷ xs)

-- `put_u8`, `put_u16`, `put_u32` and `put_slice`.
unfoldable pub put_u8 : {E : Type 0} → ℕ → Put E
put_u8 n = ok (n ∷ [])

unfoldable pub put_u16 : {E : Type 0} → ℕ → Put E
put_u16 n = ok (u16_be n)

unfoldable pub put_u32 : {E : Type 0} → ℕ → Put E
put_u32 n = ok (u32_be n)

unfoldable pub put_slice : {E : Type 0} → List ℕ → Put E
put_slice b = ok b

-- `encode_pstring(buf, value, n, field).map_err(f)`
unfoldable pub put_pstring : {E : Type 0} → (FieldTooLong → E) → List ℕ → ℕ → String → Put E
put_pstring f value n field = map_err f (encode_pstring value n field)

-- `for x in xs`
unfoldable pub put_many : {E A : Type 0} → (A → Put E) → List A → Put E
put_many w [] = done
put_many w (x ∷ xs) = w x ⊕ put_many w xs

-- A result that was computed without reading.
unfoldable pub lift : {E A : Type 0} → Result E A → Get E A
lift m b = elim m [ ok a ↦ ok (a, b) | err e ↦ err e ]

-- `trim_end_matches`, for characters of one byte.
unfoldable pub trim_end : (ℕ → Bool) → List ℕ → List ℕ
trim_end p [] = []
trim_end p (b ∷ bs) = elim (trim_end p bs) [
  | [] ↦ (if p b then [] else b ∷ [])
  | c ∷ cs ↦ b ∷ c ∷ cs
]

-- A value in front of the NUL bytes that fill its field of `n` bytes.
unfoldable pub put_padded : {E : Type 0} → List ℕ → ℕ → Put E
put_padded v n = ok (v ++ replicate (n - length v) 0)

-- `String::from_utf8_lossy(field).trim_end_matches(…)`
unfoldable pub get_trimmed : {E : Type 0} → E → (ℕ → Bool) → ℕ → Get E (List ℕ)
get_trimmed e p n = do field ← get_bytes e n; pure (trim_end p (from_utf8_lossy field))
