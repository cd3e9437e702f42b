-- ===== src/Smgp/Params.antt =====
-- Optional parameters that are written and read again, one at a time:
-- crates/rsms-codec-smgp/src/datatypes/tlv.rs.
use rsms.Common.{
  ℕ, ◌+◌, ◌%◌, ◌<◌, ◌≡◌, refl, sym, subst, Bool, false, ◌||◌, List, [], ◌∷◌, ◌==◌, length, arith,
}
use rsms.Common.Bytes.{u16_mod, u32_mod, from_u16_be, from_u32_be}
use rsms.Wire.Error.{CodecError, incomplete}
use rsms.Wire.Fields.{
  Get, Put, ◌>>=◌, ◌⊕◌, pure, done, ensure, get_u8, get_u16, get_u32, get_bytes, put_u16, put_slice,
}
use rsms.Wire.Trip.{
  Trip, Trip-pure, Trip-seq, Trip-ensure, Trip-u8, Trip-u16, Trip-u32, Trip-bytes, Trip-resize,
}
use rsms.Smgp.Tlv.{
  Tlv, byte, short, int, string, octets, empty, tag, encode_value, encode_tlv, value_size, tlv_size,
  decode_value, decode_tlv,
}

-- The lengths that are read as another kind of parameter than octets.
unfoldable pub is_special : ℕ → Bool
is_special n = (n == 0) || (n == 1) || (n == 2) || (n == 4)

-- What is read where bytes were written: their number says the kind.
unfoldable pub read_bytes : ℕ → List ℕ → Tlv
read_bytes t [] = empty t
read_bytes t (a ∷ []) = byte t a
read_bytes t (a ∷ b ∷ []) = short t (from_u16_be a b)
read_bytes t (a ∷ b ∷ c ∷ []) = octets t (a ∷ b ∷ c ∷ [])
read_bytes t (a ∷ b ∷ c ∷ d ∷ []) = int t (from_u32_be a b c d)
read_bytes t (a ∷ b ∷ c ∷ d ∷ x ∷ v) = octets t (a ∷ b ∷ c ∷ d ∷ x ∷ v)

-- What is read where a parameter was written.
unfoldable pub read_back : Tlv → Tlv
read_back (byte t v) = byte t v
read_back (short t v) = short t v
read_back (int t v) = int t v
read_back (string t v) = read_bytes t v
read_back (octets t v) = read_bytes t v
read_back (empty t) = empty t

-- The parameters that fit the wire.
pub data IsTlv : Tlv → Type 0 where
  is_byte : (t v : ℕ) → t < u16_mod → IsTlv (byte t v)
  is_short : (t v : ℕ) → t < u16_mod → v < u16_mod → IsTlv (short t v)
  is_int : (t v : ℕ) → t < u16_mod → v < u32_mod → IsTlv (int t v)
  is_string : (t : ℕ) (v : List ℕ) → t < u16_mod → length v < u16_mod → IsTlv (string t v)
  is_octets : (t : ℕ) (v : List ℕ) → t < u16_mod → length v < u16_mod → IsTlv (octets t v)
  is_empty : (t : ℕ) → t < u16_mod → IsTlv (empty t)

decode_value_octets :
    (t n : ℕ)
    → is_special n ≡ false
    → decode_value t n ≡ (get_bytes incomplete n >>= λ v. pure (octets t v))
unfolding decode_value is_special
decode_value_octets t n h = ground arith

-- The length and the value, read by the part of the decoder behind the tag.
value-Trip :
    {p : Tlv} {w : Put CodecError} (t n : ℕ)
    → n < u16_mod
    → Trip w (decode_value t n) p n
    → Trip
        (put_u16 n ⊕ w)
        (get_u16 incomplete >>= λ k. (ensure incomplete k >>= λ _. decode_value t k))
        p
        (2 + n)
value-Trip t n small s =
    Trip-seq _ (Trip-u16 incomplete small) (Trip-ensure n incomplete (omega arith) s)

-- The parameter that was written, and the one that is read.
pub tagged :
    (x p : Tlv) (n : ℕ)
    → tag x < u16_mod
    → Trip
        (encode_value x)
        (get_u16 incomplete >>= λ k. (ensure incomplete k >>= λ _. decode_value (tag x) k))
        p
        (2 + n)
    → Trip (encode_tlv x) decode_tlv p (4 + n)
unfolding encode_tlv decode_tlv
tagged x p n small s =
    Trip-ensure 4 incomplete (omega arith)
      (Trip-resize (Trip-seq _ (Trip-u16 incomplete small) s) (omega arith))

pub octets-Trip :
    (t : ℕ) (v : List ℕ)
    → is_special (length v) ≡ false
    → Trip {E = CodecError} (put_slice v ⊕ done) (decode_value t (length v)) (octets t v) (length v)
octets-Trip t v plain =
    Trip-resize
      (subst
        (λ (r : Get CodecError Tlv).
          Trip {E = CodecError} (put_slice v ⊕ done) r (octets t v) (length v + 0))
        (sym (decode_value_octets t (length v) plain))
        (Trip-seq _ (Trip-bytes incomplete refl) (Trip-pure (octets t v))))
      (omega arith)

-- The bytes of a value, read by their number.
bytes-Trip :
    (t : ℕ) (v : List ℕ)
    → Trip {E = CodecError}
        (put_slice v ⊕ done)
        (decode_value t (length v))
        (read_bytes t v)
        (length v)
unfolding decode_value is_special read_bytes put_slice ◌⊕◌ done pure get_u8 get_u16 get_u32 ◌>>=◌
bytes-Trip t [] = record { bytes = []; written = refl; width = refl; reads = λ rest. refl }
bytes-Trip t (a ∷ []) = record {
  bytes = a ∷ [];
  written = refl;
  width = refl;
  reads = λ rest. refl;
}
bytes-Trip t (a ∷ b ∷ []) = record {
  bytes = a ∷ b ∷ [];
  written = refl;
  width = refl;
  reads = λ rest. refl;
}
bytes-Trip t (a ∷ b ∷ c ∷ []) = octets-Trip t (a ∷ b ∷ c ∷ []) refl
bytes-Trip t (a ∷ b ∷ c ∷ d ∷ []) = record {
  bytes = a ∷ b ∷ c ∷ d ∷ [];
  written = refl;
  width = refl;
  reads = λ rest. refl;
}
bytes-Trip t (a ∷ b ∷ c ∷ d ∷ x ∷ v) = octets-Trip t (a ∷ b ∷ c ∷ d ∷ x ∷ v) (ground arith)

-- The length in two bytes and the value, whatever the value is read as.
pub string_body :
    (t : ℕ) (v : List ℕ) (p : Tlv)
    → length v < u16_mod
    → Trip {E = CodecError} (put_slice v ⊕ done) (decode_value t (length v)) p (length v)
    → Trip
        (encode_value (octets t v))
        (get_u16 incomplete >>= λ k. (ensure incomplete k >>= λ _. decode_value t k))
        p
        (2 + length v)
unfolding encode_value
string_body t v p small body =
    let same : length v % u16_mod ≡ length v = omega arith in
    subst
      (λ (n : ℕ).
        Trip {E = CodecError} (put_u16 n ⊕ put_slice v ⊕ done)
          (get_u16 incomplete >>= λ k. (ensure incomplete k >>= λ _. decode_value t k)) p
          (2 + length v))
      (sym same) (value-Trip t (length v) small body)

pub tlv-Trip : (p : Tlv) → IsTlv p → Trip (encode_tlv p) decode_tlv (read_back p) (tlv_size p)
unfolding read_back tlv_size value_size encode_value decode_value tag
tlv-Trip _ (is_byte t v small) =
    tagged (byte t v) (byte t v) 1 small
      (value-Trip t 1 (omega arith) (Trip-seq _ (Trip-u8 incomplete v) (Trip-pure (byte t v))))
tlv-Trip _ (is_short t v small fits) =
    tagged (short t v) (short t v) 2 small
      (value-Trip t 2 (omega arith) (Trip-seq _ (Trip-u16 incomplete fits) (Trip-pure (short t v))))
tlv-Trip _ (is_int t v small fits) =
    tagged (int t v) (int t v) 4 small
      (value-Trip t 4 (omega arith) (Trip-seq _ (Trip-u32 incomplete fits) (Trip-pure (int t v))))
tlv-Trip _ (is_string t v small fits) =
    tagged (string t v) (read_bytes t v) (length v) small
      (string_body t v (read_bytes t v) fits (bytes-Trip t v))
tlv-Trip _ (is_octets t v small fits) =
    tagged (octets t v) (read_bytes t v) (length v) small
      (string_body t v (read_bytes t v) fits (bytes-Trip t v))
tlv-Trip _ (is_empty t small) =
    tagged (empty t) (empty t) 0 small (value-Trip t 0 (omega arith) (Trip-pure (empty t)))
