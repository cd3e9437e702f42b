-- ===== src/Smgp/Strings.antt =====
-- What the optional parameters with a string are read back as:
-- crates/rsms-codec-smgp/src/datatypes/tlv.rs.
use rsms.Common.{
  ℕ, ◌<◌, ◌≡◌, refl, true, false, Option, none, some, List, [], ◌∷◌, ◌++◌, ◌==◌, if◌then◌else◌,
  length, ok, arith,
}
use rsms.Common.Bytes.{u16_mod}
use rsms.Common.Utf8.{IsUtf8, lossy-IsUtf8}
use rsms.Wire.Fields.{◌⊕◌, done, put_many}
use rsms.Smgp.Tlv.{
  tlv_size, value_size, string, octets, OptionalParameters, find_map, string_of, get_string,
  encode_params, decode_remaining,
}
use rsms.Smgp.Params.{is_special, read_bytes, read_back, is_string, tlv-Trip}
use rsms.Smgp.Loop.{params_step, loop_done}

string_of-octets : (t : ℕ) (v : List ℕ) → IsUtf8 v → string_of t (octets t v) ≡ some v
unfolding string_of
string_of-octets t v utf8 =
    let same : (t == t) ≡ true = ground arith in rw (same, lossy-IsUtf8 utf8) refl

-- What is read in place of a string holds it, but where its length is that of a number.
string_of-read_bytes :
    (t : ℕ) (v : List ℕ)
    → IsUtf8 v
    → string_of t (read_bytes t v) ≡ (if is_special (length v) then none else some v)
unfolding is_special read_bytes string_of
string_of-read_bytes t [] utf8 = refl
string_of-read_bytes t (a ∷ []) utf8 = refl
string_of-read_bytes t (a ∷ b ∷ []) utf8 = refl
string_of-read_bytes t (a ∷ b ∷ c ∷ []) utf8 = string_of-octets t (a ∷ b ∷ c ∷ []) utf8
string_of-read_bytes t (a ∷ b ∷ c ∷ d ∷ []) utf8 = refl
string_of-read_bytes t (a ∷ b ∷ c ∷ d ∷ x ∷ v) utf8 =
    let plain : is_special (length (a ∷ b ∷ c ∷ d ∷ x ∷ v)) ≡ false = ground arith in
    rw (plain, string_of-octets t (a ∷ b ∷ c ∷ d ∷ x ∷ v) utf8) refl

-- A string parameter that is UTF-8, shorter than 65536 bytes and has a tag below 65536, written and
-- read again, is found where its length is none of 0, 1, 2 and 4, and is not found where its length is
-- one of these.
pub get_string-decode_remaining :
    (t : ℕ) (v : List ℕ)
    → t < u16_mod
    → length v < u16_mod
    → IsUtf8 v
    → (bytes : List ℕ) × (encode_params (string t v ∷ []) ≡ ok bytes)
      × ((ps : OptionalParameters) × (decode_remaining bytes ≡ ok (ps, []))
          × (get_string ps t ≡ (if is_special (length v) then none else some v)))
unfolding encode_params put_many ◌⊕◌ done decode_remaining get_string find_map read_back tlv_size
    value_size
get_string-decode_remaining t v small fits utf8 =
    let s = tlv-Trip (string t v) (is_string t v small fits) in
    let p = read_bytes t v in
    (
      s.bytes ++ [],
      rw s.written refl,
      (
        p ∷ [],
        params_step p [] s.bytes [] (length (s.bytes ++ [])) (omega (arith, s.width)) s.reads
            (λ f h. loop_done f [] (omega arith)) (omega arith),
        only (string_of t p) (string_of-read_bytes t v utf8),
      ),
    )
  where
    only :
        {want : Option (List ℕ)} (o : Option (List ℕ))
        → o ≡ want
        → elim o [ some a ↦ some a | none ↦ none ] ≡ want
    only none h = h
    only (some a) h = h
