-- ===== src/Wire/Strings.antt =====
-- Strings in fields of a fixed width: what a field can hold is read back from it.
use Prim.Native.String.{String}
use rsms.Common.{
  ℕ, zero, suc, ◌-◌, ◌≤◌, ◌≡◌, refl, sym, ap, subst, ◌∙◌, Bool, true, List, [], ◌∷◌, ◌++◌, length,
  length-append, replicate, length-replicate, ok, map_err, ok_injective, arith,
}
use rsms.Common.Utf8.{from_utf8_lossy, IsUtf8, empty, lossy-IsUtf8, IsUtf8-append, zeros-IsUtf8}
use rsms.Core.Pstring.{FieldTooLong, trim, encode_pstring, decode_pstring, decode-encode_pstring}
use rsms.Wire.Fields.{
  ◌>>=◌, pure, get_bytes, get_pstring, put_slice, put_pstring, trim_end, put_padded, get_trimmed,
}
use rsms.Wire.Trip.{Trip, Trip-map, Trip-bytes}

-- A string that a field of `n` bytes can hold and give back.
pub record FitsField (n : ℕ) (v : List ℕ) : Type 0 where
  pub utf8 : IsUtf8 v
  pub trimmed : trim v ≡ v
  pub fits : length v ≤ n

pub empty-FitsField : (n : ℕ) → FitsField n []
unfolding trim
empty-FitsField n = record { utf8 = empty; trimmed = refl; fits = omega arith }

module _ {F : Type 0} where
  read_again :
      (e : F) (v : List ℕ) (n : ℕ) (field : String) (bytes rest : List ℕ)
      → encode_pstring v n field ≡ ok bytes
      → ((other : List ℕ) × (encode_pstring v n field ≡ ok other)
          × (length other ≡ n)
          × (decode_pstring (other ++ rest) n ≡ ok (v, rest)))
      → map_err (λ _. e) (decode_pstring (bytes ++ rest) n) ≡ ok (v, rest)
  read_again e v n field bytes rest written (other, written', _, q) =
      let same : other ≡ bytes = ok_injective (sym written' ∙ written) in
      subst (λ (l : List ℕ). map_err (λ _. e) (decode_pstring (l ++ rest) n) ≡ ok (v, rest)) same
        (ap (map_err (λ _. e)) q)

module _ {E F : Type 0} where
  pub Trip-pstring :
      (e : F) (f : FieldTooLong → E) (field : String) {n : ℕ} {v : List ℕ}
      → FitsField n v
      → Trip (put_pstring f v n field) (get_pstring e n) v n
  unfolding put_pstring get_pstring
  Trip-pstring e f field {n} {v} h =
      let (bytes, written, width, _) = decode-encode_pstring v [] n field h.utf8 h.trimmed h.fits in
      record {
        bytes = bytes;
        written = ap (map_err f) written;
        width = width;
        reads = λ rest.
            read_again e v n field bytes rest written
              (decode-encode_pstring v rest n field h.utf8 h.trimmed h.fits);
      }

-- A string that a field of `n` bytes can hold and give back where the bytes that pass the test are
-- cut off its end.
pub record FitsPadded (p : ℕ → Bool) (n : ℕ) (v : List ℕ) : Type 0 where
  pub utf8 : IsUtf8 v
  pub trimmed : trim_end p v ≡ v
  pub fits : length v ≤ n

trim_end-zeros : (p : ℕ → Bool) (n : ℕ) → p 0 ≡ true → trim_end p (replicate n 0) ≡ []
unfolding trim_end
trim_end-zeros p zero h = refl
trim_end-zeros p (suc n) h = rw (trim_end-zeros p n h, trim_end) (rw h refl)

trim_end-padded :
    (p : ℕ → Bool) (v : List ℕ) (n : ℕ)
    → p 0 ≡ true
    → trim_end p (v ++ replicate n 0) ≡ trim_end p v
unfolding trim_end
trim_end-padded p [] n h = trim_end-zeros p n h
trim_end-padded p (b ∷ v) n h = rw (trim_end-padded p v n h, trim_end) refl

module _ {E F : Type 0} where
  pub Trip-padded :
      (e : F) (p : ℕ → Bool) {n : ℕ} {v : List ℕ}
      → p 0 ≡ true
      → FitsPadded p n v
      → Trip {E = E} (put_padded v n) (get_trimmed e p n) v n
  unfolding put_padded get_trimmed put_slice
  Trip-padded e p {n} {v} h fits =
      let pad = replicate (n - length v) 0 in
      let width : length (v ++ pad) ≡ n =
        omega (arith, length-append v pad, length-replicate (n - length v) zero, fits.fits) in
      let kept : trim_end p (from_utf8_lossy (v ++ pad)) ≡ v =
        ap (trim_end p) (lossy-IsUtf8 (IsUtf8-append fits.utf8 (zeros-IsUtf8 (n - length v))))
        ∙ trim_end-padded p v (n - length v) h
        ∙ fits.trimmed in
      let whole =
        Trip-map (λ (l : List ℕ). trim_end p (from_utf8_lossy l))
          (Trip-bytes {E = E} {F = F} e {n = n} {v = v ++ pad} width) in
      subst
        (λ (x : List ℕ).
          Trip {E = E} (put_slice (v ++ pad))
            (get_bytes e n >>= λ l. pure (trim_end p (from_utf8_lossy l))) x n)
        kept whole
