-- ===== src/Smgp/Loop.antt =====
-- How far the loop goes that reads the optional parameters, and what it reads back:
-- crates/rsms-codec-smgp/src/datatypes/tlv.rs.
use rsms.Common.{
  ℕ, zero, suc, ◌+◌, ◌<◌, ◌≤◌, ◌≡◌, refl, subst, true, false, List, map, [], ◌∷◌, ◌++◌, ltb, ◌==◌,
  length, length-append, All, ok, err, Result-cases, inl, inr, Bool-cases, arith,
}
use rsms.Wire.Error.{CodecError, incomplete}
use rsms.Wire.Fields.{Get, ◌>>=◌, ◌⊕◌, pure, done, get_u8, get_u16, get_u32, get_bytes, put_many}
use rsms.Wire.Whole.{Whole}
use rsms.Wire.Readers.{
  Reads, Reads-bind, Reads-pure, Reads-ensure, Reads-u8, Reads-u16, Reads-u32, Reads-bytes,
  Reads-weaken, Reads-if,
}
use rsms.Smgp.Tlv.{
  Tlv, byte, short, int, octets, empty, tlv_size, decode_value, decode_tlv, OptionalParameters,
  encode_params, params_size, decode_loop, decode_remaining,
}
use rsms.Smgp.Params.{IsTlv, read_back, tlv-Trip}

then_pure :
    {A : Type 0} (k : ℕ) (r : Get CodecError A) (f : A → Tlv)
    → Reads incomplete k r
    → Reads incomplete 0 (r >>= λ v. pure (f v))
then_pure k r f s =
    Reads-weaken _ (Reads-bind r (λ v. pure (f v)) s (λ v. Reads-pure incomplete (f v)))
      (omega arith)

decode_value-Reads : (t n : ℕ) → Reads incomplete 0 (decode_value t n)
unfolding decode_value
decode_value-Reads t n = Reads-if (n == 0) _ _ (Reads-pure incomplete (empty t)) (
    Reads-if (n == 1) _ _ (then_pure 1 (get_u8 incomplete) (byte t) (Reads-u8 incomplete)) (
      Reads-if (n == 2) _ _ (then_pure 2 (get_u16 incomplete) (short t) (Reads-u16 incomplete)) (
        Reads-if (n == 4) _ _ (then_pure 4 (get_u32 incomplete) (int t) (Reads-u32 incomplete))
          (then_pure 0 (get_bytes incomplete n) (octets t) (Reads-bytes incomplete n)))))

decode_tlv-Reads : Reads incomplete 4 decode_tlv
unfolding decode_tlv
decode_tlv-Reads =
    Reads-weaken _
      (Reads-bind _ _ (Reads-ensure incomplete 4) (λ _. Reads-bind _ _ (Reads-u16 incomplete) (λ t.
        Reads-bind _ _ (Reads-u16 incomplete)
          (λ n. Reads-bind _ _ (Reads-ensure incomplete n) (λ _. decode_value-Reads t n)))))
      (omega arith)

pub loop_done : (fuel : ℕ) (b : List ℕ) → length b < 4 → decode_loop fuel b ≡ ok ([], [])
unfolding decode_loop
loop_done zero b h = refl
loop_done (suc fuel) b h =
    let short : ltb (length b) 4 ≡ true = ground arith in rw (short, decode_loop) refl

loop_step :
    (fuel : ℕ) (b rest : List ℕ) (t : Tlv) (ps : OptionalParameters)
    → 4 ≤ length b
    → decode_tlv b ≡ ok (t, rest)
    → decode_loop fuel rest ≡ ok (ps, [])
    → decode_loop (suc fuel) b ≡ ok (t ∷ ps, [])
unfolding decode_loop ◌>>=◌ pure
loop_step fuel b rest t ps h read later =
    let long : ltb (length b) 4 ≡ false = ground arith in
    rw (long, decode_loop) (rw (read, decode_loop) (rw (later, ◌>>=◌) refl))

loop_stop :
    (fuel : ℕ) (b : List ℕ) → decode_tlv b ≡ err incomplete → decode_loop fuel b ≡ ok ([], [])
unfolding decode_loop
loop_stop zero b h = refl
loop_stop (suc fuel) b h = elim (Bool-cases (ltb (length b) 4)) [
  | inl q ↦ rw (q, decode_loop) refl
  | inr q ↦ rw (q, decode_loop) (rw (h, decode_loop) refl)
]

loop_agree :
    (f g : ℕ) (b : List ℕ)
    → length b ≤ f
    → length b ≤ g
    → (ps : OptionalParameters) × (decode_loop f b ≡ ok (ps, [])) × (decode_loop g b ≡ ok (ps, []))
loop_agree zero g b h h' = ([], loop_done zero b (omega arith), loop_done g b (omega arith))
loop_agree (suc f) zero b h h' =
    ([], loop_done (suc f) b (omega arith), loop_done zero b (omega arith))
loop_agree (suc f) (suc g) b h h' = elim (Bool-cases (ltb (length b) 4)) [
  | inl q ↦
      let few : length b < 4 = ground arith in
      ([], loop_done (suc f) b few, loop_done (suc g) b few)
  | inr q ↦
      let long : 4 ≤ length b = ground arith in
      elim (Result-cases (decode_tlv b)) [
        | inl ((t, rest), read) ↦
            let shorter : 4 + length rest ≤ length b = decode_tlv-Reads.takes b rest t read in
            let (ps, first, second) = loop_agree f g rest (omega arith) (omega arith) in
            (
              t ∷ ps,
              loop_step f b rest t ps long read first,
              loop_step g b rest t ps long read second,
            )
        | inr (x, failed) ↦
            let stop : decode_tlv b ≡ err incomplete =
              subst (λ (y : CodecError). decode_tlv b ≡ err y) (decode_tlv-Reads.fails b x failed)
                failed in
            ([], loop_stop (suc f) b stop, loop_stop (suc g) b stop)
      ]
]

-- Whatever the bytes, the loop ends without an error, and more fuel than there are bytes does not
-- change what it finds.
pub decode_loop-enough :
    (fuel : ℕ) (b : List ℕ)
    → length b ≤ fuel
    → (ps : OptionalParameters) × (decode_loop fuel b ≡ ok (ps, []))
      × (decode_remaining b ≡ ok (ps, []))
unfolding decode_remaining
decode_loop-enough fuel b h = loop_agree fuel (length b) b h (omega arith)

pub params_step :
    (p : Tlv) (ps : OptionalParameters) (front back : List ℕ) (fuel : ℕ)
    → 4 ≤ length front
    → ((rest : List ℕ) → decode_tlv (front ++ rest) ≡ ok (p, rest))
    → ((f : ℕ) → length back ≤ f → decode_loop f back ≡ ok (ps, []))
    → length (front ++ back) ≤ fuel
    → decode_loop fuel (front ++ back) ≡ ok (p ∷ ps, [])
params_step p ps front back zero wide first later h =
    absurd (omega (arith, length-append front back))
params_step p ps front back (suc fuel) wide first later h =
    loop_step fuel (front ++ back) back p ps (omega (arith, length-append front back)) (first back)
      (later fuel (omega (arith, length-append front back)))

params_read :
    (ps : OptionalParameters)
    → All IsTlv ps
    → (bytes : List ℕ) × (encode_params ps ≡ ok bytes)
      × (length bytes ≡ params_size ps)
      × ((fuel : ℕ) → length bytes ≤ fuel → decode_loop fuel bytes ≡ ok (map read_back ps, []))
unfolding encode_params params_size put_many ◌⊕◌ done tlv_size
params_read [] all = ([], refl, refl, λ fuel h. loop_done fuel [] (omega arith))
params_read (p ∷ ps) all =
    let t = tlv-Trip p all.0 in
    let (back, written, width, later) = params_read ps all.1 in
    (
      t.bytes ++ back,
      rw (t.written, written) refl,
      omega (arith, length-append t.bytes back, t.width, width),
      λ fuel h.
          params_step (read_back p) (map read_back ps) t.bytes back fuel (omega (arith, t.width))
            t.reads later h,
    )

-- Parameters that fit the wire, read by the loop.
pub params-Whole :
    (ps : OptionalParameters)
    → All IsTlv ps
    → Whole (encode_params ps) decode_remaining (map read_back ps) (params_size ps)
unfolding decode_remaining
params-Whole ps all =
    let (bytes, written, width, reads) = params_read ps all in
    record {
      bytes = bytes;
      written = written;
      width = width;
      reads = ([], reads (length bytes) (omega arith));
    }
