-- ===== src/Longmsg/Split/Segments.antt =====
-- What the loop of `split` puts into its frames: the header fields, the width and the payload.
use rsms.Common.{
  ℕ, zero, suc, ◌+◌, ◌-◌, ◌*◌, ◌≤◌, min, ◌≡◌, refl, sym, ap, ◌∙◌, List, [], ◌∷◌, ◌++◌, map, ltb,
  leb, length, take, drop, concat, All, length-take, length-drop, drop-drop, arith, Bool-cases, inl,
  inr, take_all,
}
use rsms.Longmsg.Frame.{LongMessageFrame, strip_udh}
use rsms.Longmsg.Split.{udh_len, slice, segment, segments}

pub slice-take-drop :
    (content : List ℕ) (start p : ℕ) → slice content start p ≡ take p (drop start content)
slice-take-drop content start p = elim (Bool-cases (leb (start + p) (length content))) [
  | inl e ↦ ap (λ (k : ℕ). take k (drop start content)) (ground arith)
  | inr e ↦
      let cut : min (start + p) (length content) - start ≡ length content - start = ground arith in
      rw cut (
        take_all _ (drop start content) (omega (arith, length-drop start content))
        ∙ sym (take_all p (drop start content) (ground (arith, length-drop start content))))
]

-- Behind the header of a segment stands its slice of the message.
pub strip_udh-segment :
    (ref total payload : ℕ) (content : List ℕ) (i : ℕ)
    → strip_udh (segment ref total payload content i).content ≡ slice content (i * payload) payload
unfolding strip_udh segment
strip_udh-segment ref total payload content i = elim (Bool-cases (ltb 255 ref)) [
  | inl e ↦ rw e (ground arith)
  | inr e ↦ rw e (ground arith)
]

pub length-segment :
    (ref total payload : ℕ) (content : List ℕ) (i : ℕ)
    → length (segment ref total payload content i).content
      ≡ udh_len ref + length (slice content (i * payload) payload)
unfolding segment
length-segment ref total payload content i = ground arith

pub take_add {ℓ} :
    {A : Type ℓ} (p q : ℕ) (xs : List A) → take p xs ++ take q (drop p xs) ≡ take (p + q) xs
take_add zero q xs = ap (λ (k : ℕ). take k xs) (omega arith)
take_add (suc p) zero [] = let e : suc p + 0 ≡ suc p = omega arith in rw e
take_add (suc p) (suc q) [] = let e : suc p + suc q ≡ suc (p + suc q) = omega arith in rw e
take_add (suc p) q (x ∷ xs) =
    let e : suc p + q ≡ suc (p + q) = omega arith in rw e (ap (◌∷◌ x) (take_add p q xs))

-- The payloads of the frames, in their order.
abbrev pub payloads : List LongMessageFrame → List ℕ
payloads fs = concat (map (λ f. strip_udh f.content) fs)

pub payloads-segments :
    (ref total payload : ℕ) (content : List ℕ) (k i : ℕ)
    → payloads (segments ref total payload content k i)
      ≡ take (k * payload) (drop (i * payload) content)
unfolding segments
payloads-segments ref total payload content zero i = let e : 0 * payload ≡ 0 = omega arith in rw e
payloads-segments ref total payload content (suc k) i =
    let next : (i + 1) * payload ≡ i * payload + payload = omega arith in
    let both : suc k * payload ≡ payload + k * payload = omega arith in
    rw
      (
        strip_udh-segment ref total payload content i,
        slice-take-drop content (i * payload) payload,
        payloads-segments ref total payload content k (i + 1),
        next,
        both,
        ← drop-drop (i * payload) payload content,
      )
      (take_add payload (k * payload) (drop (i * payload) content))

pub length-segments :
    (ref total payload : ℕ) (content : List ℕ) (k i : ℕ)
    → length (segments ref total payload content k i) ≡ k
unfolding segments
length-segments ref total payload content zero i = refl
length-segments ref total payload content (suc k) i =
    ap suc (length-segments ref total payload content k (i + 1))

-- The frames carry one reference and one total, and are numbered upwards from `i + 1`.
abbrev pub Numbered : ℕ → ℕ → ℕ → List LongMessageFrame → Type 0
Numbered ref total i [] = Unit {0}
Numbered ref total i (f ∷ fs) =
    (f.reference_id ≡ ref)
    × (f.total_segments ≡ total)
    × (f.segment_number ≡ i + 1)
    × Numbered ref total (i + 1) fs

pub segments-Numbered :
    (ref total payload : ℕ) (content : List ℕ) (k i : ℕ)
    → Numbered ref total i (segments ref total payload content k i)
unfolding segments segment
segments-Numbered ref total payload content zero i = tt
segments-Numbered ref total payload content (suc k) i =
    (refl, refl, refl, segments-Numbered ref total payload content k (i + 1))

-- No frame is longer than its header and a payload.
pub segments-bounded :
    (ref total payload : ℕ) (content : List ℕ) (k i : ℕ)
    → All (λ f. length f.content ≤ udh_len ref + payload) (segments ref total payload content k i)
unfolding segments
segments-bounded ref total payload content zero i = tt
segments-bounded ref total payload content (suc k) i = (
  rw (length-segment ref total payload content i, slice-take-drop content (i * payload) payload)
      (omega (arith, length-take payload (drop (i * payload) content))),
  segments-bounded ref total payload content k (i + 1),
)
