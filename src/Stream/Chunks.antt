-- ===== src/Stream/Chunks.antt =====
-- However a stream is cut into chunks, its frames come out whole, once and in their order.
use rsms.Common.{
  ℕ, zero, suc, ◌≤◌, ◌<◌, ◌≡◌, refl, sym, ap, ◌∙◌, true, false, List, [], ◌∷◌, ◌++◌, append-nil,
  append_assoc, ltb, length, length-append, length-take, length-drop, subst, concat, take, drop,
  All, take-append, drop-append, take-append-drop, inl, inr, arith, ok, err, ◌>>=◌,
}
use rsms.Core.Protocol.{Protocol}
use rsms.Stream.{
  waits, cuts, next, accepts, total_length, decode_frames, Frames, FrameDecoder, new, decode_chunk,
  feed,
}
use rsms.Stream.Steps.{
  IsFrame, next-cases, next-append, total_length-append, prefixed, decode-waits, decode-refuses,
  decode-cuts, accepts_min,
}

-- What the decoding of `x ++ y` makes of the decoding of `x`.
extend : Protocol → List ℕ → List ℕ × Frames → List ℕ × Frames
extend p y (b, ok fs) = prefixed fs (decode_frames p (b ++ y))
extend p y (b, err e) = (b ++ y, err e)

prefixed-nil : (s : List ℕ × Frames) → prefixed [] s ≡ s
prefixed-nil (b, ok fs) = refl
prefixed-nil (b, err e) = refl

prefixed-extend :
    (p : Protocol) (y f : List ℕ) (s : List ℕ × Frames)
    → prefixed (f ∷ []) (extend p y s) ≡ extend p y (prefixed (f ∷ []) s)
unfolding extend
prefixed-extend p y f (b, ok fs) = go (decode_frames p (b ++ y))
  where
    go : (s : List ℕ × Frames) → prefixed (f ∷ []) (prefixed fs s) ≡ prefixed (f ∷ fs) s
    go (b, ok gs) = refl
    go (b, err e) = refl
prefixed-extend p y f (b, err e) = refl

extend-step :
    (p : Protocol) (x y : List ℕ)
    → ((rest : List ℕ)
        → length rest < length x
        → decode_frames p (rest ++ y) ≡ extend p y (decode_frames p rest))
    → decode_frames p (x ++ y) ≡ extend p y (decode_frames p x)
unfolding extend
extend-step p x y shorter = elim (next-append p x y) [
  | inl e ↦ rw (decode-waits p x e) (sym (prefixed-nil (decode_frames p (x ++ y))))
  | inr (inl (e, e')) ↦
      rw (decode-refuses p x (total_length x) e, decode-refuses p (x ++ y) (total_length x) e') refl
  | inr (inr (f, rest, e, e', less)) ↦
      decode-cuts p (x ++ y) f (rest ++ y) e'
        (omega (arith, less, length-append x y, length-append rest y))
      ∙ ap (prefixed (f ∷ [])) (shorter rest less)
      ∙ prefixed-extend p y f (decode_frames p rest)
      ∙ ap (extend p y) (sym (decode-cuts p x f rest e less))
]

decode-extend :
    (n : ℕ) (p : Protocol) (x y : List ℕ)
    → length x ≤ n
    → decode_frames p (x ++ y) ≡ extend p y (decode_frames p x)
decode-extend zero p x y h = extend-step p x y (λ rest less. absurd (omega (arith, h, less)))
decode-extend (suc n) p x y h =
    extend-step p x y (λ rest less. decode-extend n p rest y (omega (arith, h, less)))

-- Frames that are whole, together with the rest the whole input, and a rest that waits for more.
abbrev Exact : Protocol → List ℕ → List ℕ × Frames → Type 0
Exact p x (b, ok fs) = All (IsFrame p) fs × (concat fs ++ b ≡ x) × (next p b ≡ waits)
Exact p x (b, err e) = Unit {0}

Exact-step :
    (p : Protocol) (x : List ℕ)
    → ((rest : List ℕ) → length rest < length x → Exact p rest (decode_frames p rest))
    → Exact p x (decode_frames p x)
Exact-step p x shorter = elim (next-cases p x) [
  | inl e ↦ rw (decode-waits p x e) (tt, refl, e)
  | inr (inl (e, _, _)) ↦ rw (decode-refuses p x (total_length x) e) tt
  | inr (inr (e, long, good, whole)) ↦
      let total = total_length x in
      let front : length (take total x) ≡ total = omega (arith, length-take total x) in
      let same : total_length (take total x) ≡ total =
        sym (
          total_length-append (take total x) (drop total x)
            (omega (arith, accepts_min p total good)))
        ∙ ap total_length (take-append-drop total x) in
      let frame : IsFrame p (take total x) = record {
        header = omega (arith, accepts_min p total good);
        accepted = rw same good;
        whole = omega arith;
      } in
      let less : length (drop total x) < length x =
        omega (arith, length-drop total x, accepts_min p total good) in
      rw (decode-cuts p x (take total x) (drop total x) e less) (
        more (take total x) (drop total x) (decode_frames p (drop total x)) frame
          (take-append-drop total x) (shorter (drop total x) less))
]
  where
    more :
        (f rest : List ℕ) (s : List ℕ × Frames)
        → IsFrame p f
        → f ++ rest ≡ x
        → Exact p rest s
        → Exact p x (prefixed (f ∷ []) s)
    more f rest (b, ok fs) frame e (all, sum, waiting) =
        ((frame, all), append_assoc f (concat fs) b ∙ ap (λ (l : List ℕ). f ++ l) sum ∙ e, waiting)
    more f rest (b, err e') frame e h = tt

decode-Exact : (n : ℕ) (p : Protocol) (x : List ℕ) → length x ≤ n → Exact p x (decode_frames p x)
decode-Exact zero p x h = Exact-step p x (λ rest less. absurd (omega (arith, h, less)))
decode-Exact (suc n) p x h =
    Exact-step p x (λ rest less. decode-Exact n p rest (omega (arith, h, less)))

-- When a call succeeds, every frame is whole (its first four bytes give its own, accepted length),
-- the frames and the rest are the input, with nothing lost or added, and a further call without
-- more input finds no frame in the rest.
pub decode_frames-exact :
    (p : Protocol) (input rest : List ℕ) (fs : List (List ℕ))
    → decode_frames p input ≡ (rest, ok fs)
    → All (IsFrame p) fs × (concat fs ++ rest ≡ input) × (decode_frames p rest ≡ (rest, ok []))
decode_frames-exact p input rest fs e =
    let (all, sum, waiting) =
      subst (Exact p input) e (decode-Exact (length input) p input (omega arith)) in
    (all, sum, decode-waits p rest waiting)

-- Feeding chunks against decoding all at once: the same frames and the same rest, or the same error.
abbrev pub Agree : FrameDecoder × Frames → List ℕ × Frames → Type 0
Agree (d, ok fs) (b, r) = (r ≡ ok fs) × (d.buf ≡ b)
Agree (d, err e) (b, r) = r ≡ err e

Agree-prefixed :
    (fs : List (List ℕ)) (s : FrameDecoder × Frames) (t : List ℕ × Frames)
    → Agree s t
    → Agree (s.0, s.1 >>= λ gs. ok (fs ++ gs)) (prefixed fs t)
Agree-prefixed fs (d, ok gs) (b, r) (e, e') = (rw e refl, e')
Agree-prefixed fs (d, err x) (b, r) e = rw e refl

chunk_lem :
    (p : Protocol) (d : FrameDecoder) (c : List ℕ) {b : List ℕ} {r : Frames}
    → decode_frames p (d.buf ++ c) ≡ (b, r)
    → decode_chunk p d c ≡ (record { buf = b }, r)
unfolding decode_chunk
chunk_lem p d c q = ap (λ s. (record { buf = s.0 }, s.1)) q

feed-Agree :
    (p : Protocol) (d : FrameDecoder) (chunks : List (List ℕ))
    → next p d.buf ≡ waits
    → Agree (feed p d chunks) (decode_frames p (d.buf ++ concat chunks))
unfolding feed extend
feed-Agree p d [] waiting = rw (append-nil, decode-waits p d.buf waiting) (refl, refl)
feed-Agree p d (c ∷ cs) waiting =
    rw
      (
        ← append_assoc d.buf c (concat cs),
        decode-extend (length (d.buf ++ c)) p (d.buf ++ c) (concat cs) (omega arith),
      )
      (go (λ b w. feed-Agree p (record { buf = b }) cs w) (decode_frames p (d.buf ++ c)) refl)
  where
    go :
        ((b : List ℕ)
          → next p b ≡ waits
          → Agree (feed p (record { buf = b }) cs) (decode_frames p (b ++ concat cs)))
        → (s : List ℕ × Frames) → decode_frames p (d.buf ++ c) ≡ s
        → Agree (feed p d (c ∷ cs)) (extend p (concat cs) s)
    go later (b, err e) q = rw (ap (λ s. s.1) (chunk_lem p d c q), feed) refl
    go later (b, ok fs) q =
        let (all, sum, waiting') =
          subst (Exact p (d.buf ++ c)) q
            (decode-Exact (length (d.buf ++ c)) p (d.buf ++ c) (omega arith)) in
        let chunk = chunk_lem p d c q in
        rw (ap (λ s. s.1) chunk, feed)
          (rw (ap (λ s. s.0) chunk) (
            Agree-prefixed fs (feed p (record { buf = b }) cs) (decode_frames p (b ++ concat cs))
              (later b waiting')))

-- However a stream is cut into chunks, feeding them to a new decoder gives what decoding the whole
-- stream at once gives: the same frames and the same rest, or the same error.
pub feed-new :
    (p : Protocol) (chunks : List (List ℕ))
    → Agree (feed p new chunks) (decode_frames p (concat chunks))
unfolding new
feed-new p chunks = feed-Agree p new chunks (unfold next in refl)

next-frame : (p : Protocol) (f tail : List ℕ) → IsFrame p f → next p (f ++ tail) ≡ cuts f tail
unfolding next
next-frame p f tail h =
    let longer : ltb (length (f ++ tail)) 4 ≡ false =
      ground (arith, h.header, length-append f tail) in
    let there : ltb (length (f ++ tail)) (length f) ≡ false =
      ground (arith, length-append f tail) in
    let size = total_length-append f tail h.header ∙ h.whole in
    let good : accepts p (length f) ≡ true = rw h.whole at h.accepted in
    rw (longer, size, good, there, take-append f tail, drop-append f tail) refl

-- Whole frames one after another, followed by a rest in which a call finds neither a frame nor an
-- error, are decoded as they were sent, and the rest stays in the buffer.
pub decode_frames-concat :
    (p : Protocol) (fs : List (List ℕ)) (rest : List ℕ)
    → All (IsFrame p) fs
    → decode_frames p rest ≡ (rest, ok [])
    → decode_frames p (concat fs ++ rest) ≡ (rest, ok fs)
decode_frames-concat p [] rest h stays = stays
decode_frames-concat p (f ∷ fs) rest (here, h) stays =
    rw
      (
        append_assoc f (concat fs) rest,
        decode-cuts p (f ++ (concat fs ++ rest)) f (concat fs ++ rest)
            (next-frame p f (concat fs ++ rest) here)
            (omega (arith, length-append f (concat fs ++ rest), here.header)),
        decode_frames-concat p fs rest h stays,
      )
      refl
