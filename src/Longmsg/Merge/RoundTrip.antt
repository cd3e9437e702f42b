-- ===== src/Longmsg/Merge/RoundTrip.antt =====
-- Splitting and merging: a long message comes back whole, in whatever order its segments arrive.
use mathlib.Core.List.{Nodup, Perm, Permᴰ}
use mathlib.Core.List.Perm
use mathlib.Core.Logic.{∥∥₁_elim}
use native.Mathlib.Nat.{ℕ_set}
use rsms.Common.{
  ℕ, zero, suc, ◌+◌, ◌≤◌, ◌<◌, ◌≡◌, refl, sym, ap, subst, ◌∙◌, none, List, [], ◌∷◌, ◌++◌, map,
  length, length-map, All,
}
use rsms.Common.Classes.{bytes_eq}
use rsms.Common.Decimal.{to_string}
use rsms.Common.Dict.{lookup}
use rsms.Longmsg.Frame.{LongMessageFrame, unique_id}
use rsms.Longmsg.ReferenceId.{ReferenceIdGenerator, next_reference_id}
use rsms.Longmsg.Split.{
  SmsAlphabet, max_per_segment, segment, segments, split, split_with, segment_count,
  payload_per_segment,
}
use rsms.Longmsg.Split.Segments.{Numbered, length-segments, segments-Numbered, payloads}
use rsms.Longmsg.Split.Reassembly.{capacity, split_long, payloads-split}
use rsms.Longmsg.Merge.{LongMessageMerger, add_frames, group_key, assemble, sort_by_number}
use rsms.Longmsg.Merge.Sort.{number, sort-perm, sort-Numbered, Numbered-Nodup}
use rsms.Longmsg.Merge.AnyOrder.{arrived, outcomes, IsPart, from_first}

All-permᴰ {ℓ} :
    (P : LongMessageFrame → Type ℓ) {fs gs : List LongMessageFrame}
    → Permᴰ fs gs
    → All P gs
    → All P fs
All-permᴰ P Permᴰ.nil h = tt
All-permᴰ P (Permᴰ.cons e p) h = (rw e h.0, All-permᴰ P p h.1)
All-permᴰ P (Permᴰ.swap e e') h = (rw e h.1.0, (rw e' h.0, h.1.1))
All-permᴰ P (Permᴰ.trans p q) h = All-permᴰ P p (All-permᴰ P q h)

IsPart-prop :
    (sender key : List ℕ) (total : ℕ) (f : LongMessageFrame) → IsProp (IsPart sender key total f)
IsPart-prop sender key total f = hlevel

Parts-prop :
    (sender key : List ℕ) (total : ℕ) (fs : List LongMessageFrame)
    → IsProp (All (IsPart sender key total) fs)
Parts-prop sender key total [] = hlevel
Parts-prop sender key total (f ∷ fs) =
    hlevel (IsPart-prop sender key total f, Parts-prop sender key total fs)

Parts-perm :
    (sender key : List ℕ) (total : ℕ) {fs gs : List LongMessageFrame}
    → Perm fs gs
    → All (IsPart sender key total) gs
    → All (IsPart sender key total) fs
Parts-perm sender key total {fs} p h =
    ∥∥₁_elim p (Parts-prop sender key total fs) (λ q. All-permᴰ (IsPart sender key total) q h)

length-permᴰ : {fs gs : List LongMessageFrame} → Permᴰ fs gs → length fs ≡ length gs
length-permᴰ Permᴰ.nil = refl
length-permᴰ (Permᴰ.cons e p) = ap suc (length-permᴰ p)
length-permᴰ (Permᴰ.swap e e') = refl
length-permᴰ (Permᴰ.trans p q) = length-permᴰ p ∙ length-permᴰ q

length-perm : {fs gs : List LongMessageFrame} → Perm fs gs → length fs ≡ length gs
length-perm p = ∥∥₁_elim p (ℕ_set _ _) length-permᴰ

-- The key of a group by its sender, reference and total.
unfoldable pub ref_key : List ℕ → ℕ → ℕ → List ℕ
ref_key sender ref total = sender ++ (0x1f ∷ (to_string ref ++ (b'-' ∷ to_string total)))

-- The frames of a split are segments of one group.
segments-IsPart :
    (sender : List ℕ) (ref total payload : ℕ) (content : List ℕ) (k i : ℕ)
    → All (IsPart sender (ref_key sender ref total) total) (segments ref total payload content k i)
unfolding segments segment ref_key group_key unique_id
segments-IsPart sender ref total payload content zero i = tt
segments-IsPart sender ref total payload content (suc k) i =
    ((refl, refl, refl), segments-IsPart sender ref total payload content k (i + 1))

-- The frames of a message that is longer than one segment and fits 255 of them, in any order of
-- arrival within the time to live, on a merger that holds no group of their sender, reference and
-- total: every call but the last returns nothing, and the last returns the message.
pub add_frames-split :
    (m : LongMessageMerger) (sender : List ℕ) (g : ReferenceIdGenerator) (content : List ℕ)
    (alphabet : SmsAlphabet) (t : ℕ) (arrivals : List (ℕ × LongMessageFrame))
    → max_per_segment alphabet < length content
    → length content ≤ capacity (next_reference_id g).1 alphabet
    → Perm (arrived arrivals) (split g content alphabet).1
    → lookup (ref_key sender (next_reference_id g).1 (length arrivals)) m.pending_frames ≡ none
    → All (λ p. (t ≤ p.0) × (p.0 ≤ t + m.ttl)) arrivals
    → (add_frames m sender arrivals).1 ≡ outcomes (length arrivals) content
add_frames-split m sender g content alphabet t arrivals long fits perm missing within =
    from_first sender (ref_key sender ref (length arrivals)) (length arrivals) m t arrivals missing
      within parts distinct refl
    ∙ ap (outcomes (length arrivals)) whole
  where
    ref : ℕ
    ref = (next_reference_id g).1

    payload : ℕ
    payload = payload_per_segment ref alphabet

    frames : List LongMessageFrame
    frames =
        segments ref (segment_count (length content) payload) payload content
          (segment_count (length content) payload) 0

    cut : (split g content alphabet).1 ≡ frames
    cut = split_long g content alphabet long ∙ unfold split_with in refl

    same : Perm (arrived arrivals) frames
    same = subst (Perm (arrived arrivals)) cut perm

    size : segment_count (length content) payload ≡ length arrivals
    size =
        sym (length-segments ref _ payload content _ 0)
        ∙ sym (length-perm same)
        ∙ length-map arrivals (λ p. p.1)

    numbered : Numbered ref (segment_count (length content) payload) 0 frames
    numbered = segments-Numbered ref _ payload content _ 0

    distinct : Nodup (map number (arrived arrivals))
    distinct =
        Perm.nodup (Perm.symm (Perm.map number same)) (Numbered-Nodup ref _ 0 frames numbered)

    parts :
        All
          (IsPart sender (ref_key sender ref (length arrivals)) (length arrivals))
          (arrived arrivals)
    parts = Parts-perm sender _ (length arrivals) same (
        subst (λ (n : ℕ). All (IsPart sender (ref_key sender ref n) n) frames) size
          (segments-IsPart sender ref _ payload content _ 0))

    sorted : sort_by_number (arrived arrivals) ≡ (split g content alphabet).1
    sorted = sort-perm same distinct ∙ sort-Numbered ref _ 0 frames numbered ∙ sym cut

    whole : assemble (arrived arrivals) ≡ content
    whole = unfold assemble in ap payloads sorted ∙ payloads-split g content alphabet long fits
