-- ===== src/Longmsg/Split/Reassembly.antt =====
-- The frames of `split` against the message: nothing lost or added, lengths, and where it is cut.
use rsms.Common.{
  ℕ, ◌+◌, ◌*◌, ◌≤◌, ◌<◌, ◌≡◌, ◌∙◌, subst, inl, inr, List, leb, length, take, All, length-take,
  take_all, arith, Bool-cases,
}
use rsms.Longmsg.ReferenceId.{ReferenceIdGenerator, next_reference_id}
use rsms.Longmsg.Split.{
  SmsAlphabet, gsm7, ascii, ucs2, binary, max_per_segment, payload_per_segment, udh_len,
  segment_count, split_with, split,
}
use rsms.Longmsg.Split.Segments.{
  payloads, payloads-segments, length-segments, segments-Numbered, segments-bounded, Numbered,
}

-- The most that 255 segments can carry.
abbrev pub capacity : ℕ → SmsAlphabet → ℕ
capacity ref alphabet = 255 * payload_per_segment ref alphabet

-- Up to the capacity the count is the ceiling of the quotient, and the segments reach the end.
pub segment_count_covers :
    (ref len : ℕ) (alphabet : SmsAlphabet)
    → len ≤ capacity ref alphabet
    → len ≤ segment_count len (payload_per_segment ref alphabet) * payload_per_segment ref alphabet
segment_count_covers ref len gsm7 h = ground arith
segment_count_covers ref len ascii h = ground arith
segment_count_covers ref len ucs2 h = ground arith
segment_count_covers ref len binary h = ground arith

pub segment_count_short :
    (ref len : ℕ) (alphabet : SmsAlphabet)
    → capacity ref alphabet < len
    → segment_count len (payload_per_segment ref alphabet) * payload_per_segment ref alphabet < len
segment_count_short ref len gsm7 h = ground arith
segment_count_short ref len ascii h = ground arith
segment_count_short ref len ucs2 h = ground arith
segment_count_short ref len binary h = ground arith

pub payloads-split_with :
    (ref : ℕ) (content : List ℕ) (alphabet : SmsAlphabet)
    → payloads (split_with ref content alphabet)
      ≡ take
          (segment_count (length content) (payload_per_segment ref alphabet)
            * payload_per_segment ref alphabet)
          content
unfolding split_with
payloads-split_with ref content alphabet =
    let none_skipped : 0 * payload_per_segment ref alphabet ≡ 0 = omega arith in
    rw (payloads-segments ref _ (payload_per_segment ref alphabet) content _ 0, none_skipped)

pub payloads-split_with_all :
    (ref : ℕ) (content : List ℕ) (alphabet : SmsAlphabet)
    → length content ≤ capacity ref alphabet
    → payloads (split_with ref content alphabet) ≡ content
payloads-split_with_all ref content alphabet h =
    payloads-split_with ref content alphabet
    ∙ take_all _ content (segment_count_covers ref (length content) alphabet h)

abbrev next_ref : ReferenceIdGenerator → ℕ
next_ref g = (next_reference_id g).1

pub split_long :
    (g : ReferenceIdGenerator) (content : List ℕ) (alphabet : SmsAlphabet)
    → max_per_segment alphabet < length content
    → (split g content alphabet).1 ≡ split_with (next_ref g) content alphabet
unfolding split
split_long g content alphabet h = ground arith

-- A message that is longer than one segment and fits 255 of them is cut into frames whose payloads,
-- behind their headers and in their order, are the message.
pub payloads-split :
    (g : ReferenceIdGenerator) (content : List ℕ) (alphabet : SmsAlphabet)
    → max_per_segment alphabet < length content
    → length content ≤ capacity (next_ref g) alphabet
    → payloads (split g content alphabet).1 ≡ content
payloads-split g content alphabet long fits =
    rw (split_long g content alphabet long)
      (payloads-split_with_all (next_ref g) content alphabet fits)

-- A message that is longer than one segment and longer than the payloads of 255 segments is cut short
-- without an error: the frames carry fewer bytes than it has.
pub split_truncates :
    (g : ReferenceIdGenerator) (content : List ℕ) (alphabet : SmsAlphabet)
    → capacity (next_ref g) alphabet < length content
    → max_per_segment alphabet < length content
    → length (payloads (split g content alphabet).1) < length content
split_truncates g content alphabet big long =
    rw (split_long g content alphabet long, payloads-split_with (next_ref g) content alphabet)
      (omega (
        arith,
        length-take
            (segment_count (length content) (payload_per_segment (next_ref g) alphabet)
              * payload_per_segment (next_ref g) alphabet)
            content,
        segment_count_short (next_ref g) (length content) alphabet big,
      ))

header_fits :
    (ref : ℕ) (alphabet : SmsAlphabet)
    → udh_len ref + payload_per_segment ref alphabet ≡ max_per_segment alphabet
header_fits ref gsm7 = ground arith
header_fits ref ascii = ground arith
header_fits ref ucs2 = ground arith
header_fits ref binary = ground arith

split_with_bounded :
    (ref : ℕ) (content : List ℕ) (alphabet : SmsAlphabet)
    → All (λ f. length f.content ≤ max_per_segment alphabet) (split_with ref content alphabet)
unfolding split_with
split_with_bounded ref content alphabet =
    subst (λ (n : ℕ). All (λ f. length f.content ≤ n) (split_with ref content alphabet))
      (header_fits ref alphabet)
      (segments-bounded ref _ (payload_per_segment ref alphabet) content _ 0)

-- Every frame of every message, its header included, is within the limit of the alphabet.
pub split_bounded :
    (g : ReferenceIdGenerator) (content : List ℕ) (alphabet : SmsAlphabet)
    → All (λ f. length f.content ≤ max_per_segment alphabet) (split g content alphabet).1
unfolding split
split_bounded g content alphabet =
    elim (Bool-cases (leb (length content) (max_per_segment alphabet))) [
      | inl e ↦ rw e (ground arith, tt)
      | inr e ↦ rw e (split_with_bounded (next_ref g) content alphabet)
    ]

-- The frames of a message that is longer than one segment carry the generator's next reference and
-- their own number as the total, and are numbered 1, 2, 3 and so on.
pub split-Numbered :
    (g : ReferenceIdGenerator) (content : List ℕ) (alphabet : SmsAlphabet)
    → max_per_segment alphabet < length content
    → Numbered (next_ref g) (length (split g content alphabet).1) 0 (split g content alphabet).1
unfolding split_with
split-Numbered g content alphabet long =
    rw
      (
        split_long g content alphabet long,
        length-segments (next_ref g) _ (payload_per_segment (next_ref g) alphabet) content _ 0,
      )
      (segments-Numbered (next_ref g) _ (payload_per_segment (next_ref g) alphabet) content _ 0)
