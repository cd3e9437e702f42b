-- ===== src/Longmsg/Tests.antt =====
-- The long message theorems at concrete messages.
use mathlib.Core.List.{Perm}
use mathlib.Core.List.Perm
use rsms.Common.{
  ℕ, ◌≤◌, ◌<◌, ◌≡◌, ◌≢◌, refl, some, false, ◌+◌, ◌*◌, List, [], ◌∷◌, ◌++◌, length, replicate,
  length-replicate, All, err, arith,
}
use rsms.Common.Classes.{bytes_eq}
use rsms.Common.Dict.{lookup}
use rsms.Core.Error.{RsmsError}
use rsms.Longmsg.Frame.{
  LongMessageFrame, UdhHeader, unique_id, new_16bit, to_bytes, from_bytes, extract_udh,
}
use rsms.Longmsg.Frame.Header.{long, extract_udh-to_bytes, from_bytes-to_bytes_fails}
use rsms.Longmsg.ReferenceId.{ReferenceIdGenerator, next_reference_id}
use rsms.Longmsg.ReferenceId.Distinct.{advance, advance-reference_distinct}
use rsms.Longmsg.Bitmap.{is_complete}
use rsms.Longmsg.Split.{binary, ucs2, split, segment, segments, split_with, max_per_segment}
use rsms.Longmsg.Split.Segments.{payloads}
use rsms.Longmsg.Split.Reassembly.{payloads-split, split_truncates, split_bounded}
use rsms.Longmsg.Merge.{LongMessageMerger, with_ttl, add_frames, group_key}
use rsms.Longmsg.Merge.AnyOrder.{arrived, outcomes}
use rsms.Longmsg.Merge.RoundTrip.{add_frames-split}
use rsms.Longmsg.Merge.Key.{group_key_injective}
use rsms.Longmsg.Merge.History.{
  Call, adds, cleans, sets_ttl, last_time, run_history, run_history_bounded,
}

abbrev sender : List ℕ
sender = b'1' ∷ b'3' ∷ []

abbrev generator : ReferenceIdGenerator
generator = record { counter = 7 }

abbrev letter : ℕ
letter = 65

abbrev content : List ℕ
content = replicate 150 65

abbrev frame : ℕ → LongMessageFrame
frame i = segment 7 2 128 content i

abbrev merger : LongMessageMerger
merger = record { pending_frames = []; ttl = 300; last_cleanup = 10 }

abbrev arrivals : List (ℕ × LongMessageFrame)
arrivals = (20, frame 1) ∷ (25, frame 0) ∷ []

reversed : Perm (arrived arrivals) (split generator content binary).1
unfolding split split_with segments next_reference_id
reversed = Perm.swap (frame 0) (frame 1) []

-- Two segments that arrive in the other order.
add_frames-split_example : (add_frames merger sender arrivals).1 ≡ outcomes 2 content
unfolding next_reference_id lookup
add_frames-split_example =
    add_frames-split merger sender generator content binary 10 arrivals (omega arith) (omega arith)
      reversed refl (omega arith)

payloads-split_example : payloads (split generator content binary).1 ≡ content
unfolding next_reference_id
payloads-split_example = payloads-split generator content binary (omega arith) (omega arith)

split_bounded_example :
    All (λ f. length f.content ≤ max_per_segment binary) (split generator content binary).1
split_bounded_example = split_bounded generator content binary

split_truncates_example :
    length (payloads (split generator (replicate 15556 letter) ucs2).1)
    < length (replicate 15556 letter)
unfolding next_reference_id
split_truncates_example =
    split_truncates generator (replicate 15556 letter) ucs2
      (omega (arith, length-replicate 15556 letter)) (omega (arith, length-replicate 15556 letter))

group_key_injective_example :
    (sender ≡ sender)
    × ((frame 0).reference_id ≡ (frame 1).reference_id)
    × ((frame 0).total_segments ≡ (frame 1).total_segments)
group_key_injective_example =
    group_key_injective sender sender (frame 0) (frame 1)
      (unfold segment group_key unique_id in refl)

abbrev history : List (ℕ × Call)
history =
    (20, adds sender (frame 1))
    ∷ (30, sets_ttl 100)
    ∷ (700, adds (sender ++ sender) (frame 1))
    ∷ (710, cleans)
    ∷ []

run_history_bounded_example :
    All
      (λ p. (is_complete p.1.bitmap ≡ false) × (last_time 10 history ≤ p.1.created_at + 2 * 300))
      (run_history (with_ttl 200 10) history).pending_frames
run_history_bounded_example =
    run_history_bounded 300 200 10 history (omega arith) (omega arith, tt)
      (omega arith, (omega arith, (omega arith, (omega arith, tt))))

abbrev header : UdhHeader
header = new_16bit 513 2 1

extract_udh-to_bytes_example : extract_udh (6 ∷ (to_bytes header ++ (65 ∷ []))) ≡ some (header, 7)
unfolding to_bytes new_16bit
extract_udh-to_bytes_example = extract_udh-to_bytes header (65 ∷ []) (long 513 2 1 (omega arith))

from_bytes-to_bytes_fails_example : (e : RsmsError) × (from_bytes (to_bytes header) ≡ err e)
from_bytes-to_bytes_fails_example = from_bytes-to_bytes_fails header

abbrev wrapping : ReferenceIdGenerator
wrapping = record { counter = 18446744073709551615 }

advance-reference_distinct_example :
    (next_reference_id (advance 0 wrapping)).1 ≢ (next_reference_id (advance 65535 wrapping)).1
advance-reference_distinct_example =
    advance-reference_distinct wrapping 0 65535 (omega arith) (omega arith) (omega arith)
