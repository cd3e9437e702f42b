-- ===== src/Longmsg/Bitmap.antt =====
-- crates/rsms-longmsg/src/segment_bitmap.rs: which segments of a message have come in.
use rsms.Common.{ℕ, Bool, true, false, ◌||◌, List, [], ◌∷◌, leb, ◌==◌, if◌then◌else◌, length}

-- The set as the list of its members, the newest first.
pub record SegmentBitmap : Type 0 where
  pub total_segments : ℕ
  pub received : List ℕ

unfoldable pub member : ℕ → List ℕ → Bool
member s [] = false
member s (x ∷ xs) = x == s || member s xs

unfoldable pub new : ℕ → SegmentBitmap
new total = record { total_segments = total; received = [] }

unfoldable pub is_received : SegmentBitmap → ℕ → Bool
is_received b s = member s b.received

-- The new set, and whether the segment is new.
unfoldable pub mark_received : SegmentBitmap → ℕ → SegmentBitmap × Bool
mark_received b s =
    if member s b.received then (b, false) else (record b { received = s ∷ b.received }, true)

unfoldable pub is_complete : SegmentBitmap → Bool
is_complete b = leb b.total_segments (length b.received)

unfoldable pub received_count : SegmentBitmap → ℕ
received_count b = length b.received
