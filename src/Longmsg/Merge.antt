-- ===== src/Longmsg/Merge.antt =====
-- crates/rsms-longmsg/src/merge.rs: collecting the segments of long messages by sender and reference.
-- Time is an argument, read once in a call. A `HashMap` is an association list.
pub mod Sort
pub mod Key
pub mod Groups
pub mod History
pub mod Collect
pub mod AnyOrder
pub mod RoundTrip
use rsms.Common.{
  ℕ, ◌-◌, ◌+◌, ◌≡◌, Bool, true, false, not, ◌&&◌, Option, none, some, List, [], ◌∷◌, ◌++◌, ltb, leb,
  ◌==◌, if◌then◌else◌, length, concat, map, Result, ok, err,
}
use rsms.Common.Classes.{bytes_eq}
use rsms.Common.Dict.{lookup, insert, remove, retain}
use rsms.Core.Error.{RsmsError}
use rsms.Longmsg.Frame.{LongMessageFrame, unique_id, strip_udh}
use rsms.Longmsg.Bitmap.{SegmentBitmap, new as new_bitmap, is_received, mark_received, is_complete}

pub record PendingEntry : Type 0 where
  pub frames : List LongMessageFrame
  pub bitmap : SegmentBitmap
  pub created_at : ℕ

pub record LongMessageMerger : Type 0 where
  pub pending_frames : List (List ℕ × PendingEntry)
  pub ttl : ℕ
  pub last_cleanup : ℕ

unfoldable pub new_entry : ℕ → ℕ → PendingEntry
unfolding new_bitmap
new_entry total now = record { frames = []; bitmap = new_bitmap total; created_at = now }

unfoldable pub is_expired : ℕ → ℕ → PendingEntry → Bool
is_expired now ttl e = ltb ttl (now - e.created_at)

-- `PendingEntry::add_frame`: the entry, and whether the segment is new.
unfoldable pub entry_add_frame : PendingEntry → LongMessageFrame → PendingEntry × Bool
unfolding is_received mark_received
entry_add_frame e f = if is_received e.bitmap f.segment_number then (e, false) else (
  record e { frames = e.frames ++ (f ∷ []); bitmap = (mark_received e.bitmap f.segment_number).0 },
  true,
)

unfoldable pub with_ttl : ℕ → ℕ → LongMessageMerger
with_ttl ttl now = record { pending_frames = []; ttl = ttl; last_cleanup = now }

unfoldable pub cleanup_expired : LongMessageMerger → ℕ → LongMessageMerger
unfolding is_expired
cleanup_expired m now = record m {
  pending_frames = retain (λ (k, e). not (is_expired now m.ttl e)) m.pending_frames;
  last_cleanup = now;
}

-- `format!("{sender}\u{1f}{}", frame.unique_id())`
unfoldable pub group_key : List ℕ → LongMessageFrame → List ℕ
group_key sender f = sender ++ (0x1f ∷ unique_id f)

-- `sort_by_key(|f| f.segment_number)`, a stable sort.
unfoldable pub insert_by_number : LongMessageFrame → List LongMessageFrame → List LongMessageFrame
insert_by_number f [] = f ∷ []
insert_by_number f (g ∷ gs) =
    if leb f.segment_number g.segment_number then f ∷ g ∷ gs else g ∷ insert_by_number f gs

unfoldable pub sort_by_number : List LongMessageFrame → List LongMessageFrame
unfolding insert_by_number
sort_by_number [] = []
sort_by_number (f ∷ fs) = insert_by_number f (sort_by_number fs)

-- The payloads in the order of the segment numbers.
unfoldable pub assemble : List LongMessageFrame → List ℕ
assemble fs = concat (map (λ f. strip_udh f.content) (sort_by_number fs))

abbrev pub Outcome : Type 0
Outcome = Result RsmsError (Option (List ℕ))

-- The lazy cleanup at the start of `add_frame`.
unfoldable pub lazy_cleanup : LongMessageMerger → ℕ → LongMessageMerger
lazy_cleanup m now = if leb m.ttl (now - m.last_cleanup) then cleanup_expired m now else m

-- `entry(key).or_insert_with(…)`
unfoldable pub entry_or_new : LongMessageMerger → List ℕ → ℕ → ℕ → PendingEntry
entry_or_new m key total now = elim (lookup key m.pending_frames) [
  | none ↦ new_entry total now
  | some e ↦ e
]

-- What `add_frame` does with the entry that holds the frame.
unfoldable pub conclude : LongMessageMerger → List ℕ → PendingEntry → LongMessageMerger × Outcome
conclude m key e =
    if is_complete e.bitmap
    then (record m { pending_frames = remove key m.pending_frames }, ok (some (assemble e.frames)))
    else (record m { pending_frames = insert key e m.pending_frames }, ok none)

unfoldable pub place :
    LongMessageMerger → ℕ → List ℕ → LongMessageFrame → LongMessageMerger × Outcome
unfolding entry_or_new conclude
place m now key f =
    let e = entry_or_new m key f.total_segments now in
    let added = entry_add_frame e f in
    if added.1
    then conclude m key added.0
    else (record m { pending_frames = insert key e m.pending_frames }, ok none)

unfoldable pub add_frame :
    LongMessageMerger → ℕ → List ℕ → LongMessageFrame → LongMessageMerger × Outcome
unfolding lazy_cleanup place
add_frame m now sender f =
    let m' = lazy_cleanup m now in
    if (f.total_segments == 1) && not f.has_udhi
    then (m', ok (some f.content))
    else place m' now (group_key sender f) f

unfoldable pub pending_count : LongMessageMerger → ℕ
pending_count m = length m.pending_frames

unfoldable pub clear : LongMessageMerger → LongMessageMerger
clear m = record m { pending_frames = [] }

unfoldable pub set_ttl : LongMessageMerger → ℕ → LongMessageMerger
set_ttl m ttl = record m { ttl = ttl }

-- The calls for a list of arrivals from one sender, with what each returned.
unfoldable pub add_frames :
    LongMessageMerger → List ℕ → List (ℕ × LongMessageFrame) → LongMessageMerger × List Outcome
add_frames m sender [] = (m, [])
add_frames m sender ((now, f) ∷ rest) =
    let (m', out) = add_frame m now sender f in
    let (m'', outs) = add_frames m' sender rest in (m'', out ∷ outs)
