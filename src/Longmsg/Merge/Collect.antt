-- ===== src/Longmsg/Merge/Collect.antt =====
-- One group from its first frame to its last, in whatever order they come.
use mathlib.Core.List.{reverse, reverse-append, map-append, Mem, mem-cons_self, mem-cons_of_mem}
use rsms.Common.{
  ℕ, ◌+◌, ◌-◌, ◌≤◌, ◌<◌, ◌≡◌, ◌∙◌, true, false, none, some, List, [], ◌∷◌, ◌++◌, map, leb, ◌==◌,
  length, length-map, length-reverse, Bool-cases, inl, inr, ok, arith,
}
use rsms.Common.Classes.{bytes_eq}
use rsms.Common.Dict.{lookup, insert, remove, lookup-retain-some, lookup-retain-none}
use rsms.Longmsg.Frame.{LongMessageFrame}
use rsms.Longmsg.Bitmap.{is_complete, is_received, mark_received, member, new}
use rsms.Longmsg.Merge.{
  PendingEntry, LongMessageMerger, new_entry, is_expired, entry_add_frame, cleanup_expired,
  lazy_cleanup, entry_or_new, conclude, place, assemble,
}
use rsms.Longmsg.Merge.Sort.{number}

-- The entry that has taken the frames `xs`, the first at time `t`.
abbrev pub entry_of : ℕ → ℕ → List LongMessageFrame → PendingEntry
entry_of total t xs = record {
  frames = xs;
  bitmap = record { total_segments = total; received = reverse (map number xs) };
  created_at = t;
}

pub member→Mem : (s : ℕ) (xs : List ℕ) → member s xs ≡ true → Mem s xs
unfolding member
member→Mem s [] h = cc
member→Mem s (x ∷ xs) h = elim (Bool-cases (x == s)) [
  | inl e ↦ let same : x ≡ s = ground arith in rw same mem-cons_self
  | inr e ↦ mem-cons_of_mem x (member→Mem s xs (rw e at h))
]

extended :
    (xs : List LongMessageFrame) (f : LongMessageFrame)
    → reverse (map number (xs ++ (f ∷ []))) ≡ number f ∷ reverse (map number xs)
extended xs f = rw (map-append, reverse-append)

length_received : (xs : List LongMessageFrame) → length (reverse (map number xs)) ≡ length xs
length_received xs = length-reverse (map number xs) ∙ length-map xs number

-- The lazy cleanup leaves a group alone whose first frame is not older than the time to live.
pub lazy_cleanup-lookup :
    (m : LongMessageMerger) (now : ℕ) (key : List ℕ) (e : PendingEntry)
    → lookup key m.pending_frames ≡ some e
    → now ≤ e.created_at + m.ttl
    → lookup key (lazy_cleanup m now).pending_frames ≡ some e
unfolding lazy_cleanup cleanup_expired is_expired
lazy_cleanup-lookup m now key e found young = elim (Bool-cases (leb m.ttl (now - m.last_cleanup))) [
  | inl due ↦ rw due (lookup-retain-some _ key e m.pending_frames found (ground arith))
  | inr fresh ↦ rw fresh found
]

pub lazy_cleanup-missing :
    (m : LongMessageMerger) (now : ℕ) (key : List ℕ)
    → lookup key m.pending_frames ≡ none
    → lookup key (lazy_cleanup m now).pending_frames ≡ none
unfolding lazy_cleanup cleanup_expired
lazy_cleanup-missing m now key missing = elim (Bool-cases (leb m.ttl (now - m.last_cleanup))) [
  | inl due ↦ rw due (lookup-retain-none _ key m.pending_frames missing)
  | inr fresh ↦ rw fresh missing
]

pub lazy_cleanup-ttl : (m : LongMessageMerger) (now : ℕ) → (lazy_cleanup m now).ttl ≡ m.ttl
unfolding lazy_cleanup cleanup_expired
lazy_cleanup-ttl m now = ground arith

module _ (m : LongMessageMerger) (key : List ℕ) (total t : ℕ) where
  pub conclude_open :
      (zs : List LongMessageFrame)
      → length zs < total
      → conclude m key (entry_of total t zs)
        ≡ (record m { pending_frames = insert key (entry_of total t zs) m.pending_frames }, ok none)
  unfolding conclude is_complete
  conclude_open zs short =
      let more : leb total (length (reverse (map number zs))) ≡ false =
        ground (arith, length_received zs) in
      rw more

  pub conclude_done :
      (zs : List LongMessageFrame)
      → total ≤ length zs
      → conclude m key (entry_of total t zs)
        ≡ (record m { pending_frames = remove key m.pending_frames }, ok (some (assemble zs)))
  unfolding conclude is_complete
  conclude_done zs full =
      let done : leb total (length (reverse (map number zs))) ≡ true =
        ground (arith, length_received zs) in
      rw done

  pub place_next :
      (now : ℕ) (f : LongMessageFrame) (xs : List LongMessageFrame)
      → lookup key m.pending_frames ≡ some (entry_of total t xs)
      → member (number f) (reverse (map number xs)) ≡ false
      → place m now key f ≡ conclude m key (entry_of total t (xs ++ (f ∷ [])))
  unfolding place entry_add_frame is_received mark_received
  place_next now f xs found new = rw (found, entry_or_new) (rw (new, extended xs f))

  pub place_first :
      (now : ℕ) (f : LongMessageFrame)
      → lookup key m.pending_frames ≡ none
      → place m now key f ≡ conclude m key (entry_of f.total_segments now (f ∷ []))
  unfolding place entry_add_frame is_received mark_received new_entry member
  place_first now f missing = rw (missing, entry_or_new)
