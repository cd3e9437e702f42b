-- ===== src/Longmsg/Merge/Groups.antt =====
-- The groups that a merger holds: incomplete, consistent with their bitmaps, and not older than
-- twice the time to live.
use rsms.Common.{
  ℕ, ◌+◌, ◌-◌, ◌≤◌, ◌≡◌, refl, ◌∙◌, true, false, not, List, [], ◌∷◌, leb, ◌==◌, ◌&&◌, length,
  length-append, All, Bool-cases, inl, inr, none, some, arith, Option-cases,
}
use rsms.Common.Classes.{bytes_eq}
use rsms.Common.Dict.{lookup, retain, All-insert, All-remove, All-lookup}
use rsms.Longmsg.Frame.{LongMessageFrame}
use rsms.Longmsg.Bitmap.{new, is_complete, member}
use rsms.Longmsg.Merge.{
  PendingEntry, LongMessageMerger, new_entry, is_expired, entry_add_frame, cleanup_expired,
  lazy_cleanup, entry_or_new, conclude, place, add_frame, group_key,
}

-- One entry of a merger that last cleaned up at `cleaned`, with times to live of `limit` at most.
pub record IsTidy (limit cleaned : ℕ) (e : PendingEntry) : Type 0 where
  pub open_group : is_complete e.bitmap ≡ false
  pub counted : length e.frames ≡ length e.bitmap.received
  pub young : cleaned ≤ e.created_at + limit

abbrev pub TidyEntries : ℕ → ℕ → List (List ℕ × PendingEntry) → Type 0
TidyEntries limit cleaned m = All (λ p. IsTidy limit cleaned p.1) m

abbrev pub AllTidy : ℕ → LongMessageMerger → Type 0
AllTidy limit m = TidyEntries limit m.last_cleanup m.pending_frames

-- What an expiry test keeps is young at the time of the test.
kept_young :
    (limit ttl cleaned now : ℕ) (e : PendingEntry)
    → ttl ≤ limit
    → IsTidy limit cleaned e
    → not (is_expired now ttl e) ≡ true
    → IsTidy limit now e
unfolding is_expired
kept_young limit ttl cleaned now e low t kept = record {
  open_group = t.open_group;
  counted = t.counted;
  young = ground arith;
}

retained :
    (limit ttl cleaned now : ℕ) (m : List (List ℕ × PendingEntry))
    → ttl ≤ limit
    → TidyEntries limit cleaned m
    → TidyEntries limit now (retain (λ (k, e). not (is_expired now ttl e)) m)
unfolding retain
retained limit ttl cleaned now [] low h = tt
retained limit ttl cleaned now ((k, e) ∷ m) low h = elim (Bool-cases (not (is_expired now ttl e))) [
  | inl kept ↦
      rw kept
        (kept_young limit ttl cleaned now e low h.0 kept, retained limit ttl cleaned now m low h.1)
  | inr gone ↦ rw gone (retained limit ttl cleaned now m low h.1)
]

pub cleanup_expired-AllTidy :
    (limit : ℕ) (m : LongMessageMerger) (now : ℕ)
    → m.ttl ≤ limit
    → AllTidy limit m
    → AllTidy limit (cleanup_expired m now)
unfolding cleanup_expired
cleanup_expired-AllTidy limit m now low h =
    retained limit m.ttl m.last_cleanup now m.pending_frames low h

-- After the lazy cleanup the merger is tidy, and its last cleanup is not a time to live ago.
lazy_cleanup-AllTidy :
    (limit : ℕ) (m : LongMessageMerger) (now : ℕ)
    → m.ttl ≤ limit
    → AllTidy limit m
    → m.last_cleanup ≤ now
    → AllTidy limit (lazy_cleanup m now)
      × ((lazy_cleanup m now).last_cleanup ≤ now)
      × (now ≤ (lazy_cleanup m now).last_cleanup + m.ttl)
      × ((lazy_cleanup m now).ttl ≡ m.ttl)
unfolding lazy_cleanup
lazy_cleanup-AllTidy limit m now low h mono = elim (Bool-cases (leb m.ttl (now - m.last_cleanup))) [
  | inl due ↦ rw due (
    cleanup_expired-AllTidy limit m now low h,
    unfold cleanup_expired in omega arith,
    unfold cleanup_expired in omega arith,
    unfold cleanup_expired in refl,
  )
  | inr fresh ↦ rw fresh (h, mono, ground arith, refl)
]

module _ (limit : ℕ) (m : LongMessageMerger) (key : List ℕ) (h : AllTidy limit m) where
  conclude-AllTidy :
      (e : PendingEntry)
      → length e.frames ≡ length e.bitmap.received
      → m.last_cleanup ≤ e.created_at + limit
      → AllTidy limit (conclude m key e).0
  unfolding conclude
  conclude-AllTidy e counts fresh = elim (Bool-cases (is_complete e.bitmap)) [
    | inl done ↦ rw done (All-remove (λ p. IsTidy limit m.last_cleanup p.1) key m.pending_frames h)
    | inr more ↦ rw more (
        All-insert (λ p. IsTidy limit m.last_cleanup p.1) key e m.pending_frames
          (record { open_group = more; counted = counts; young = fresh }) h)
  ]

  added_counted :
      (e : PendingEntry) (f : LongMessageFrame)
      → length e.frames ≡ length e.bitmap.received
      → length (entry_add_frame e f).0.frames ≡ length (entry_add_frame e f).0.bitmap.received
  unfolding entry_add_frame
  added_counted e f counts = ground (arith, length-append e.frames (f ∷ []))

  added_created :
      (e : PendingEntry) (f : LongMessageFrame) → (entry_add_frame e f).0.created_at ≡ e.created_at
  unfolding entry_add_frame
  added_created e f = ground arith

  -- What happens to an entry that is in the map, or that is new.
  placed_entry :
      (now : ℕ) (f : LongMessageFrame) (e : PendingEntry)
      → IsTidy limit m.last_cleanup e
      → lookup key m.pending_frames ≡ some e
      → AllTidy limit (place m now key f).0
  unfolding place
  placed_entry now f e t found =
      rw (found, entry_or_new)
        (elim (Bool-cases (entry_add_frame e f).1) [
          | inl new ↦ rw new (
              conclude-AllTidy (entry_add_frame e f).0 (added_counted e f t.counted)
                (rw (added_created e f) t.young))
          | inr again ↦
              rw again
                (All-insert (λ p. IsTidy limit m.last_cleanup p.1) key e m.pending_frames t h)
        ])

  new_added :
      (total now : ℕ) (f : LongMessageFrame) → (entry_add_frame (new_entry total now) f).1 ≡ true
  unfolding entry_add_frame new_entry member
  new_added total now f = refl

  placed_new :
      (now : ℕ) (f : LongMessageFrame)
      → m.last_cleanup ≤ now
      → lookup key m.pending_frames ≡ none
      → AllTidy limit (place m now key f).0
  unfolding place
  placed_new now f mono missing =
      let e = new_entry f.total_segments now in
      rw (missing, entry_or_new)
        (rw (new_added f.total_segments now f) (
          conclude-AllTidy (entry_add_frame e f).0 (added_counted e f (unfold new_entry in refl))
            (rw (added_created e f) (unfold new_entry in omega arith))))

  place-AllTidy :
      (now : ℕ) (f : LongMessageFrame) → m.last_cleanup ≤ now → AllTidy limit (place m now key f).0
  place-AllTidy now f mono = elim (Option-cases (lookup key m.pending_frames)) [
    | inl missing ↦ placed_new now f mono missing
    | inr (e, found) ↦
        placed_entry now f e
          (All-lookup (λ p. IsTidy limit m.last_cleanup p.1) key e m.pending_frames h found) found
  ]

place-config :
    (m : LongMessageMerger) (now : ℕ) (key : List ℕ) (f : LongMessageFrame)
    → ((place m now key f).0.ttl ≡ m.ttl) × ((place m now key f).0.last_cleanup ≡ m.last_cleanup)
unfolding place conclude
place-config m now key f = ground arith

-- Every frame that comes keeps the groups incomplete, counted by their bitmaps and young for the last cleanup,
-- keeps the time to live, and moves the last cleanup to within that time before the call.
pub add_frame-AllTidy :
    (limit : ℕ) (m : LongMessageMerger) (now : ℕ) (sender : List ℕ) (f : LongMessageFrame)
    → m.ttl ≤ limit
    → AllTidy limit m
    → m.last_cleanup ≤ now
    → let m' = (add_frame m now sender f).0 in
      AllTidy limit m'
      × (m'.ttl ≡ m.ttl)
      × (m'.last_cleanup ≤ now)
      × (now ≤ m'.last_cleanup + m.ttl)
unfolding add_frame
add_frame-AllTidy limit m now sender f low h mono =
    let (tidy, before, within, same) = lazy_cleanup-AllTidy limit m now low h mono in
    let (ttl, cleaned) = place-config (lazy_cleanup m now) now (group_key sender f) f in
    elim (Bool-cases ((f.total_segments == 1) && not f.has_udhi)) [
      | inl single ↦ rw single (tidy, same, before, within)
      | inr part ↦ rw part (
        place-AllTidy limit (lazy_cleanup m now) (group_key sender f) tidy now f before,
        ttl ∙ same,
        rw cleaned before,
        rw cleaned within,
      )
    ]
