-- ===== src/Longmsg/Merge/AnyOrder.antt =====
-- A long message comes back whole, in whatever order its segments arrive.
use mathlib.Core.List.{
  reverse, map-append, Nodup, Nodup-cons, perm_middle, mem-append_left, mem-reverse,
}
use mathlib.Core.List.Perm
use rsms.Common.{
  ℕ, zero, suc, ◌+◌, ◌≤◌, ◌<◌, ◌≡◌, refl, ap, ap₂, ◌∙◌, true, false, not, none, some, List, [], ◌∷◌,
  ◌++◌, map, ◌==◌, ◌&&◌, length, length-append, All, Bool-cases, inl, inr, ok, arith, append_assoc,
}
use rsms.Common.Classes.{bytes_eq, list_beq_refl, nat_eq}
use rsms.Common.Dict.{lookup, lookup-insert}
use rsms.Longmsg.Frame.{LongMessageFrame}
use rsms.Longmsg.Bitmap.{member}
use rsms.Longmsg.Merge.{
  LongMessageMerger, Outcome, lazy_cleanup, conclude, place, add_frame, add_frames, group_key,
  assemble,
}
use rsms.Longmsg.Merge.Sort.{number}
use rsms.Longmsg.Merge.Collect.{
  entry_of, member→Mem, lazy_cleanup-lookup, lazy_cleanup-missing, lazy_cleanup-ttl, conclude_open,
  conclude_done, place_next, place_first,
}

abbrev pub arrived : List (ℕ × LongMessageFrame) → List LongMessageFrame
arrived = map (λ p. p.1)

-- What `n` calls return of which the last completes the group.
abbrev pub outcomes : ℕ → List ℕ → List Outcome
outcomes zero content = []
outcomes (suc zero) content = ok (some content) ∷ []
outcomes (suc (suc n)) content = ok none ∷ outcomes (suc n) content

number_new :
    (xs zs : List LongMessageFrame) (f : LongMessageFrame)
    → Nodup (map number (xs ++ (f ∷ zs)))
    → member (number f) (reverse (map number xs)) ≡ false
number_new xs zs f d = elim (Bool-cases (member (number f) (reverse (map number xs)))) [
  | inl old ↦
      let apart =
        Nodup-cons.0
          (Perm.nodup (perm_middle (map number xs) (map number zs)) (rw map-append at d)) in
      absurd (apart.0 (mem-append_left (map number zs) (mem-reverse.0 (member→Mem _ _ old))))
  | inr new ↦ new
]

-- A segment of the group of `key`.
abbrev pub IsPart : List ℕ → List ℕ → ℕ → LongMessageFrame → Type 0
IsPart sender key total f =
    (group_key sender f ≡ key) × (f.total_segments ≡ total) × (f.has_udhi ≡ true)

later :
    (t a b : ℕ) (ys : List (ℕ × LongMessageFrame))
    → a ≤ b
    → All (λ p. (t ≤ p.0) × (p.0 ≤ a)) ys
    → All (λ p. p.0 ≤ b) ys
later t a b [] h w = tt
later t a b (y ∷ ys) h w = (omega arith, later t a b ys h w.1)

module _ (sender key : List ℕ) (total : ℕ) where
  add_frame_part :
      (m : LongMessageMerger) (now : ℕ) (f : LongMessageFrame)
      → IsPart sender key total f
      → add_frame m now sender f ≡ place (lazy_cleanup m now) now key f
  unfolding add_frame
  add_frame_part m now f (same, _, udh) =
      let part : ((f.total_segments == 1) && not f.has_udhi) ≡ false = ground arith in
      rw (part, same)

  lookup_placed :
      (m : LongMessageMerger) (t : ℕ) (zs : List LongMessageFrame)
      → length zs < total
      → lookup key (conclude m key (entry_of total t zs)).0.pending_frames
        ≡ some (entry_of total t zs)
  lookup_placed m t zs short = rw (
    conclude_open m key total t zs short,
    lookup-insert key key (entry_of total t zs) m.pending_frames,
    list_beq_refl nat_eq key,
  )

  conclude_waits :
      (m : LongMessageMerger) (t : ℕ) (zs : List LongMessageFrame)
      → length zs < total
      → ((conclude m key (entry_of total t zs)).1 ≡ ok none)
        × ((conclude m key (entry_of total t zs)).0.ttl ≡ m.ttl)
  conclude_waits m t zs short =
      let e = conclude_open m key total t zs short in (ap (λ r. r.1) e, ap (λ r. r.0.ttl) e)

  -- A group that holds the frames `xs` and gets the rest.
  pub finish :
      (m : LongMessageMerger) (t ttl : ℕ) (xs : List LongMessageFrame)
      (ys : List (ℕ × LongMessageFrame))
      → m.ttl ≡ ttl
      → lookup key m.pending_frames ≡ some (entry_of total t xs)
      → All (λ p. p.0 ≤ t + ttl) ys
      → All (IsPart sender key total) (arrived ys)
      → Nodup (map number (xs ++ arrived ys))
      → length xs + length ys ≡ total
      → (add_frames m sender ys).1 ≡ outcomes (length ys) (assemble (xs ++ arrived ys))
  unfolding add_frames
  finish m t ttl xs [] same found within parts distinct size = refl
  finish m t ttl xs ((now, f) ∷ []) same found within parts distinct size = rw (
    add_frame_part m now f parts.0,
    place_next (lazy_cleanup m now) key total t now f xs
        (lazy_cleanup-lookup m now key _ found (rw same within.0)) (number_new xs [] f distinct),
    conclude_done (lazy_cleanup m now) key total t (xs ++ (f ∷ []))
        (omega (arith, length-append xs (f ∷ []))),
  )
  finish m t ttl xs ((now, f) ∷ (y ∷ ys)) same found within parts distinct size =
      let lm = lazy_cleanup m now in
      let zs : List LongMessageFrame = xs ++ (f ∷ []) in
      let short : length zs < total = omega (arith, length-append xs (f ∷ [])) in
      let (waits, ttl') = conclude_waits lm t zs short in
      let shift : zs ++ arrived (y ∷ ys) ≡ xs ++ (f ∷ arrived (y ∷ ys)) =
        append_assoc xs (f ∷ []) (arrived (y ∷ ys)) in
      let rest =
        finish (conclude lm key (entry_of total t zs)).0 t ttl zs (y ∷ ys)
          (ttl' ∙ lazy_cleanup-ttl m now ∙ same) (lookup_placed lm t zs short) within.1 parts.1
          (rw shift distinct) (omega (arith, length-append xs (f ∷ []))) in
      rw
        (
          add_frame_part m now f parts.0,
          place_next lm key total t now f xs
              (lazy_cleanup-lookup m now key _ found (rw same within.0))
              (number_new xs (arrived (y ∷ ys)) f distinct),
        )
        (ap₂ (λ a b. a ∷ b) waits (rest ∙ ap (λ z. outcomes (length (y ∷ ys)) (assemble z)) shift))

  opened :
      (m : LongMessageMerger) (now : ℕ) (f : LongMessageFrame)
      → lookup key m.pending_frames ≡ none
      → f.total_segments ≡ total
      → place m now key f ≡ conclude m key (entry_of total now (f ∷ []))
  opened m now f missing e =
      place_first m key total now now f missing
      ∙ ap (λ (n : ℕ). conclude m key (entry_of n now (f ∷ []))) e

  -- A group that is not there yet.
  pub from_first :
      (m : LongMessageMerger) (t : ℕ) (ys : List (ℕ × LongMessageFrame))
      → lookup key m.pending_frames ≡ none
      → All (λ p. (t ≤ p.0) × (p.0 ≤ t + m.ttl)) ys
      → All (IsPart sender key total) (arrived ys)
      → Nodup (map number (arrived ys))
      → length ys ≡ total
      → (add_frames m sender ys).1 ≡ outcomes (length ys) (assemble (arrived ys))
  unfolding add_frames
  from_first m t [] missing within parts distinct size = refl
  from_first m t ((now, f) ∷ []) missing within parts distinct size = rw (
    add_frame_part m now f parts.0,
    opened (lazy_cleanup m now) now f (lazy_cleanup-missing m now key missing) parts.0.1,
    conclude_done (lazy_cleanup m now) key total now (f ∷ []) (omega arith),
  )
  from_first m t ((now, f) ∷ (y ∷ ys)) missing within parts distinct size =
      let lm = lazy_cleanup m now in
      let zs : List LongMessageFrame = f ∷ [] in
      let short : length zs < total = omega arith in
      let (waits, ttl') = conclude_waits lm now zs short in
      let rest =
        finish (conclude lm key (entry_of total now zs)).0 now m.ttl zs (y ∷ ys)
          (ttl' ∙ lazy_cleanup-ttl m now) (lookup_placed lm now zs short)
          (later t (t + m.ttl) (now + m.ttl) (y ∷ ys) (omega arith) within.1) parts.1 distinct
          (omega arith) in
      rw
        (
          add_frame_part m now f parts.0,
          opened lm now f (lazy_cleanup-missing m now key missing) parts.0.1,
        )
        (ap₂ (λ a b. a ∷ b) waits rest)
