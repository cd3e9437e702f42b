-- ===== src/Longmsg/Merge/Sort.antt =====
-- The sort of `merge`: in which order the frames came in makes no difference to it.
use mathlib.Core.List.{
  Mem, Nodup, Nodup-cons, Nodup-nil, Perm, Permᴰ, not-mem-nil, mem-cons, mem-cons_self,
}
use mathlib.Core.List.Perm
use mathlib.Core.Logic.{∥∥₁_elim}
use mathlib.Core.Logic.Or
use mathlib.Core.HLevel.{hedberg}
use native.Mathlib.Bridge.{le_prop}
use native.Mathlib.Nat.{le_trans}
use rsms.Longmsg.Split.Segments.{Numbered}
use native.Mathlib.Decide.{ℕ_discrete}
use rsms.Common.{ℕ, ◌+◌, ◌<◌, ◌≡◌, ◌≢◌, refl, ◌∙◌, List, [], ◌∷◌, map, arith}
use rsms.Longmsg.Frame.{LongMessageFrame}
use rsms.Longmsg.Merge.{insert_by_number, sort_by_number}

abbrev pub number : LongMessageFrame → ℕ
number f = f.segment_number

-- Two frames of different numbers may be inserted in either order.
insert_comm :
    (f g : LongMessageFrame) (hs : List LongMessageFrame)
    → number f ≢ number g
    → insert_by_number f (insert_by_number g hs) ≡ insert_by_number g (insert_by_number f hs)
unfolding insert_by_number
insert_comm f g [] ne = ground arith
insert_comm f g (h ∷ hs) ne = ground (arith, insert_comm f g hs ne)

pub Frame-discrete : Discrete LongMessageFrame
Frame-discrete = hlevel ℕ_discrete

sort-permᴰ :
    {fs gs : List LongMessageFrame}
    → Permᴰ fs gs
    → Nodup (map number fs)
    → sort_by_number fs ≡ sort_by_number gs
unfolding sort_by_number
sort-permᴰ Permᴰ.nil d = refl
sort-permᴰ (Permᴰ.cons {a = a} {b = b} e p) d = rw (e, sort-permᴰ p (Nodup-cons.0 d).1)
sort-permᴰ (Permᴰ.swap {a = a} {b = b} {a' = a'} {b' = b'} {l = l} e e') d =
    rw (← e, ← e')
      (insert_comm a b (sort_by_number l) (λ q. (Nodup-cons.0 d).0 (rw q mem-cons_self)))
sort-permᴰ (Permᴰ.trans p q) d =
    sort-permᴰ p d ∙ sort-permᴰ q (Perm.nodup (Perm.map number ∣ p ∣₁) d)

-- Lists of frames with distinct numbers are sorted alike if they hold the same frames.
pub sort-perm :
    {fs gs : List LongMessageFrame}
    → Perm fs gs
    → Nodup (map number fs)
    → sort_by_number fs ≡ sort_by_number gs
sort-perm {fs} {gs} p d =
    ∥∥₁_elim p (hedberg (hlevel ℕ_discrete) (sort_by_number fs) (sort_by_number gs))
      (λ q. sort-permᴰ q d)

pub Numbered-above :
    (ref total i : ℕ) {x : ℕ} (fs : List LongMessageFrame)
    → Numbered ref total i fs
    → Mem x (map number fs)
    → i < x
Numbered-above ref total i [] h m = absurd (not-mem-nil m)
Numbered-above ref total i (f ∷ fs) (_, _, e, h) m =
    Or.elim le_prop (mem-cons.0 m) (λ q. omega arith)
      (λ t. le_trans (omega arith) (Numbered-above ref total (i + 1) fs h t))

pub Numbered-Nodup :
    (ref total i : ℕ) (fs : List LongMessageFrame) → Numbered ref total i fs → Nodup (map number fs)
Numbered-Nodup ref total i [] h = Nodup-nil
Numbered-Nodup ref total i (f ∷ fs) (_, _, e, h) = Nodup-cons.1 (
  λ m. let up = Numbered-above ref total (i + 1) fs h m in omega arith,
  Numbered-Nodup ref total (i + 1) fs h,
)

insert_first :
    (ref total i : ℕ) (f : LongMessageFrame) (fs : List LongMessageFrame)
    → number f ≡ i
    → Numbered ref total i fs
    → insert_by_number f fs ≡ f ∷ fs
unfolding insert_by_number
insert_first ref total i f [] e h = refl
insert_first ref total i f (g ∷ gs) e (_, _, n, h) = ground arith

-- Frames that are numbered upwards are sorted already.
pub sort-Numbered :
    (ref total i : ℕ) (fs : List LongMessageFrame)
    → Numbered ref total i fs
    → sort_by_number fs ≡ fs
unfolding sort_by_number
sort-Numbered ref total i [] h = refl
sort-Numbered ref total i (f ∷ fs) (_, _, e, h) =
    rw (sort-Numbered ref total (i + 1) fs h) (insert_first ref total (i + 1) f fs e h)
