-- ===== src/Stream/Tests.antt =====
-- The stream theorems at concrete frames.
use rsms.Common.{ℕ, ◌≡◌, refl, List, [], ◌∷◌, ◌++◌, concat, All, ok, arith}
use rsms.Common.Bytes.{from_u32_be}
use rsms.Core.Protocol.{cmpp}
use rsms.Stream.{decode_frames, decode_fuel, next, accepts, total_length, new, feed}
use rsms.Stream.Steps.{IsFrame}
use rsms.Stream.Chunks.{Agree, decode_frames-exact, feed-new, decode_frames-concat}

-- Two active tests, 1 and 2, and the first bytes of a third frame.
abbrev one : List ℕ
one = 0 ∷ 0 ∷ 0 ∷ 12 ∷ 0 ∷ 0 ∷ 0 ∷ 8 ∷ 0 ∷ 0 ∷ 0 ∷ 1 ∷ []

abbrev two : List ℕ
two = 0 ∷ 0 ∷ 0 ∷ 12 ∷ 0 ∷ 0 ∷ 0 ∷ 8 ∷ 0 ∷ 0 ∷ 0 ∷ 2 ∷ []

abbrev part : List ℕ
part = 0 ∷ 0 ∷ 0 ∷ 12 ∷ 0 ∷ []

both_frames : All (IsFrame cmpp) (one ∷ two ∷ [])
unfolding accepts total_length from_u32_be
both_frames = (
  record { header = omega arith; accepted = refl; whole = refl },
  (record { header = omega arith; accepted = refl; whole = refl }, tt),
)

stays : decode_frames cmpp part ≡ (part, ok [])
unfolding decode_frames decode_fuel next accepts total_length from_u32_be
stays = refl

decode_frames-concat_example :
    decode_frames cmpp (concat (one ∷ two ∷ []) ++ part) ≡ (part, ok (one ∷ two ∷ []))
decode_frames-concat_example = decode_frames-concat cmpp (one ∷ two ∷ []) part both_frames stays

decode_frames-exact_example :
    All (IsFrame cmpp) (one ∷ two ∷ [])
    × (concat (one ∷ two ∷ []) ++ part ≡ one ++ (two ++ part))
    × (decode_frames cmpp part ≡ (part, ok []))
unfolding decode_frames decode_fuel next accepts total_length from_u32_be
decode_frames-exact_example =
    decode_frames-exact cmpp (one ++ (two ++ part)) part (one ∷ two ∷ []) refl

abbrev chunks : List (List ℕ)
chunks = (0 ∷ 0 ∷ []) ∷ (0 ∷ 12 ∷ 0 ∷ 0 ∷ 0 ∷ 8 ∷ 0 ∷ 0 ∷ 0 ∷ 1 ∷ 0 ∷ []) ∷ (0 ∷ 0 ∷ []) ∷ []

feed-new_example : Agree (feed cmpp new chunks) (decode_frames cmpp (concat chunks))
feed-new_example = feed-new cmpp chunks
