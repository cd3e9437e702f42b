-- ===== src/Stream.antt =====
-- The frame.rs of the four codecs (crates/rsms-codec-cmpp, -smgp, -smpp and -sgip): cutting a byte
-- stream into frames by the length in their first four bytes. The files differ in the lengths that
-- they accept and in the text of their error, which is the refused length here.
-- The loop runs on fuel, the length of the buffer: each round takes at least a header from it.
pub mod Steps
pub mod Chunks
mod Tests
use rsms.Common.{
  ℕ, zero, suc, ◌+◌, ◌≡◌, Bool, true, false, ◌&&◌, not, List, [], ◌∷◌, ◌++◌, ltb, leb,
  if◌then◌else◌, length, get_or, take, drop, Result, ok, err, ◌>>=◌,
}
use rsms.Common.Bytes.{from_u32_be}
use rsms.Core.Protocol.{Protocol, cmpp, smgp, smpp, sgip}

-- `RsmsError::Codec` with the text of this length.
pub data FrameError : Type 0 where
  invalid_total_length : ℕ → FrameError

-- The lengths that a protocol accepts: CMPP sets no upper bound.
unfoldable pub accepts : Protocol → ℕ → Bool
accepts cmpp total = leb 12 total
accepts smgp total = leb 12 total && leb total 100000
accepts smpp total = leb 16 total && leb total 100000
accepts sgip total = leb 20 total && leb total 100000

-- `u32::from_be_bytes(buf[0..4])`, of a buffer with at least four bytes.
unfoldable pub total_length : List ℕ → ℕ
unfolding from_u32_be
total_length b = from_u32_be (get_or b 0 0) (get_or b 1 0) (get_or b 2 0) (get_or b 3 0)

-- What one round of the loop finds.
pub data Next : Type 0 where
  waits : Next
  refuses : ℕ → Next
  cuts : List ℕ → List ℕ → Next

unfoldable pub next : Protocol → List ℕ → Next
unfolding total_length accepts
next p b =
    let total = total_length b in
    if ltb (length b) 4
    then waits
    else if not (accepts p total)
    then refuses total
    else if ltb (length b) total
    then waits
    else cuts (take total b) (drop total b)

abbrev pub Frames : Type 0
Frames = Result FrameError (List (List ℕ))

-- The buffer that is left, and the frames or the error. An error drops the frames of this call.
unfoldable pub decode_fuel : ℕ → Protocol → List ℕ → List ℕ × Frames
unfolding next
decode_fuel zero p b = (b, ok [])
decode_fuel (suc n) p b = elim (next p b) [
  | waits ↦ (b, ok [])
  | refuses total ↦ (b, err (invalid_total_length total))
  | cuts f rest ↦ let (b', r) = decode_fuel n p rest in (b', r >>= λ fs. ok (f ∷ fs))
]

unfoldable pub decode_frames : Protocol → List ℕ → List ℕ × Frames
decode_frames p b = decode_fuel (length b) p b

-- `decode_frames` of each codec.
unfoldable pub cmpp_decode_frames : List ℕ → List ℕ × Frames
cmpp_decode_frames b = decode_frames cmpp b

unfoldable pub smgp_decode_frames : List ℕ → List ℕ × Frames
smgp_decode_frames b = decode_frames smgp b

unfoldable pub smpp_decode_frames : List ℕ → List ℕ × Frames
smpp_decode_frames b = decode_frames smpp b

unfoldable pub sgip_decode_frames : List ℕ → List ℕ × Frames
sgip_decode_frames b = decode_frames sgip b

-- `FrameDecoder`, whose state is the buffer.
pub record FrameDecoder : Type 0 where
  pub buf : List ℕ

unfoldable pub new : FrameDecoder
new = record { buf = [] }

unfoldable pub decode_chunk : Protocol → FrameDecoder → List ℕ → FrameDecoder × Frames
decode_chunk p d chunk = let (b, r) = decode_frames p (d.buf ++ chunk) in (record { buf = b }, r)

-- A caller that gives chunk after chunk to the decoder, collects the frames, and stops at an error.
unfoldable pub feed : Protocol → FrameDecoder → List (List ℕ) → FrameDecoder × Frames
feed p d [] = (d, ok [])
feed p d (c ∷ cs) =
    let (d', r) = decode_chunk p d c in
    elim r [
      | err e ↦ (d', err e)
      | ok fs ↦ let (d'', r') = feed p d' cs in (d'', r' >>= λ gs. ok (fs ++ gs))
    ]
