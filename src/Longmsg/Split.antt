-- ===== src/Longmsg/Split.antt =====
-- crates/rsms-longmsg/src/split.rs: cutting a message into segments that carry a header.

pub mod Segments
pub mod Reassembly
use rsms.Common.{
  ℕ, zero, suc, ◌+◌, ◌-◌, ◌*◌, ◌/◌, ◌%◌, min, ◌≡◌, Bool, true, false, Option, none, some, List, [],
  ◌∷◌, ◌++◌, ltb, leb, if◌then◌else◌, length, take, drop, map,
}
use rsms.Longmsg.Frame.{
  UdhHeader, LongMessageFrame, new_8bit, new_16bit, high_byte, low_byte, udh_header_8bit_len,
  udh_header_16bit_len,
}
use rsms.Longmsg.ReferenceId.{ReferenceIdGenerator, next_reference_id}

abbrev pub gsm_7bit_multi_max : ℕ
gsm_7bit_multi_max = 153

abbrev pub ucs2_multi_max : ℕ
ucs2_multi_max = 67

pub data SmsAlphabet : Type 0 where
  gsm7 ascii ucs2 binary : SmsAlphabet

abbrev pub max_per_segment : SmsAlphabet → ℕ
max_per_segment gsm7 = gsm_7bit_multi_max
max_per_segment ascii = gsm_7bit_multi_max
max_per_segment ucs2 = ucs2_multi_max
max_per_segment binary = 134

unfoldable pub build_8bit_udh_frame : ℕ → ℕ → ℕ → List ℕ → UdhHeader × List ℕ
build_8bit_udh_frame ref total seg content =
    (new_8bit ref total seg, 0x05 ∷ 0x00 ∷ 0x03 ∷ ref ∷ total ∷ seg ∷ content)

unfoldable pub build_16bit_udh_frame : ℕ → ℕ → ℕ → List ℕ → UdhHeader × List ℕ
build_16bit_udh_frame ref total seg content = (
  new_16bit ref total seg,
  0x06 ∷ 0x08 ∷ 0x04 ∷ high_byte ref ∷ low_byte ref ∷ total ∷ seg ∷ content,
)

-- The width of the header depends on the reference.
abbrev pub udh_len : ℕ → ℕ
udh_len ref = if ltb 255 ref then udh_header_16bit_len else udh_header_8bit_len

abbrev pub payload_per_segment : ℕ → SmsAlphabet → ℕ
payload_per_segment ref alphabet = max_per_segment alphabet - udh_len ref

-- `content[start..end]` with `end = (start + payload).min(content.len())`
abbrev pub slice : List ℕ → ℕ → ℕ → List ℕ
slice content start payload =
    take (min (start + payload) (length content) - start) (drop start content)

-- Round `i` of the loop.
unfoldable pub segment : ℕ → ℕ → ℕ → List ℕ → ℕ → LongMessageFrame
unfolding build_8bit_udh_frame build_16bit_udh_frame
segment ref total payload content i =
    let body = slice content (i * payload) payload in
    let built =
      (if ltb 255 ref
        then build_16bit_udh_frame ref total (i + 1) body
        else build_8bit_udh_frame (low_byte ref) total (i + 1) body) in
    record {
      reference_id = ref;
      total_segments = total;
      segment_number = i + 1;
      content = built.1;
      has_udhi = true;
      udh = some built.0;
    }

-- `for i in 0..total`, with the rounds left and the number of the next one.
unfoldable pub segments : ℕ → ℕ → ℕ → List ℕ → ℕ → ℕ → List LongMessageFrame
segments ref total payload content zero i = []
segments ref total payload content (suc k) i =
    segment ref total payload content i ∷ segments ref total payload content k (i + 1)

-- `content.len().div_ceil(payload) as u8`
abbrev pub segment_count : ℕ → ℕ → ℕ
segment_count len payload = (len + payload - 1) / payload % 256

-- A message that needs no cutting.
abbrev pub single_frame : List ℕ → LongMessageFrame
single_frame content = record {
  reference_id = 0;
  total_segments = 1;
  segment_number = 1;
  content = content;
  has_udhi = false;
  udh = none;
}

-- The frames of the message under the reference that the generator gave.
unfoldable pub split_with : ℕ → List ℕ → SmsAlphabet → List LongMessageFrame
unfolding segments
split_with ref content alphabet =
    let payload = payload_per_segment ref alphabet in
    let total = segment_count (length content) payload in segments ref total payload content total 0

unfoldable pub split :
    ReferenceIdGenerator → List ℕ → SmsAlphabet → ReferenceIdGenerator × List LongMessageFrame
unfolding split_with next_reference_id
split g content alphabet =
    if leb (length content) (max_per_segment alphabet)
    then (g, single_frame content ∷ [])
    else ((next_reference_id g).0, split_with (next_reference_id g).1 content alphabet)

unfoldable pub split_into_pdu :
    ReferenceIdGenerator → List ℕ → SmsAlphabet → ReferenceIdGenerator × List (List ℕ)
unfolding split
split_into_pdu g content alphabet =
    let (g', frames) = split g content alphabet in (g', map (λ f. f.content) frames)
