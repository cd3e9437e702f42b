-- ===== src/Cmpp/Header.antt =====
-- crates/rsms-codec-cmpp/src/header.rs: the header of a whole frame.
use rsms.Common.{
  ℕ, ◌+◌, ◌-◌, ◌≤◌, ◌<◌, ◌≡◌, ◌≢◌, refl, true, false, not, ◌⊎◌, inl, inr, List, [], ◌∷◌, ltb, ◌==◌,
  if◌then◌else◌, length, length-drop, get_or, drop, All, Bool-cases, Result, ok, err, arith,
}
use rsms.Common.Bytes.{from_u32_be}
use rsms.Core.Protocol.{cmpp}
use rsms.Stream.{decode_frames, total_length}
use rsms.Stream.Steps.{IsFrame, accepts_min}
use rsms.Stream.Chunks.{decode_frames-exact}

abbrev pub header_len : ℕ
header_len = 12

pub record CmppHeader : Type 0 where
  pub total_length : ℕ
  pub command_id : ℕ
  pub sequence_id : ℕ

-- The texts of `RsmsError::Codec`, with their numbers.
pub data ParseError : Type 0 where
  shorter_than_header total_length_underflow : ParseError
  total_length_mismatch : ℕ → ℕ → ParseError
  body_mismatch : ℕ → ℕ → ParseError

-- `u32::from_be_bytes(buf[i..i + 4])`, where the code has checked that it is in range.
unfoldable pub u32_at : List ℕ → ℕ → ℕ
unfolding from_u32_be
u32_at b i =
    from_u32_be (get_or b i 0) (get_or b (i + 1) 0) (get_or b (i + 2) 0) (get_or b (i + 3) 0)

unfoldable pub header_of : List ℕ → CmppHeader
unfolding u32_at
header_of b = record {
  total_length = u32_at b 0;
  command_id = u32_at b 4;
  sequence_id = u32_at b 8;
}

unfoldable pub parse_pdu : List ℕ → Result ParseError (CmppHeader × List ℕ)
unfolding header_of
parse_pdu b =
    let total = u32_at b 0 in
    let body = drop header_len b in
    if ltb (length b) header_len
    then err shorter_than_header
    else if not (total == length b)
    then err (total_length_mismatch total (length b))
    else if ltb total header_len
    then err total_length_underflow
    else if not (length body == total - header_len)
    then err (body_mismatch (length body) (total - header_len))
    else ok (header_of b, body)

-- A buffer is refused if it is shorter than a header, else if its length field is not its length,
-- and else accepted, with the three fields and everything behind the first twelve bytes: the code's
-- two further errors never occur.
pub parse_pdu_branches :
    (b : List ℕ)
    → ((length b < 12) × (parse_pdu b ≡ err shorter_than_header))
      ⊎ ((12 ≤ length b)
          × (u32_at b 0 ≢ length b)
          × (parse_pdu b ≡ err (total_length_mismatch (u32_at b 0) (length b))))
      ⊎ ((12 ≤ length b) × (u32_at b 0 ≡ length b) × (parse_pdu b ≡ ok (header_of b, drop 12 b)))
unfolding parse_pdu
parse_pdu_branches b = elim (Bool-cases (ltb (length b) 12)) [
  | inl short ↦ inl (ground arith, rw short refl)
  | inr long ↦ elim (Bool-cases (u32_at b 0 == length b)) [
    | inr apart ↦ inr (inl (ground arith, ground arith, rw (long, apart) refl))
    | inl same ↦
        let size : u32_at b 0 ≡ length b = ground arith in
        let enough : ltb (u32_at b 0) 12 ≡ false = ground arith in
        let body : length (drop 12 b) == u32_at b 0 - 12 ≡ true =
          ground (arith, length-drop 12 b) in
        inr (inr (ground arith, size, rw (long, same, enough, body) refl))
  ]
]

parse_pdu-frame : (f : List ℕ) → IsFrame cmpp f → parse_pdu f ≡ ok (header_of f, drop 12 f)
parse_pdu-frame f h =
    let same : u32_at f 0 ≡ length f = unfold u32_at total_length in h.whole in
    elim (parse_pdu_branches f) [
      | inl (short, _) ↦
          absurd (omega (arith, accepts_min cmpp (total_length f) h.accepted, h.whole))
      | inr (inl (_, apart, _)) ↦ absurd (apart same)
      | inr (inr (_, _, e)) ↦ e
    ]

all_parse :
    (fs : List (List ℕ))
    → All (IsFrame cmpp) fs
    → All (λ f. parse_pdu f ≡ ok (header_of f, drop 12 f)) fs
all_parse [] h = tt
all_parse (f ∷ fs) h = (parse_pdu-frame f h.0, all_parse fs h.1)

-- The header of every frame that the stream decoder cuts is accepted.
pub parse_pdu-decode_frames :
    (input rest : List ℕ) (fs : List (List ℕ))
    → decode_frames cmpp input ≡ (rest, ok fs)
    → All (λ f. parse_pdu f ≡ ok (header_of f, drop 12 f)) fs
parse_pdu-decode_frames input rest fs e = all_parse fs (decode_frames-exact cmpp input rest fs e).0
