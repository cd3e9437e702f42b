-- ===== src/Cmpp/Tests.antt =====
-- The CMPP theorems at concrete frames.
use rsms.Common.{ℕ, ◌≡◌, refl, List, [], ◌∷◌, ◌++◌, drop, All, ok, arith, replicate}
use rsms.Common.Bytes.{from_u32_be}
use rsms.Stream.{decode_frames, decode_fuel, next, accepts, total_length}
use rsms.Cmpp.Command.{active_test, try_from}
use rsms.Cmpp.Header.{header_of, parse_pdu, parse_pdu-decode_frames}
use rsms.Cmpp.PduHeader.{
  PduHeader, IsHeader, encode, decode, decode-encode, encode-decode, try_get_u32, get_command_id,
}
use rsms.Common.Utf8.{ascii, empty}
use rsms.Core.Pstring.{trim}
use rsms.Wire.Strings.{FitsField, empty-FitsField}
use rsms.Cmpp.Message.{submit_v30}
use rsms.Cmpp.Submit.{Submit, IsSubmit}
use rsms.Cmpp.Sent.{Sent}
use rsms.Cmpp.RoundTrip.{is_submit_v30, decode_message-encode}

abbrev frame : List ℕ
frame = 0 ∷ 0 ∷ 0 ∷ 12 ∷ 0 ∷ 0 ∷ 0 ∷ 8 ∷ 0 ∷ 0 ∷ 0 ∷ 1 ∷ []

parse_pdu-decode_frames_example : All (λ f. parse_pdu f ≡ ok (header_of f, drop 12 f)) (frame ∷ [])
unfolding decode_frames decode_fuel next accepts total_length from_u32_be
parse_pdu-decode_frames_example = parse_pdu-decode_frames frame [] (frame ∷ []) refl

abbrev header : PduHeader
header = record { total_length = 12; command_id = active_test; sequence_id = 1 }

header-IsHeader : IsHeader header
header-IsHeader = record { low = omega arith; high = omega arith; sequence = omega arith }

decode-encode_example : decode (encode header ++ (7 ∷ [])) ≡ ok (header, 7 ∷ [])
decode-encode_example = decode-encode header (7 ∷ []) header-IsHeader

encode-decode_example : (encode header ++ [] ≡ frame) × IsHeader header
unfolding decode try_get_u32 get_command_id from_u32_be try_from
encode-decode_example = encode-decode frame [] header (omega arith) refl

-- A message of two characters to one number; the other strings are empty.
abbrev message : Submit
message = record {
  msg_id = replicate 8 0;
  pk_total = 1;
  pk_number = 1;
  registered_delivery = 1;
  msg_level = 0;
  service_id = [];
  fee_user_type = 0;
  fee_terminal_id = [];
  fee_terminal_type = 0;
  tppid = 0;
  tpudhi = 0;
  msg_fmt = 0;
  msg_src = [];
  fee_type = [];
  fee_code = [];
  valid_time = [];
  at_time = [];
  src_id = b'1' ∷ [];
  dest_usr_tl = 1;
  dest_terminal_ids = (b'8' ∷ []) ∷ [];
  dest_terminal_type = 0;
  msg_content = b'h' ∷ b'i' ∷ [];
  link_id = [];
}

source-FitsField : FitsField 21 (b'1' ∷ [])
unfolding trim
source-FitsField = record {
  utf8 = ascii b'1' [] (omega arith) empty;
  trimmed = refl;
  fits = omega arith;
}

dest-FitsField : FitsField 32 (b'8' ∷ [])
unfolding trim
dest-FitsField = record {
  utf8 = ascii b'8' [] (omega arith) empty;
  trimmed = refl;
  fits = omega arith;
}

message-IsSubmit : IsSubmit message
message-IsSubmit = record {
  msg_id = refl;
  service_id = empty-FitsField 10;
  fee_terminal_id = empty-FitsField 32;
  msg_src = empty-FitsField 6;
  fee_type = empty-FitsField 2;
  fee_code = empty-FitsField 6;
  valid_time = empty-FitsField 17;
  at_time = empty-FitsField 17;
  src_id = source-FitsField;
  dest_usr_tl = refl;
  few = omega arith;
  dest_terminal_ids = (dest-FitsField, tt);
  msg_content = omega arith;
  link_id = empty-FitsField 20;
}

decode_message-encode_example : Sent (submit_v30 7 message)
decode_message-encode_example =
    decode_message-encode (submit_v30 7 message)
      (is_submit_v30 7 message (omega arith) message-IsSubmit)
