-- ===== src/Smgp/Tests.antt =====
-- The SMGP theorems at concrete parameters and messages.
use rsms.Common.{
  ℕ, ◌≡◌, refl, List, [], ◌∷◌, length, if◌then◌else◌, none, some, ok, arith, replicate,
}
use rsms.Common.Utf8.{ascii, empty}
use rsms.Core.Pstring.{trim}
use rsms.Wire.Strings.{FitsField, empty-FitsField}
use rsms.Smgp.Tlv.{
  byte, octets, string, OptionalParameters, decode_loop, decode_remaining, encode_params,
  get_string, params_size, tlv_size, value_size,
}
use rsms.Smgp.Params.{is_special, is_byte, is_octets, is_string}
use rsms.Smgp.Loop.{decode_loop-enough}
use rsms.Smgp.Strings.{get_string-decode_remaining}
use rsms.Smgp.MsgId.{from_u64, to_u64, to_u64-from_u64}
use rsms.Smgp.Submit.{Submit, IsSubmit, submit_size}
use rsms.Smgp.Message.{submit}
use rsms.Smgp.RoundTrip.{Sent, is_submit, decode_message-encode_message}

-- One parameter and the start of a second one.
abbrev cut_short : List ℕ
cut_short = 0 ∷ 2 ∷ 0 ∷ 1 ∷ 1 ∷ 0 ∷ 3 ∷ 0 ∷ 9 ∷ []

decode_loop-enough_example :
    (ps : OptionalParameters) × (decode_loop 20 cut_short ≡ ok (ps, []))
    × (decode_remaining cut_short ≡ ok (ps, []))
decode_loop-enough_example = decode_loop-enough 20 cut_short (omega arith)

abbrev two_letters : List ℕ
two_letters = b'h' ∷ b'i' ∷ []

get_string-decode_remaining_example :
    (bytes : List ℕ) × (encode_params (string 3 two_letters ∷ []) ≡ ok bytes)
    × ((ps : OptionalParameters) × (decode_remaining bytes ≡ ok (ps, []))
        × (get_string ps 3 ≡ (if is_special (length two_letters) then none else some two_letters)))
get_string-decode_remaining_example =
    get_string-decode_remaining 3 two_letters (omega arith) (omega arith)
      (ascii b'h' (b'i' ∷ []) (omega arith) (ascii b'i' [] (omega arith) empty))

to_u64-from_u64_example : to_u64 (from_u64 1234567890123) ≡ 1234567890123
to_u64-from_u64_example = to_u64-from_u64 1234567890123 (omega arith)

-- A message of two characters to one number, with three optional parameters.
abbrev message : Submit
message = record {
  msg_type = 6;
  need_report = 1;
  priority = 0;
  service_id = [];
  fee_type = [];
  fee_code = [];
  fixed_fee = [];
  msg_fmt = 0;
  valid_time = [];
  at_time = [];
  src_term_id = [];
  charge_term_id = [];
  dest_term_id_count = 1;
  dest_term_ids = (b'8' ∷ []) ∷ [];
  msg_content = two_letters;
  reserve = replicate 8 0;
  optional_params = byte 2 1 ∷ octets 3 (1 ∷ 2 ∷ 3 ∷ []) ∷ string 4 two_letters ∷ [];
}

dest-FitsField : FitsField 21 (b'8' ∷ [])
unfolding trim
dest-FitsField = record {
  utf8 = ascii b'8' [] (omega arith) empty;
  trimmed = refl;
  fits = omega arith;
}

message-IsSubmit : IsSubmit message
message-IsSubmit = record {
  service_id = empty-FitsField 10;
  fee_type = empty-FitsField 2;
  fee_code = empty-FitsField 6;
  fixed_fee = empty-FitsField 6;
  valid_time = empty-FitsField 17;
  at_time = empty-FitsField 17;
  src_term_id = empty-FitsField 21;
  charge_term_id = empty-FitsField 21;
  dest_term_id_count = refl;
  few = omega arith;
  dest_term_ids = (dest-FitsField, tt);
  msg_content = omega arith;
  reserve = refl;
  optional_params = (
    is_byte 2 1 (omega arith),
    (
      is_octets 3 (1 ∷ 2 ∷ 3 ∷ []) (omega arith) (omega arith),
      (is_string 4 two_letters (omega arith) (omega arith), tt),
    ),
  );
}

decode_message-encode_message_example : Sent (submit 7 message)
unfolding submit_size params_size tlv_size value_size
decode_message-encode_message_example =
    decode_message-encode_message (submit 7 message)
      (is_submit 7 message (omega arith) message-IsSubmit (omega arith))
