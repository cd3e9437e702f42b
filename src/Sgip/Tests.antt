-- ===== src/Sgip/Tests.antt =====
-- The SGIP theorems at concrete bodies.
use rsms.Common.{ℕ, ◌+◌, ◌≡◌, refl, List, [], ◌∷◌, ok, arith, replicate}
use rsms.Common.Utf8.{ascii, empty}
use rsms.Core.Pstring.{trim}
use rsms.Wire.Strings.{FitsField, empty-FitsField}
use rsms.Wire.Whole.{Whole}
use rsms.Sgip.Command
use rsms.Sgip.Sequence.{SgipSequence, IsSequence}
use rsms.Sgip.PduHeader.{PduHeader}
use rsms.Sgip.Submit.{Submit, IsSubmit}
use rsms.Sgip.Pdu.{
  Pdu, IsPdu, submit, submit_resp, is_submit, is_submit_resp, encode_pdu, decode_pdu, encoded_size,
  command_id, to_pdu_bytes, decode_pdu-encode,
}
use rsms.Sgip.Message.{decode_message}
use rsms.Sgip.ReadBack.{read_back, decode_message-to_pdu_bytes}

-- A message of two characters to one number.
abbrev message : Submit
message = record {
  sp_number = [];
  charge_number = [];
  user_count = 1;
  user_numbers = (b'8' ∷ []) ∷ [];
  corp_id = [];
  service_type = [];
  fee_type = 0;
  fee_value = [];
  given_value = [];
  agent_flag = 0;
  morelate_to_mt_flag = 0;
  priority = 0;
  expire_time = [];
  schedule_time = [];
  report_flag = 1;
  tppid = 0;
  tpudhi = 0;
  msg_fmt = 0;
  message_type = 0;
  message_content = b'h' ∷ b'i' ∷ [];
  reserve = replicate 8 0;
}

user-FitsField : FitsField 21 (b'8' ∷ [])
unfolding trim
user-FitsField = record {
  utf8 = ascii b'8' [] (omega arith) empty;
  trimmed = refl;
  fits = omega arith;
}

message-IsSubmit : IsSubmit message
message-IsSubmit = record {
  sp_number = empty-FitsField 21;
  charge_number = empty-FitsField 21;
  user_count = refl;
  few = omega arith;
  user_numbers = (user-FitsField, tt);
  corp_id = empty-FitsField 5;
  service_type = empty-FitsField 10;
  fee_value = empty-FitsField 6;
  given_value = empty-FitsField 6;
  expire_time = empty-FitsField 16;
  schedule_time = empty-FitsField 16;
  message_content = omega arith;
  reserve = refl;
}

abbrev sequence : SgipSequence
sequence = record { node_id = 3001; timestamp = 727101112; number = 1 }

sequence-IsSequence : IsSequence sequence
sequence-IsSequence = record {
  node_id = omega arith;
  timestamp = omega arith;
  number = omega arith;
}

abbrev header : PduHeader
header = record {
  total_length = 20 + encoded_size (submit message);
  command_id = Command.submit;
  sequence = sequence;
}

decode_pdu-encode_example :
    Whole
      (encode_pdu (submit message))
      (decode_pdu (command_id (submit message)) header)
      (submit message)
      (encoded_size (submit message))
decode_pdu-encode_example =
    decode_pdu-encode (submit message) header (is_submit message message-IsSubmit) refl

-- The result 5 is a number below 256.
abbrev failed : Pdu
failed = submit_resp (record { result = 5 })

failed-IsPdu : IsPdu failed
failed-IsPdu = is_submit_resp (record { result = 5 }) (record { result = omega arith })

decode_message-to_pdu_bytes_example :
    (bytes : List ℕ) × (to_pdu_bytes failed sequence ≡ ok bytes)
    × (decode_message bytes ≡ ok (read_back failed))
unfolding encoded_size
decode_message-to_pdu_bytes_example =
    decode_message-to_pdu_bytes failed sequence failed-IsPdu sequence-IsSequence (omega arith)
