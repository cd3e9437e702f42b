-- ===== src/Smgp/Message.antt =====
-- crates/rsms-codec-smgp/src/message.rs: whole messages.
use rsms.Common.{ℕ, ◌+◌, List, ◌++◌, length, drop, Result, ok, map_err, ◌>>=◌}
use rsms.Common.Bytes.{u32_be}
use rsms.Wire.Error.{CodecError, MessageError, codec, panic}
use rsms.Smgp.Command
use rsms.Smgp.Command.{CommandId, to_u32}
use rsms.Smgp.PduHeader.{PduHeader, header_size, decode_header}
use rsms.Smgp.Pdu
use rsms.Smgp.Pdu.{to_pdu_bytes}
use rsms.Smgp.Simple
use rsms.Smgp.Login.{Login, LoginResp, decode_login, decode_login_resp}
use rsms.Smgp.Submit.{Submit, SubmitResp, decode_submit, decode_submit_resp}
use rsms.Smgp.Deliver.{Deliver, DeliverResp, decode_deliver, decode_deliver_resp}
use rsms.Smgp.Simple.{decode_active_test, decode_active_test_resp, decode_exit, decode_exit_resp}

pub data SmgpMessage : Type 0 where
  login : ℕ → Login → SmgpMessage
  login_resp : ℕ → LoginResp → SmgpMessage
  submit : ℕ → Submit → SmgpMessage
  submit_resp : ℕ → SubmitResp → SmgpMessage
  deliver : ℕ → Deliver → SmgpMessage
  deliver_resp : ℕ → DeliverResp → SmgpMessage
  active_test : ℕ → SmgpMessage
  active_test_resp : ℕ → SmgpMessage
  exit : ℕ → SmgpMessage
  exit_resp : ℕ → SmgpMessage
  unknown : ℕ → ℕ → List ℕ → SmgpMessage

unfoldable pub sequence_id : SmgpMessage → ℕ
sequence_id (login seq p) = seq
sequence_id (login_resp seq p) = seq
sequence_id (submit seq p) = seq
sequence_id (submit_resp seq p) = seq
sequence_id (deliver seq p) = seq
sequence_id (deliver_resp seq p) = seq
sequence_id (active_test seq) = seq
sequence_id (active_test_resp seq) = seq
sequence_id (exit seq) = seq
sequence_id (exit_resp seq) = seq
sequence_id (unknown id seq body) = seq

-- The `match` on the command of the header.
unfoldable pub decode_body : CommandId → PduHeader → List ℕ → Result CodecError SmgpMessage
decode_body Command.login h b = decode_login h b >>= λ (p, rest). ok (login h.sequence_id p)
decode_body Command.login_resp h b =
    decode_login_resp h b >>= λ (p, rest). ok (login_resp h.sequence_id p)
decode_body Command.submit h b = decode_submit h b >>= λ (p, rest). ok (submit h.sequence_id p)
decode_body Command.submit_resp h b =
    decode_submit_resp h b >>= λ (p, rest). ok (submit_resp h.sequence_id p)
decode_body Command.deliver h b = decode_deliver h b >>= λ (p, rest). ok (deliver h.sequence_id p)
decode_body Command.deliver_resp h b =
    decode_deliver_resp h b >>= λ (p, rest). ok (deliver_resp h.sequence_id p)
decode_body Command.active_test h b =
    decode_active_test h b >>= λ (p, rest). ok (active_test h.sequence_id)
decode_body Command.active_test_resp h b =
    decode_active_test_resp h b >>= λ (p, rest). ok (active_test_resp h.sequence_id)
decode_body Command.exit h b = decode_exit h b >>= λ (p, rest). ok (exit h.sequence_id)
decode_body Command.exit_resp h b =
    decode_exit_resp h b >>= λ (p, rest). ok (exit_resp h.sequence_id)
decode_body other h b = ok (unknown (to_u32 other) h.sequence_id b)

unfoldable pub decode_message : List ℕ → Result MessageError SmgpMessage
decode_message pdu = map_err codec (decode_header pdu) >>= λ (header, rest).
    map_err codec (decode_body header.command_id header (drop header_size pdu))

abbrev frame_of : Pdu.Pdu → ℕ → Result MessageError (List ℕ)
frame_of p seq = map_err panic (to_pdu_bytes p seq)

unfoldable pub encode_message : SmgpMessage → Result MessageError (List ℕ)
encode_message (login seq p) = frame_of (Pdu.login p) seq
encode_message (login_resp seq p) = frame_of (Pdu.login_resp p) seq
encode_message (submit seq p) = frame_of (Pdu.submit p) seq
encode_message (submit_resp seq p) = frame_of (Pdu.submit_resp p) seq
encode_message (deliver seq p) = frame_of (Pdu.deliver p) seq
encode_message (deliver_resp seq p) = frame_of (Pdu.deliver_resp p) seq
encode_message (active_test seq) = frame_of (Pdu.active_test Simple.active_test) seq
encode_message (active_test_resp seq) = frame_of (Pdu.active_test_resp Simple.active_test_resp) seq
encode_message (exit seq) = frame_of (Pdu.exit Simple.exit) seq
encode_message (exit_resp seq) = frame_of (Pdu.exit_resp Simple.exit_resp) seq
encode_message (unknown id seq body) =
    ok (u32_be (header_size + length body) ++ (u32_be id ++ (u32_be seq ++ body)))
