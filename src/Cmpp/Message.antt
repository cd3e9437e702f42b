-- ===== src/Cmpp/Message.antt =====
-- crates/rsms-codec-cmpp/src/message.rs: whole messages.
use rsms.Common.{
  ℕ, ◌+◌, ◌%◌, Option, none, some, List, ◌++◌, length, drop, Result, ok, err, map_err, ◌>>=◌,
}
use rsms.Common.Bytes.{u32_be, u8_mod}
use rsms.Wire.Fields.{Put}
use rsms.Cmpp.Command
use rsms.Cmpp.Command.{CommandId, CmppVersion, v20, v30, to_u32, from_wire}
use rsms.Wire.Error.{CodecError, MessageError, codec, panic}
use rsms.Cmpp.PduHeader.{header_size}
use rsms.Cmpp.PduHeader
use rsms.Cmpp.Pdu.{Pdu, to_pdu_bytes}
use rsms.Cmpp.Registry.{for_version, dispatch}
use rsms.Cmpp.Simple
use rsms.Cmpp.Connect.{Connect, ConnectResp, encode_connect_resp_v20, connect_resp_v20_size}
use rsms.Cmpp.Submit.{Submit}
use rsms.Cmpp.Deliver.{Deliver}
use rsms.Cmpp.SubmitV20.{SubmitV20}
use rsms.Cmpp.DeliverV20.{DeliverV20}
use rsms.Cmpp.Query.{Query, QueryResp, Cancel, CancelResp}
use rsms.Cmpp.Responses.{
  SubmitResp, DeliverResp, encode_submit_resp_v20, encode_deliver_resp_v20, submit_resp_v20_size,
  deliver_resp_v20_size,
}

-- The version where the message has one, the sequence number and the body.
pub data CmppMessage : Type 0 where
  connect : CmppVersion → ℕ → Connect → CmppMessage
  connect_resp : CmppVersion → ℕ → ConnectResp → CmppMessage
  submit_v20 : ℕ → SubmitV20 → CmppMessage
  submit_v30 : ℕ → Submit → CmppMessage
  deliver_v20 : ℕ → DeliverV20 → CmppMessage
  deliver_v30 : ℕ → Deliver → CmppMessage
  submit_resp : CmppVersion → ℕ → SubmitResp → CmppMessage
  deliver_resp : CmppVersion → ℕ → DeliverResp → CmppMessage
  query : CmppVersion → ℕ → Query → CmppMessage
  query_resp : CmppVersion → ℕ → QueryResp → CmppMessage
  cancel : CmppVersion → ℕ → Cancel → CmppMessage
  cancel_resp : CmppVersion → ℕ → CancelResp → CmppMessage
  active_test : CmppVersion → ℕ → CmppMessage
  active_test_resp : CmppVersion → ℕ → CmppMessage
  terminate : CmppVersion → ℕ → CmppMessage
  terminate_resp : CmppVersion → ℕ → CmppMessage
  unknown : CmppVersion → ℕ → ℕ → List ℕ → CmppMessage

unfoldable pub version : CmppMessage → CmppVersion
version (connect v seq p) = v
version (connect_resp v seq p) = v
version (submit_v20 seq p) = v20
version (submit_v30 seq p) = v30
version (deliver_v20 seq p) = v20
version (deliver_v30 seq p) = v30
version (submit_resp v seq p) = v
version (deliver_resp v seq p) = v
version (query v seq p) = v
version (query_resp v seq p) = v
version (cancel v seq p) = v
version (cancel_resp v seq p) = v
version (active_test v seq) = v
version (active_test_resp v seq) = v
version (terminate v seq) = v
version (terminate_resp v seq) = v
version (unknown v id seq body) = v

unfoldable pub sequence_id : CmppMessage → ℕ
sequence_id (connect v seq p) = seq
sequence_id (connect_resp v seq p) = seq
sequence_id (submit_v20 seq p) = seq
sequence_id (submit_v30 seq p) = seq
sequence_id (deliver_v20 seq p) = seq
sequence_id (deliver_v30 seq p) = seq
sequence_id (submit_resp v seq p) = seq
sequence_id (deliver_resp v seq p) = seq
sequence_id (query v seq p) = seq
sequence_id (query_resp v seq p) = seq
sequence_id (cancel v seq p) = seq
sequence_id (cancel_resp v seq p) = seq
sequence_id (active_test v seq) = seq
sequence_id (active_test_resp v seq) = seq
sequence_id (terminate v seq) = seq
sequence_id (terminate_resp v seq) = seq
sequence_id (unknown v id seq body) = seq

-- The `match` at the end of the decoder.
unfoldable pub message_of : CmppVersion → ℕ → Pdu → CmppMessage
message_of v seq (Pdu.connect p) = connect v seq p
message_of v seq (Pdu.connect_resp p) = connect_resp v seq p
message_of v seq (Pdu.submit_v20 p) = submit_v20 seq p
message_of v seq (Pdu.submit p) = submit_v30 seq p
message_of v seq (Pdu.deliver_v20 p) = deliver_v20 seq p
message_of v seq (Pdu.deliver p) = deliver_v30 seq p
message_of v seq (Pdu.submit_resp p) = submit_resp v seq p
message_of v seq (Pdu.deliver_resp p) = deliver_resp v seq p
message_of v seq (Pdu.query p) = query v seq p
message_of v seq (Pdu.query_resp p) = query_resp v seq p
message_of v seq (Pdu.cancel p) = cancel v seq p
message_of v seq (Pdu.cancel_resp p) = cancel_resp v seq p
message_of v seq (Pdu.active_test p) = active_test v seq
message_of v seq (Pdu.active_test_resp p) = active_test_resp v seq
message_of v seq (Pdu.terminate p) = terminate v seq
message_of v seq (Pdu.terminate_resp p) = terminate_resp v seq

-- `version.and_then(|v| CmppVersion::from_wire(v).ok()).unwrap_or(V30)`
unfoldable pub version_of : Option ℕ → CmppVersion
version_of none = v30
version_of (some n) = elim (from_wire n) [ ok v ↦ v | err e ↦ v30 ]

unfoldable pub decode_message_with_version : List ℕ → Option ℕ → Result MessageError CmppMessage
decode_message_with_version pdu wire = map_err codec (PduHeader.decode pdu) >>= λ (header, rest).
    map_err codec (dispatch (for_version (version_of wire)) header (drop header_size pdu))
    >>= λ decoded. ok (message_of (version_of wire) header.sequence_id decoded)

unfoldable pub decode_message : List ℕ → Result MessageError CmppMessage
decode_message pdu = decode_message_with_version pdu none

-- The body of a response in version 2.0 behind a header with the size that the body announces.
unfoldable pub encode_v20_pdu : CommandId → ℕ → ℕ → Put CodecError → Result MessageError (List ℕ)
encode_v20_pdu id seq body_size body = map_err panic body >>= λ bytes.
    ok (u32_be (header_size + body_size) ++ (u32_be (to_u32 id) ++ (u32_be seq ++ bytes)))

abbrev frame_of : Pdu → ℕ → Result MessageError (List ℕ)
frame_of p seq = map_err panic (to_pdu_bytes p seq)

-- The responses have one clause for each version: the code returns early for version 2.0.
unfoldable pub encode_message : CmppMessage → Result MessageError (List ℕ)
encode_message (connect v seq p) = frame_of (Pdu.connect p) seq
encode_message (connect_resp v20 seq p) =
    encode_v20_pdu Command.connect_resp seq connect_resp_v20_size (
      encode_connect_resp_v20 (record {
        status = p.status % u8_mod;
        authenticator_ismg = p.authenticator_ismg;
        version = p.version;
      }))
encode_message (connect_resp v30 seq p) = frame_of (Pdu.connect_resp p) seq
encode_message (submit_v20 seq p) = frame_of (Pdu.submit_v20 p) seq
encode_message (submit_v30 seq p) = frame_of (Pdu.submit p) seq
encode_message (deliver_v20 seq p) = frame_of (Pdu.deliver_v20 p) seq
encode_message (deliver_v30 seq p) = frame_of (Pdu.deliver p) seq
encode_message (submit_resp v20 seq p) =
    encode_v20_pdu Command.submit_resp seq submit_resp_v20_size
      (encode_submit_resp_v20 (record { msg_id = p.msg_id; result = p.result % u8_mod }))
encode_message (submit_resp v30 seq p) = frame_of (Pdu.submit_resp p) seq
encode_message (deliver_resp v20 seq p) =
    encode_v20_pdu Command.deliver_resp seq deliver_resp_v20_size
      (encode_deliver_resp_v20 (record { msg_id = p.msg_id; result = p.result % u8_mod }))
encode_message (deliver_resp v30 seq p) = frame_of (Pdu.deliver_resp p) seq
encode_message (query v seq p) = frame_of (Pdu.query p) seq
encode_message (query_resp v seq p) = frame_of (Pdu.query_resp p) seq
encode_message (cancel v seq p) = frame_of (Pdu.cancel p) seq
encode_message (cancel_resp v seq p) = frame_of (Pdu.cancel_resp p) seq
encode_message (active_test v seq) = frame_of (Pdu.active_test Simple.active_test) seq
encode_message (active_test_resp v seq) =
    frame_of (Pdu.active_test_resp (record { reserved = 0 })) seq
encode_message (terminate v seq) = frame_of (Pdu.terminate Simple.terminate) seq
encode_message (terminate_resp v seq) = frame_of (Pdu.terminate_resp Simple.terminate_resp) seq
encode_message (unknown v id seq body) =
    ok (u32_be (header_size + length body) ++ (u32_be id ++ (u32_be seq ++ body)))
