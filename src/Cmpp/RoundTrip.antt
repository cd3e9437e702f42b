-- ===== src/Cmpp/RoundTrip.antt =====
-- Every message of both versions: encoded, then decoded with its version.
use rsms.Common.{ℕ, ◌%◌, ◌<◌, ◌≡◌, length, arith}
use rsms.Common.Bytes.{u32_mod, u8_mod}
use rsms.Wire.Whole.{Trip-Whole}
use rsms.Cmpp.Command
use rsms.Cmpp.Command.{CmppVersion, v20, v30, to_u32}
use rsms.Cmpp.Pdu
use rsms.Cmpp.Pdu.{encode_pdu, command_id, to_pdu_bytes}
use rsms.Cmpp.Message
use rsms.Cmpp.Message.{CmppMessage, message_of, version, encode_message}
use rsms.Cmpp.Entries.{
  Entry-connect, Entry-query, Entry-query_resp, Entry-cancel, Entry-cancel_resp, Entry-active_test,
  Entry-active_test_resp, Entry-terminate, Entry-terminate_resp, Entry-submit_v30,
  Entry-deliver_v30, Entry-submit_v20, Entry-deliver_v20, Entry-connect_resp_v30,
  Entry-connect_resp_v20, Entry-submit_resp_v30, Entry-submit_resp_v20, Entry-deliver_resp_v30,
  Entry-deliver_resp_v20,
}
use rsms.Cmpp.Sent.{Sent, sent_pdu, sent_v20}
use rsms.Cmpp.Connect.{
  Connect, ConnectResp, ConnectRespV20, IsConnect, IsConnectResp, connect-Trip, connect_resp-Trip,
  connect_resp_v20-Trip, connect_size, connect_resp_size, connect_resp_v20_size,
  connect_resp_from_v20,
}
use rsms.Cmpp.Simple
use rsms.Cmpp.Simple.{
  active_test-Whole, terminate-Whole, terminate_resp-Whole, active_test_resp-Trip,
  active_test_resp_size, decode_active_test, decode_active_test_resp, decode_terminate,
  decode_terminate_resp,
}
use rsms.Cmpp.Query.{
  Query, QueryResp, Cancel, CancelResp, IsQuery, IsQueryResp, IsCancel, IsCancelResp, query-Trip,
  query_resp-Trip, cancel-Trip, cancel_resp-Trip, query_size, query_resp_size, cancel_size,
  cancel_resp_size,
}
use rsms.Cmpp.Submit.{Submit, IsSubmit, submit_size, submit-Trip}
use rsms.Cmpp.Deliver.{Deliver, IsDeliver, deliver_size, deliver-Trip}
use rsms.Cmpp.SubmitV20.{SubmitV20, IsSubmitV20, submit_v20_size, submit_v20-Trip}
use rsms.Cmpp.DeliverV20.{DeliverV20, IsDeliverV20, deliver_v20_size, deliver_v20-Trip}
use rsms.Cmpp.Responses.{
  SubmitResp, DeliverResp, SubmitRespV20, DeliverRespV20, IsSubmitResp, IsDeliverResp,
  submit_resp-Trip, deliver_resp-Trip, submit_resp_v20-Trip, deliver_resp_v20-Trip,
  submit_resp_size, deliver_resp_size, submit_resp_v20_size, deliver_resp_v20_size,
  submit_resp_from_v20, deliver_resp_from_v20,
}

-- A message that its version can carry: the bodies fit the wire, and the responses of version 2.0
-- have a result of one byte.
pub data IsMessage : CmppMessage → Type 0 where
  is_connect :
      (v : CmppVersion) (seq : ℕ) (p : Connect)
      → seq < u32_mod
      → IsConnect p
      → IsMessage (Message.connect v seq p)
  is_query :
      (v : CmppVersion) (seq : ℕ) (p : Query)
      → seq < u32_mod
      → IsQuery p
      → IsMessage (Message.query v seq p)
  is_query_resp :
      (v : CmppVersion) (seq : ℕ) (p : QueryResp)
      → seq < u32_mod
      → IsQueryResp p
      → IsMessage (Message.query_resp v seq p)
  is_cancel :
      (v : CmppVersion) (seq : ℕ) (p : Cancel)
      → seq < u32_mod
      → IsCancel p
      → IsMessage (Message.cancel v seq p)
  is_cancel_resp :
      (v : CmppVersion) (seq : ℕ) (p : CancelResp)
      → seq < u32_mod
      → IsCancelResp p
      → IsMessage (Message.cancel_resp v seq p)
  is_active_test :
      (v : CmppVersion) (seq : ℕ) → seq < u32_mod → IsMessage (Message.active_test v seq)
  is_active_test_resp :
      (v : CmppVersion) (seq : ℕ) → seq < u32_mod → IsMessage (Message.active_test_resp v seq)
  is_terminate : (v : CmppVersion) (seq : ℕ) → seq < u32_mod → IsMessage (Message.terminate v seq)
  is_terminate_resp :
      (v : CmppVersion) (seq : ℕ) → seq < u32_mod → IsMessage (Message.terminate_resp v seq)
  is_submit_v30 :
      (seq : ℕ) (p : Submit) → seq < u32_mod → IsSubmit p → IsMessage (Message.submit_v30 seq p)
  is_deliver_v30 :
      (seq : ℕ) (p : Deliver) → seq < u32_mod → IsDeliver p → IsMessage (Message.deliver_v30 seq p)
  is_submit_v20 :
      (seq : ℕ) (p : SubmitV20)
      → seq < u32_mod
      → IsSubmitV20 p
      → IsMessage (Message.submit_v20 seq p)
  is_deliver_v20 :
      (seq : ℕ) (p : DeliverV20)
      → seq < u32_mod
      → IsDeliverV20 p
      → IsMessage (Message.deliver_v20 seq p)
  is_connect_resp_v30 :
      (seq : ℕ) (p : ConnectResp)
      → seq < u32_mod
      → IsConnectResp p
      → IsMessage (Message.connect_resp v30 seq p)
  is_connect_resp_v20 :
      (seq : ℕ) (p : ConnectResp)
      → seq < u32_mod
      → length p.authenticator_ismg ≡ 16
      → p.status < 256
      → IsMessage (Message.connect_resp v20 seq p)
  is_submit_resp_v30 :
      (seq : ℕ) (p : SubmitResp)
      → seq < u32_mod
      → IsSubmitResp p
      → IsMessage (Message.submit_resp v30 seq p)
  is_submit_resp_v20 :
      (seq : ℕ) (p : SubmitResp)
      → seq < u32_mod
      → length p.msg_id ≡ 8
      → p.result < 256
      → IsMessage (Message.submit_resp v20 seq p)
  is_deliver_resp_v30 :
      (seq : ℕ) (p : DeliverResp)
      → seq < u32_mod
      → IsDeliverResp p
      → IsMessage (Message.deliver_resp v30 seq p)
  is_deliver_resp_v20 :
      (seq : ℕ) (p : DeliverResp)
      → seq < u32_mod
      → length p.msg_id ≡ 8
      → p.result < 256
      → IsMessage (Message.deliver_resp v20 seq p)

narrow_connect_resp :
    (seq : ℕ) (p : ConnectResp)
    → seq < u32_mod
    → length p.authenticator_ismg ≡ 16
    → p.status < 256
    → Sent (Message.connect_resp v20 seq p)
unfolding encode_message message_of version connect_resp_from_v20
narrow_connect_resp seq p small width byte =
    let same : p.status % u8_mod ≡ p.status = omega arith in
    let q : ConnectRespV20 = record {
      status = p.status;
      authenticator_ismg = p.authenticator_ismg;
      version = p.version;
    } in
    rw same (
      sent_v20 (λ (x : ConnectRespV20). Pdu.connect_resp (connect_resp_from_v20 x))
        Command.connect_resp seq connect_resp_v20_size small (omega arith)
        (λ h e. Trip-Whole (connect_resp_v20-Trip q h (record { authenticator_ismg = width }) e))
        Entry-connect_resp_v20)

narrow_submit_resp :
    (seq : ℕ) (p : SubmitResp)
    → seq < u32_mod
    → length p.msg_id ≡ 8
    → p.result < 256
    → Sent (Message.submit_resp v20 seq p)
unfolding encode_message message_of version submit_resp_from_v20
narrow_submit_resp seq p small width byte =
    let same : p.result % u8_mod ≡ p.result = omega arith in
    let q : SubmitRespV20 = record { msg_id = p.msg_id; result = p.result } in
    rw same (
      sent_v20 (λ (x : SubmitRespV20). Pdu.submit_resp (submit_resp_from_v20 x)) Command.submit_resp
        seq submit_resp_v20_size small (omega arith)
        (λ h e. Trip-Whole (submit_resp_v20-Trip q h (record { msg_id = width }) e))
        Entry-submit_resp_v20)

narrow_deliver_resp :
    (seq : ℕ) (p : DeliverResp)
    → seq < u32_mod
    → length p.msg_id ≡ 8
    → p.result < 256
    → Sent (Message.deliver_resp v20 seq p)
unfolding encode_message message_of version deliver_resp_from_v20
narrow_deliver_resp seq p small width byte =
    let same : p.result % u8_mod ≡ p.result = omega arith in
    let q : DeliverRespV20 = record { msg_id = p.msg_id; result = p.result } in
    rw same (
      sent_v20 (λ (x : DeliverRespV20). Pdu.deliver_resp (deliver_resp_from_v20 x))
        Command.deliver_resp seq deliver_resp_v20_size small (omega arith)
        (λ h e. Trip-Whole (deliver_resp_v20-Trip q h (record { msg_id = width }) e))
        Entry-deliver_resp_v20)

-- A message that its version can carry is encoded, and the bytes decoded with that version are the
-- message.
pub decode_message-encode : (m : CmppMessage) → IsMessage m → Sent m
unfolding encode_message encode_pdu to_pdu_bytes command_id message_of version submit_size
    deliver_size submit_v20_size deliver_v20_size connect_resp_from_v20 submit_resp_from_v20
    deliver_resp_from_v20
decode_message-encode _ (is_connect v seq p small fits) =
    sent_pdu Pdu.connect v Command.connect seq connect_size small (omega arith)
      (λ h q. Trip-Whole (connect-Trip p h fits q)) (Entry-connect v)
decode_message-encode _ (is_query v seq p small fits) =
    sent_pdu Pdu.query v Command.query seq query_size small (omega arith)
      (λ h q. Trip-Whole (query-Trip p h fits q)) (Entry-query v)
decode_message-encode _ (is_query_resp v seq p small fits) =
    sent_pdu Pdu.query_resp v Command.query_resp seq query_resp_size small (omega arith)
      (λ h q. Trip-Whole (query_resp-Trip p h fits q)) (Entry-query_resp v)
decode_message-encode _ (is_cancel v seq p small fits) =
    sent_pdu Pdu.cancel v Command.cancel seq cancel_size small (omega arith)
      (λ h q. Trip-Whole (cancel-Trip p h fits q)) (Entry-cancel v)
decode_message-encode _ (is_cancel_resp v seq p small fits) =
    sent_pdu Pdu.cancel_resp v Command.cancel_resp seq cancel_resp_size small (omega arith)
      (λ h q. Trip-Whole (cancel_resp-Trip p h fits q)) (Entry-cancel_resp v)
decode_message-encode _ (is_active_test v seq small) =
    sent_pdu Pdu.active_test v Command.active_test seq 0 small (omega arith)
      (λ h q. active_test-Whole Simple.active_test h q) (Entry-active_test v)
decode_message-encode _ (is_active_test_resp v seq small) =
    sent_pdu Pdu.active_test_resp v Command.active_test_resp seq active_test_resp_size small
      (omega arith) (λ h q. Trip-Whole (active_test_resp-Trip _ h q)) (Entry-active_test_resp v)
decode_message-encode _ (is_terminate v seq small) =
    sent_pdu Pdu.terminate v Command.terminate seq 0 small (omega arith)
      (λ h q. terminate-Whole Simple.terminate h q) (Entry-terminate v)
decode_message-encode _ (is_terminate_resp v seq small) =
    sent_pdu Pdu.terminate_resp v Command.terminate_resp seq 0 small (omega arith)
      (λ h q. terminate_resp-Whole Simple.terminate_resp h q) (Entry-terminate_resp v)
decode_message-encode _ (is_submit_v30 seq p small fits) =
    sent_pdu Pdu.submit v30 Command.submit seq (submit_size p) small
      (omega (arith, fits.msg_content, fits.few)) (λ h q. Trip-Whole (submit-Trip p h fits q))
      Entry-submit_v30
decode_message-encode _ (is_deliver_v30 seq p small fits) =
    sent_pdu Pdu.deliver v30 Command.deliver seq (deliver_size p) small
      (omega (arith, fits.msg_content)) (λ h q. Trip-Whole (deliver-Trip p h fits q))
      Entry-deliver_v30
decode_message-encode _ (is_submit_v20 seq p small fits) =
    sent_pdu Pdu.submit_v20 v20 Command.submit seq (submit_v20_size p) small
      (omega (arith, fits.msg_content, fits.few)) (λ h q. Trip-Whole (submit_v20-Trip p h fits q))
      Entry-submit_v20
decode_message-encode _ (is_deliver_v20 seq p small fits) =
    sent_pdu Pdu.deliver_v20 v20 Command.deliver seq (deliver_v20_size p) small
      (omega (arith, fits.msg_content)) (λ h q. Trip-Whole (deliver_v20-Trip p h fits q))
      Entry-deliver_v20
decode_message-encode _ (is_connect_resp_v30 seq p small fits) =
    sent_pdu Pdu.connect_resp v30 Command.connect_resp seq connect_resp_size small (omega arith)
      (λ h q. Trip-Whole (connect_resp-Trip p h fits q)) Entry-connect_resp_v30
decode_message-encode _ (is_connect_resp_v20 seq p small width byte) =
    narrow_connect_resp seq p small width byte
decode_message-encode _ (is_submit_resp_v30 seq p small fits) =
    sent_pdu Pdu.submit_resp v30 Command.submit_resp seq submit_resp_size small (omega arith)
      (λ h q. Trip-Whole (submit_resp-Trip p h fits q)) Entry-submit_resp_v30
decode_message-encode _ (is_submit_resp_v20 seq p small width byte) =
    narrow_submit_resp seq p small width byte
decode_message-encode _ (is_deliver_resp_v30 seq p small fits) =
    sent_pdu Pdu.deliver_resp v30 Command.deliver_resp seq deliver_resp_size small (omega arith)
      (λ h q. Trip-Whole (deliver_resp-Trip p h fits q)) Entry-deliver_resp_v30
decode_message-encode _ (is_deliver_resp_v20 seq p small width byte) =
    narrow_deliver_resp seq p small width byte
