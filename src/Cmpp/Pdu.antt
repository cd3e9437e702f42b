-- ===== src/Cmpp/Pdu.antt =====
-- crates/rsms-codec-cmpp/src/codec.rs: the bodies as one type and the frames made of them.
use rsms.Wire.Error.{CodecError}
use rsms.Common.{ℕ, ◌+◌, ◌%◌, List, ◌++◌, length, ok, ◌>>=◌}
use rsms.Common.Bytes.{u32_mod, u32_be}
use rsms.Wire.Fields.{Put}
use rsms.Cmpp.Command
use rsms.Cmpp.Command.{CommandId, to_u32}
use rsms.Cmpp.PduHeader.{header_size}
use rsms.Cmpp.Connect.{
  Connect, ConnectResp, encode_connect, encode_connect_resp, connect_size, connect_resp_size,
}
use rsms.Cmpp.Simple.{
  Terminate, TerminateResp, ActiveTest, ActiveTestResp, encode_terminate, encode_terminate_resp,
  encode_active_test, encode_active_test_resp, active_test_resp_size,
}
use rsms.Cmpp.Submit.{Submit, encode_submit, submit_size}
use rsms.Cmpp.Responses.{
  SubmitResp, DeliverResp, encode_submit_resp, encode_deliver_resp, submit_resp_size,
  deliver_resp_size,
}
use rsms.Cmpp.Deliver.{Deliver, encode_deliver, deliver_size}
use rsms.Cmpp.SubmitV20.{SubmitV20, encode_submit_v20, submit_v20_size}
use rsms.Cmpp.DeliverV20.{DeliverV20, encode_deliver_v20, deliver_v20_size}
use rsms.Cmpp.Query.{
  Query, QueryResp, Cancel, CancelResp, encode_query, encode_query_resp, encode_cancel,
  encode_cancel_resp, query_size, query_resp_size, cancel_size, cancel_resp_size,
}

pub data Pdu : Type 0 where
  connect : Connect → Pdu
  connect_resp : ConnectResp → Pdu
  terminate : Terminate → Pdu
  terminate_resp : TerminateResp → Pdu
  submit : Submit → Pdu
  submit_resp : SubmitResp → Pdu
  deliver : Deliver → Pdu
  deliver_resp : DeliverResp → Pdu
  submit_v20 : SubmitV20 → Pdu
  deliver_v20 : DeliverV20 → Pdu
  query : Query → Pdu
  query_resp : QueryResp → Pdu
  cancel : Cancel → Pdu
  cancel_resp : CancelResp → Pdu
  active_test : ActiveTest → Pdu
  active_test_resp : ActiveTestResp → Pdu

unfoldable pub command_id : Pdu → CommandId
command_id (connect p) = Command.connect
command_id (connect_resp p) = Command.connect_resp
command_id (terminate p) = Command.terminate
command_id (terminate_resp p) = Command.terminate_resp
command_id (submit p) = Command.submit
command_id (submit_resp p) = Command.submit_resp
command_id (deliver p) = Command.deliver
command_id (deliver_resp p) = Command.deliver_resp
command_id (submit_v20 p) = Command.submit
command_id (deliver_v20 p) = Command.deliver
command_id (query p) = Command.query
command_id (query_resp p) = Command.query_resp
command_id (cancel p) = Command.cancel
command_id (cancel_resp p) = Command.cancel_resp
command_id (active_test p) = Command.active_test
command_id (active_test_resp p) = Command.active_test_resp

unfoldable pub encode_pdu : Pdu → Put CodecError
encode_pdu (connect p) = encode_connect p
encode_pdu (connect_resp p) = encode_connect_resp p
encode_pdu (terminate p) = encode_terminate p
encode_pdu (terminate_resp p) = encode_terminate_resp p
encode_pdu (submit p) = encode_submit p
encode_pdu (submit_resp p) = encode_submit_resp p
encode_pdu (deliver p) = encode_deliver p
encode_pdu (deliver_resp p) = encode_deliver_resp p
encode_pdu (submit_v20 p) = encode_submit_v20 p
encode_pdu (deliver_v20 p) = encode_deliver_v20 p
encode_pdu (query p) = encode_query p
encode_pdu (query_resp p) = encode_query_resp p
encode_pdu (cancel p) = encode_cancel p
encode_pdu (cancel_resp p) = encode_cancel_resp p
encode_pdu (active_test p) = encode_active_test p
encode_pdu (active_test_resp p) = encode_active_test_resp p

-- The capacity that is reserved for a body.
unfoldable pub encoded_size : Pdu → ℕ
encoded_size (connect p) = connect_size
encoded_size (connect_resp p) = connect_resp_size
encoded_size (terminate p) = 0
encoded_size (terminate_resp p) = 0
encoded_size (submit p) = submit_size p
encoded_size (submit_resp p) = submit_resp_size
encoded_size (deliver p) = deliver_size p
encoded_size (deliver_resp p) = deliver_resp_size
encoded_size (submit_v20 p) = submit_v20_size p + 8
encoded_size (deliver_v20 p) = deliver_v20_size p + 8
encoded_size (query p) = query_size
encoded_size (query_resp p) = query_resp_size
encoded_size (cancel p) = cancel_size
encoded_size (cancel_resp p) = cancel_resp_size
encoded_size (active_test p) = 0
encoded_size (active_test_resp p) = active_test_resp_size

-- The three numbers of a header in front of a body: `copy_from_slice` into the first 12 bytes.
unfoldable pub with_header : CommandId → ℕ → List ℕ → List ℕ
with_header id seq body =
    u32_be ((header_size + length body) % u32_mod) ++ (u32_be (to_u32 id) ++ (u32_be seq ++ body))

-- `err e` is the panic of `expect` on the error `e`.
unfoldable pub to_pdu_bytes : Pdu → ℕ → Put CodecError
to_pdu_bytes p seq = encode_pdu p >>= λ body. ok (with_header (command_id p) seq body)
