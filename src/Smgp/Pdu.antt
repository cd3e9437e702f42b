-- ===== src/Smgp/Pdu.antt =====
-- crates/rsms-codec-smgp/src/codec.rs: the bodies as one type and the frames made of them.
use rsms.Common.{ℕ, ◌+◌, ◌%◌, List, length, ◌>>=◌}
use rsms.Common.Bytes.{u32_mod}
use rsms.Wire.Error.{CodecError}
use rsms.Wire.Fields.{Put, ◌⊕◌, put_slice}
use rsms.Smgp.Command
use rsms.Smgp.Command.{CommandId}
use rsms.Smgp.PduHeader.{header_size, encode_header}
use rsms.Smgp.Login.{Login, LoginResp, encode_login, encode_login_resp, login_size, login_resp_size}
use rsms.Smgp.Submit.{
  Submit, SubmitResp, encode_submit, encode_submit_resp, submit_size, submit_resp_size,
}
use rsms.Smgp.Deliver.{
  Deliver, DeliverResp, encode_deliver, encode_deliver_resp, deliver_size, deliver_resp_size,
}
use rsms.Smgp.Query.{Query, QueryResp, encode_query, encode_query_resp, query_size, query_resp_size}
use rsms.Smgp.Simple.{
  ActiveTest, ActiveTestResp, Exit, ExitResp, encode_active_test, encode_active_test_resp,
  encode_exit, encode_exit_resp,
}

pub data Pdu : Type 0 where
  login : Login → Pdu
  login_resp : LoginResp → Pdu
  submit : Submit → Pdu
  submit_resp : SubmitResp → Pdu
  deliver : Deliver → Pdu
  deliver_resp : DeliverResp → Pdu
  query : Query → Pdu
  query_resp : QueryResp → Pdu
  active_test : ActiveTest → Pdu
  active_test_resp : ActiveTestResp → Pdu
  exit : Exit → Pdu
  exit_resp : ExitResp → Pdu

unfoldable pub command_id : Pdu → CommandId
command_id (login p) = Command.login
command_id (login_resp p) = Command.login_resp
command_id (submit p) = Command.submit
command_id (submit_resp p) = Command.submit_resp
command_id (deliver p) = Command.deliver
command_id (deliver_resp p) = Command.deliver_resp
command_id (query p) = Command.query
command_id (query_resp p) = Command.query_resp
command_id (active_test p) = Command.active_test
command_id (active_test_resp p) = Command.active_test_resp
command_id (exit p) = Command.exit
command_id (exit_resp p) = Command.exit_resp

unfoldable pub encode_pdu : Pdu → Put CodecError
encode_pdu (login p) = encode_login p
encode_pdu (login_resp p) = encode_login_resp p
encode_pdu (submit p) = encode_submit p
encode_pdu (submit_resp p) = encode_submit_resp p
encode_pdu (deliver p) = encode_deliver p
encode_pdu (deliver_resp p) = encode_deliver_resp p
encode_pdu (query p) = encode_query p
encode_pdu (query_resp p) = encode_query_resp p
encode_pdu (active_test p) = encode_active_test p
encode_pdu (active_test_resp p) = encode_active_test_resp p
encode_pdu (exit p) = encode_exit p
encode_pdu (exit_resp p) = encode_exit_resp p

-- The capacity that is reserved for a body.
unfoldable pub encoded_size : Pdu → ℕ
encoded_size (login p) = login_size
encoded_size (login_resp p) = login_resp_size
encoded_size (submit p) = submit_size p
encoded_size (submit_resp p) = submit_resp_size
encoded_size (deliver p) = deliver_size p
encoded_size (deliver_resp p) = deliver_resp_size
encoded_size (query p) = query_size
encoded_size (query_resp p) = query_resp_size
encoded_size (active_test p) = 0
encoded_size (active_test_resp p) = 0
encoded_size (exit p) = 0
encoded_size (exit_resp p) = 0

-- The three numbers that `copy_from_slice` puts into the first 12 bytes, in front of the body.
unfoldable pub with_header : CommandId → ℕ → List ℕ → Put CodecError
with_header id seq body =
    encode_header (record {
      total_length = (header_size + length body) % u32_mod;
      command_id = id;
      sequence_id = seq;
    })
    ⊕ put_slice body

-- `err e` is the panic of `expect` on the error `e`.
unfoldable pub to_pdu_bytes : Pdu → ℕ → Put CodecError
to_pdu_bytes p seq = encode_pdu p >>= λ body. with_header (command_id p) seq body
