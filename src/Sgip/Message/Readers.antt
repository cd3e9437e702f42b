-- ===== src/Sgip/Message/Readers.antt =====
-- crates/rsms-codec-sgip/src/message.rs: the bodies as the decoder of whole messages reads them.
use rsms.Common.{ℕ, List, [], leb, if◌then◌else◌, length, take, drop, replicate, ok}
use rsms.Wire.Fields.{Get, ◌>>=◌, pure, get_u8, get_u32, get_many}
use rsms.Wire.Fields
use rsms.Sgip.Sequence.{SgipSequence}
use rsms.Sgip.Bind.{Bind, BindResp}
use rsms.Sgip.Submit.{Submit, SubmitResp}
use rsms.Sgip.Deliver.{Deliver, DeliverResp}
use rsms.Sgip.Report.{Report, Trace, TraceResp}

-- The texts of `RsmsError::Codec`, of which `end_of_file` is that of the `io::Error` of a sequence number
-- that is cut short, and `RsmsError::Io` of a string that is cut short.
pub data ParseError : Type 0 where
  buffer_too_short incomplete_pdu end_of_file unexpected_eof : ParseError
  invalid_sgip_length : ℕ → ParseError

abbrev pub u8 : Get ParseError ℕ
u8 = get_u8 incomplete_pdu

abbrev pub u32 : Get ParseError ℕ
u32 = get_u32 incomplete_pdu

abbrev pub pstring : ℕ → Get ParseError (List ℕ)
pstring n = Fields.get_pstring unexpected_eof n

-- Eight bytes, or zeros where fewer remain.
unfoldable pub opt_reserve : Get ParseError (List ℕ)
opt_reserve b = if leb 8 (length b) then ok (take 8 b, drop 8 b) else ok (replicate 8 0, b)

-- `n` bytes, or none where fewer remain.
unfoldable pub opt_content : ℕ → Get ParseError (List ℕ)
opt_content n b = if leb n (length b) then ok (take n b, drop n b) else ok ([], b)

-- `SgipSequence::decode(…).map_err(|e| RsmsError::Codec(e.to_string()))`
unfoldable pub parse_sequence : Get ParseError SgipSequence
parse_sequence = do
  node_id ← get_u32 end_of_file
  timestamp ← get_u32 end_of_file
  number ← get_u32 end_of_file
  pure (record { node_id = node_id; timestamp = timestamp; number = number })

unfoldable pub parse_bind : Get ParseError Bind
parse_bind = do
  login_type ← u8
  login_name ← pstring 16
  login_password ← pstring 16
  reserve ← opt_reserve
  pure (record {
    login_type = login_type;
    login_name = login_name;
    login_password = login_password;
    reserve = reserve;
  })

unfoldable pub parse_bind_resp : Get ParseError BindResp
parse_bind_resp = do
  result ← u8
  reserve ← opt_reserve
  pure (record { result = result; reserve = reserve })

unfoldable pub parse_submit : Get ParseError Submit
parse_submit = do
  sp_number ← pstring 21
  charge_number ← pstring 21
  user_count ← u8
  user_numbers ← get_many user_count (pstring 21)
  corp_id ← pstring 5
  service_type ← pstring 10
  fee_type ← u8
  fee_value ← pstring 6
  given_value ← pstring 6
  agent_flag ← u8
  morelate_to_mt_flag ← u8
  priority ← u8
  expire_time ← pstring 16
  schedule_time ← pstring 16
  report_flag ← u8
  tppid ← u8
  tpudhi ← u8
  msg_fmt ← u8
  message_type ← u8
  message_length ← u32
  message_content ← opt_content message_length
  reserve ← opt_reserve
  pure (record {
    sp_number = sp_number;
    charge_number = charge_number;
    user_count = user_count;
    user_numbers = user_numbers;
    corp_id = corp_id;
    service_type = service_type;
    fee_type = fee_type;
    fee_value = fee_value;
    given_value = given_value;
    agent_flag = agent_flag;
    morelate_to_mt_flag = morelate_to_mt_flag;
    priority = priority;
    expire_time = expire_time;
    schedule_time = schedule_time;
    report_flag = report_flag;
    tppid = tppid;
    tpudhi = tpudhi;
    msg_fmt = msg_fmt;
    message_type = message_type;
    message_content = message_content;
    reserve = reserve;
  })

unfoldable pub parse_submit_resp : Get ParseError SubmitResp
parse_submit_resp = do result ← u32; pure (record { result = result })

unfoldable pub parse_deliver : Get ParseError Deliver
parse_deliver = do
  user_number ← pstring 21
  sp_number ← pstring 21
  tppid ← u8
  tpudhi ← u8
  msg_fmt ← u8
  message_length ← u32
  message_content ← opt_content message_length
  reserve ← opt_reserve
  pure (record {
    user_number = user_number;
    sp_number = sp_number;
    tppid = tppid;
    tpudhi = tpudhi;
    msg_fmt = msg_fmt;
    message_content = message_content;
    reserve = reserve;
  })

unfoldable pub parse_deliver_resp : Get ParseError DeliverResp
parse_deliver_resp = do result ← u32; pure (record { result = result })

unfoldable pub parse_report : Get ParseError Report
parse_report = do
  submit_sequence ← parse_sequence
  report_type ← u8
  user_number ← pstring 21
  state ← u8
  error_code ← u8
  reserve ← opt_reserve
  pure (record {
    submit_sequence = submit_sequence;
    report_type = report_type;
    user_number = user_number;
    state = state;
    error_code = error_code;
    reserve = reserve;
  })

unfoldable pub parse_trace : Get ParseError Trace
parse_trace = do
  trace_value ← pstring 21
  reserve ← opt_reserve
  pure (record { trace_value = trace_value; reserve = reserve })

unfoldable pub parse_trace_resp : Get ParseError TraceResp
parse_trace_resp = do
  result ← u32
  trace_result ← pstring 21
  reserve ← opt_reserve
  pure (record { result = result; trace_result = trace_result; reserve = reserve })
