-- ===== src/Sgip/Message.antt =====
-- crates/rsms-codec-sgip/src/message.rs: the decoder of whole messages, which does not use the bodies'
-- own decoders. A body may lack its reserved bytes.
pub mod Readers
pub mod Bodies
use rsms.Common.{
  ℕ, ◌+◌, ◌-◌, ◌||◌, true, false, min, List, [], ltb, leb, ◌==◌, if◌then◌else◌, length, take, drop,
  replicate, Result, ok, err, ◌>>=◌, fail_if,
}
use rsms.Wire.Fields.{Get, pure, get_u8, get_u32, get_pstring, get_many}
use rsms.Wire.Fields
use rsms.Sgip.Sequence.{SgipSequence}
use rsms.Sgip.Bind.{Bind, BindResp}
use rsms.Sgip.Unbind.{Unbind, UnbindResp}
use rsms.Sgip.Unbind
use rsms.Sgip.Submit.{Submit, SubmitResp}
use rsms.Sgip.Deliver.{Deliver, DeliverResp}
use rsms.Sgip.Report.{Report, ReportResp, Trace, TraceResp}
use Readers.{
  ParseError, buffer_too_short, incomplete_pdu, unexpected_eof, invalid_sgip_length, u32,
  parse_sequence, parse_bind, parse_bind_resp, parse_submit, parse_submit_resp, parse_deliver,
  parse_deliver_resp, parse_report, parse_trace, parse_trace_resp,
}

pub data SgipMessage : Type 0 where
  bind : Bind → SgipMessage
  bind_resp : BindResp → SgipMessage
  unbind : Unbind → SgipMessage
  unbind_resp : UnbindResp → SgipMessage
  submit : Submit → SgipMessage
  submit_resp : SubmitResp → SgipMessage
  deliver : Deliver → SgipMessage
  deliver_resp : DeliverResp → SgipMessage
  report : Report → SgipMessage
  report_resp : ReportResp → SgipMessage
  trace : Trace → SgipMessage
  trace_resp : TraceResp → SgipMessage
  unknown : ℕ → List ℕ → SgipMessage

abbrev read_as :
    {A : Type 0} → Get ParseError A → (A → SgipMessage) → List ℕ → Result ParseError SgipMessage
read_as r into b = r b >>= λ (p, rest). ok (into p)

-- The `match` on the number of the command.
unfoldable pub parse_body : ℕ → List ℕ → Result ParseError SgipMessage
parse_body id b =
    if id == 0x00000001
    then read_as parse_bind bind b
    else if id == 0x80000001
    then read_as parse_bind_resp bind_resp b
    else if id == 0x00000002
    then ok (unbind Unbind.unbind)
    else if id == 0x80000002
    then ok (unbind_resp Unbind.unbind_resp)
    else if id == 0x00000003
    then read_as parse_submit submit b
    else if id == 0x80000003
    then read_as parse_submit_resp submit_resp b
    else if id == 0x00000004
    then read_as parse_deliver deliver b
    else if id == 0x80000004
    then read_as parse_deliver_resp deliver_resp b
    else if id == 0x00000005
    then read_as parse_report report b
    else if id == 0x80000005
    then ok (report_resp (record { result = 0 }))
    else if id == 0x00001000
    then read_as parse_trace trace b
    else if id == 0x80001000
    then read_as parse_trace_resp trace_resp b
    else ok (unknown id b)

unfoldable pub body_of : ℕ → List ℕ → List ℕ
body_of total buf =
    let body_end = min total (length buf) in
    if ltb 20 body_end then take (body_end - 20) (drop 20 buf) else []

-- The length, the number of the command and the sequence number, which is not used.
unfoldable pub parse_head : Get ParseError (ℕ × ℕ)
parse_head =
    Fields.◌>>=◌ u32
      (λ total. Fields.◌>>=◌ u32 (λ id. Fields.◌>>=◌ parse_sequence (λ sequence. pure (total, id))))

unfoldable pub decode_message : List ℕ → Result ParseError SgipMessage
decode_message buf = fail_if (ltb (length buf) 20) buffer_too_short >>= λ _.
    parse_head buf >>= λ ((total, id), rest).
    fail_if (ltb total 20 || ltb 100000 total) (invalid_sgip_length total) >>= λ _.
    parse_body id (body_of total buf)
