-- ===== src/Sgip/Pdu.antt =====
-- crates/rsms-codec-sgip/src/codec.rs: the bodies as one type and the frames made of them.
use rsms.Common.{ℕ, ◌+◌, ◌%◌, ◌≡◌, length, ◌>>=◌}
use rsms.Common.Bytes.{u32_mod}
use rsms.Wire.Error.{CodecError}
use rsms.Wire.Fields.{Get, Put, ◌⊕◌, pure, put_slice}
use rsms.Wire.Fields
use rsms.Wire.Whole.{Whole, Trip-Whole, Whole-map}
use rsms.Sgip.Command
use rsms.Sgip.Command.{CommandId}
use rsms.Sgip.Sequence.{SgipSequence}
use rsms.Sgip.PduHeader.{PduHeader, header_size, encode_header}
use rsms.Sgip.Bind.{
  Bind, BindResp, encode_bind, encode_bind_resp, decode_bind, decode_bind_resp, bind_size,
  bind-Trip, IsBind, bind_resp_size, bind_resp-Trip, IsBindResp,
}
use rsms.Sgip.Unbind.{
  Unbind, UnbindResp, encode_unbind, encode_unbind_resp, decode_unbind, decode_unbind_resp,
  unbind-Whole, unbind_resp-Whole,
}
use rsms.Sgip.Submit.{
  Submit, SubmitResp, encode_submit, encode_submit_resp, decode_submit, decode_submit_resp,
  submit_size, submit-Trip, IsSubmit, submit_resp_size, submit_resp-Trip, IsSubmitResp,
}
use rsms.Sgip.Deliver.{
  Deliver, DeliverResp, encode_deliver, encode_deliver_resp, decode_deliver, decode_deliver_resp,
  deliver_size, deliver-Trip, IsDeliver, deliver_resp_size, deliver_resp-Trip, IsDeliverResp,
}
use rsms.Sgip.Report.{
  Report, ReportResp, Trace, TraceResp, encode_report, encode_report_resp, encode_trace,
  encode_trace_resp, decode_report, decode_report_resp, decode_trace, decode_trace_resp,
  report_size, report-Trip, IsReport, report_resp_size, report_resp-Trip, IsReportResp, trace_size,
  trace-Trip, IsTrace, trace_resp_size, trace_resp-Trip, IsTraceResp,
}

pub data Pdu : Type 0 where
  bind : Bind → Pdu
  bind_resp : BindResp → Pdu
  unbind : Unbind → Pdu
  unbind_resp : UnbindResp → Pdu
  submit : Submit → Pdu
  submit_resp : SubmitResp → Pdu
  deliver : Deliver → Pdu
  deliver_resp : DeliverResp → Pdu
  report : Report → Pdu
  report_resp : ReportResp → Pdu
  trace : Trace → Pdu
  trace_resp : TraceResp → Pdu

unfoldable pub command_id : Pdu → CommandId
command_id (bind p) = Command.bind
command_id (bind_resp p) = Command.bind_resp
command_id (unbind p) = Command.unbind
command_id (unbind_resp p) = Command.unbind_resp
command_id (submit p) = Command.submit
command_id (submit_resp p) = Command.submit_resp
command_id (deliver p) = Command.deliver
command_id (deliver_resp p) = Command.deliver_resp
command_id (report p) = Command.report
command_id (report_resp p) = Command.report_resp
command_id (trace p) = Command.trace
command_id (trace_resp p) = Command.trace_resp

-- `encode` and `encoded_size` of the body, and `decode` of the type with a command, made a `Pdu`.
unfoldable pub encode_pdu : Pdu → Put CodecError
encode_pdu (bind p) = encode_bind p
encode_pdu (bind_resp p) = encode_bind_resp p
encode_pdu (unbind p) = encode_unbind p
encode_pdu (unbind_resp p) = encode_unbind_resp p
encode_pdu (submit p) = encode_submit p
encode_pdu (submit_resp p) = encode_submit_resp p
encode_pdu (deliver p) = encode_deliver p
encode_pdu (deliver_resp p) = encode_deliver_resp p
encode_pdu (report p) = encode_report p
encode_pdu (report_resp p) = encode_report_resp p
encode_pdu (trace p) = encode_trace p
encode_pdu (trace_resp p) = encode_trace_resp p

unfoldable pub encoded_size : Pdu → ℕ
encoded_size (bind p) = bind_size
encoded_size (bind_resp p) = bind_resp_size
encoded_size (unbind p) = 0
encoded_size (unbind_resp p) = 0
encoded_size (submit p) = submit_size p
encoded_size (submit_resp p) = submit_resp_size
encoded_size (deliver p) = deliver_size p
encoded_size (deliver_resp p) = deliver_resp_size
encoded_size (report p) = report_size
encoded_size (report_resp p) = report_resp_size
encoded_size (trace p) = trace_size
encoded_size (trace_resp p) = trace_resp_size

unfoldable pub decode_pdu : CommandId → PduHeader → Get CodecError Pdu
decode_pdu Command.bind h = Fields.◌>>=◌ (decode_bind h) (λ p. pure (bind p))
decode_pdu Command.bind_resp h = Fields.◌>>=◌ (decode_bind_resp h) (λ p. pure (bind_resp p))
decode_pdu Command.unbind h = Fields.◌>>=◌ (decode_unbind h) (λ p. pure (unbind p))
decode_pdu Command.unbind_resp h = Fields.◌>>=◌ (decode_unbind_resp h) (λ p. pure (unbind_resp p))
decode_pdu Command.submit h = Fields.◌>>=◌ (decode_submit h) (λ p. pure (submit p))
decode_pdu Command.submit_resp h = Fields.◌>>=◌ (decode_submit_resp h) (λ p. pure (submit_resp p))
decode_pdu Command.deliver h = Fields.◌>>=◌ (decode_deliver h) (λ p. pure (deliver p))
decode_pdu Command.deliver_resp h =
    Fields.◌>>=◌ (decode_deliver_resp h) (λ p. pure (deliver_resp p))
decode_pdu Command.report h = Fields.◌>>=◌ (decode_report h) (λ p. pure (report p))
decode_pdu Command.report_resp h = Fields.◌>>=◌ (decode_report_resp h) (λ p. pure (report_resp p))
decode_pdu Command.trace h = Fields.◌>>=◌ (decode_trace h) (λ p. pure (trace p))
decode_pdu Command.trace_resp h = Fields.◌>>=◌ (decode_trace_resp h) (λ p. pure (trace_resp p))

-- The header with the length of the whole, which the code writes last, in front of the body; `err e`
-- is the panic of `expect` on the error `e`.
unfoldable pub to_pdu_bytes : Pdu → SgipSequence → Put CodecError
to_pdu_bytes p s = encode_pdu p >>= λ body.
    encode_header (record {
      total_length = (header_size + length body) % u32_mod;
      command_id = command_id p;
      sequence = s;
    })
    ⊕ put_slice body

-- A body whose fields fit the wire.
pub data IsPdu : Pdu → Type 0 where
  is_bind : (p : Bind) → IsBind p → IsPdu (bind p)
  is_bind_resp : (p : BindResp) → IsBindResp p → IsPdu (bind_resp p)
  is_unbind : (p : Unbind) → IsPdu (unbind p)
  is_unbind_resp : (p : UnbindResp) → IsPdu (unbind_resp p)
  is_submit : (p : Submit) → IsSubmit p → IsPdu (submit p)
  is_submit_resp : (p : SubmitResp) → IsSubmitResp p → IsPdu (submit_resp p)
  is_deliver : (p : Deliver) → IsDeliver p → IsPdu (deliver p)
  is_deliver_resp : (p : DeliverResp) → IsDeliverResp p → IsPdu (deliver_resp p)
  is_report : (p : Report) → IsReport p → IsPdu (report p)
  is_report_resp : (p : ReportResp) → IsReportResp p → IsPdu (report_resp p)
  is_trace : (p : Trace) → IsTrace p → IsPdu (trace p)
  is_trace_resp : (p : TraceResp) → IsTraceResp p → IsPdu (trace_resp p)

-- A body that fits the wire is written in as many bytes as it announces, and the decoder of its
-- command reads it back under a header with that length.
pub decode_pdu-encode :
    (p : Pdu) (h : PduHeader)
    → IsPdu p
    → h.total_length ≡ 20 + encoded_size p
    → Whole (encode_pdu p) (decode_pdu (command_id p) h) p (encoded_size p)
unfolding encode_pdu decode_pdu command_id encoded_size
decode_pdu-encode _ h (is_bind p fits) q = Whole-map bind (Trip-Whole (bind-Trip p h fits q))
decode_pdu-encode _ h (is_bind_resp p fits) q =
    Whole-map bind_resp (Trip-Whole (bind_resp-Trip p h fits q))
decode_pdu-encode _ h (is_unbind p) q = Whole-map unbind (unbind-Whole p h q)
decode_pdu-encode _ h (is_unbind_resp p) q = Whole-map unbind_resp (unbind_resp-Whole p h q)
decode_pdu-encode _ h (is_submit p fits) q = Whole-map submit (Trip-Whole (submit-Trip p h fits q))
decode_pdu-encode _ h (is_submit_resp p fits) q =
    Whole-map submit_resp (Trip-Whole (submit_resp-Trip p h fits q))
decode_pdu-encode _ h (is_deliver p fits) q =
    Whole-map deliver (Trip-Whole (deliver-Trip p h fits q))
decode_pdu-encode _ h (is_deliver_resp p fits) q =
    Whole-map deliver_resp (Trip-Whole (deliver_resp-Trip p h fits q))
decode_pdu-encode _ h (is_report p fits) q = Whole-map report (Trip-Whole (report-Trip p h fits q))
decode_pdu-encode _ h (is_report_resp p fits) q =
    Whole-map report_resp (Trip-Whole (report_resp-Trip p h fits q))
decode_pdu-encode _ h (is_trace p fits) q = Whole-map trace (Trip-Whole (trace-Trip p h fits q))
decode_pdu-encode _ h (is_trace_resp p fits) q =
    Whole-map trace_resp (Trip-Whole (trace_resp-Trip p h fits q))
