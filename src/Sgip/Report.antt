-- ===== src/Sgip/Report.antt =====
-- crates/rsms-codec-sgip/src/datatypes/deliver.rs: reports, traces and their responses.
use rsms.Common.{ℕ, ◌+◌, ◌-◌, ◌%◌, ◌<◌, ◌≡◌, refl, List, length, arith, replicate}
use rsms.Common.Bytes.{u32_mod, u8_mod}
use rsms.Wire.Error.{CodecError, incomplete}
use rsms.Wire.Fields.{Get, Put, ◌>>=◌, ◌>>◌, ◌⊕◌, pure, done, ensure, put_u8, put_u32, put_slice}
use rsms.Wire.Trip.{
  Trip, Trip-pure, Trip-seq, Trip-u8, Trip-u32, Trip-bytes, Trip-ensure, Trip-resize,
}
use rsms.Wire.Strings.{FitsField}
use rsms.Wire.Body.{u8, u32, slice, pstring, put_pstring, at_pstring, at_narrow}
use rsms.Sgip.PduHeader.{PduHeader, header_size}
use rsms.Sgip.Sequence.{SgipSequence, IsSequence, encode_sequence, decode_sequence, sequence-Trip}

pub record Report : Type 0 where
  pub submit_sequence : SgipSequence
  pub report_type : ℕ
  pub user_number : List ℕ
  pub state : ℕ
  pub error_code : ℕ
  pub reserve : List ℕ

abbrev pub report_size : ℕ
report_size = 12 + 1 + 21 + 1 + 1 + 8

unfoldable pub encode_report : Report → Put CodecError
encode_report p =
    encode_sequence p.submit_sequence
    ⊕ put_u8 p.report_type
    ⊕ put_pstring p.user_number 21 "user_number"
    ⊕ put_u8 p.state
    ⊕ put_u8 p.error_code
    ⊕ put_slice p.reserve
    ⊕ done

unfoldable pub decode_report : PduHeader → Get CodecError Report
decode_report h = do
  ensure incomplete report_size
  submit_sequence ← decode_sequence
  report_type ← u8
  user_number ← pstring 21
  state ← u8
  error_code ← u8
  reserve ← slice 8
  pure (record {
    submit_sequence = submit_sequence;
    report_type = report_type;
    user_number = user_number;
    state = state;
    error_code = error_code;
    reserve = reserve;
  })

-- A report whose fields fit the wire.
pub record IsReport (p : Report) : Type 0 where
  pub submit_sequence : IsSequence p.submit_sequence
  pub user_number : FitsField 21 p.user_number
  pub reserve : length p.reserve ≡ 8

pub report-Trip :
    (p : Report) (h : PduHeader)
    → IsReport p
    → h.total_length ≡ header_size + report_size
    → Trip (encode_report p) (decode_report h) p (report_size)
unfolding encode_report decode_report
report-Trip p h fits q = Trip-ensure report_size incomplete (omega arith) (
    Trip-seq _ (sequence-Trip p.submit_sequence fits.submit_sequence) (
      Trip-seq _ (Trip-u8 incomplete p.report_type) (
        Trip-seq _ (at_pstring _ fits.user_number) (
          Trip-seq _ (Trip-u8 incomplete p.state) (
            Trip-seq _ (Trip-u8 incomplete p.error_code)
              (Trip-seq _ (Trip-bytes incomplete fits.reserve) (Trip-pure p)))))))

pub record ReportResp : Type 0 where
  pub result : ℕ

abbrev pub report_resp_size : ℕ
report_resp_size = 1 + 8

unfoldable pub encode_report_resp : ReportResp → Put CodecError
encode_report_resp p = put_u8 (p.result % u8_mod) ⊕ put_slice (replicate 8 0) ⊕ done

unfoldable pub decode_report_resp : PduHeader → Get CodecError ReportResp
decode_report_resp h = do
  ensure incomplete report_resp_size
  result ← u8
  reserve ← slice 8
  pure (record { result = result })

-- A response whose fields fit the wire.
pub record IsReportResp (p : ReportResp) : Type 0 where
  pub result : p.result < 256

pub report_resp-Trip :
    (p : ReportResp) (h : PduHeader)
    → IsReportResp p
    → h.total_length ≡ header_size + report_resp_size
    → Trip (encode_report_resp p) (decode_report_resp h) p (report_resp_size)
unfolding encode_report_resp decode_report_resp
report_resp-Trip p h fits q = Trip-ensure report_resp_size incomplete (omega arith) (
    Trip-seq _ (at_narrow p.result fits.result)
      (Trip-seq _ (Trip-bytes incomplete refl) (Trip-pure p)))

pub record Trace : Type 0 where
  pub trace_value : List ℕ
  pub reserve : List ℕ

abbrev pub trace_size : ℕ
trace_size = 21 + 8

unfoldable pub encode_trace : Trace → Put CodecError
encode_trace p = put_pstring p.trace_value 21 "trace_value" ⊕ put_slice p.reserve ⊕ done

unfoldable pub decode_trace : PduHeader → Get CodecError Trace
decode_trace h = do
  ensure incomplete (h.total_length - header_size)
  trace_value ← pstring 21
  reserve ← slice 8
  pure (record { trace_value = trace_value; reserve = reserve })

-- A trace whose fields fit the wire.
pub record IsTrace (p : Trace) : Type 0 where
  pub trace_value : FitsField 21 p.trace_value
  pub reserve : length p.reserve ≡ 8

pub trace-Trip :
    (p : Trace) (h : PduHeader)
    → IsTrace p
    → h.total_length ≡ header_size + trace_size
    → Trip (encode_trace p) (decode_trace h) p (trace_size)
unfolding encode_trace decode_trace
trace-Trip p h fits q = Trip-ensure (h.total_length - header_size) incomplete (omega arith) (
    Trip-resize
      (Trip-seq _ (at_pstring _ fits.trace_value)
        (Trip-seq _ (Trip-bytes incomplete fits.reserve) (Trip-pure p)))
      (omega arith))

pub record TraceResp : Type 0 where
  pub result : ℕ
  pub trace_result : List ℕ
  pub reserve : List ℕ

abbrev pub trace_resp_size : ℕ
trace_resp_size = 4 + 21 + 8

unfoldable pub encode_trace_resp : TraceResp → Put CodecError
encode_trace_resp p =
    put_u32 p.result ⊕ put_pstring p.trace_result 21 "trace_result" ⊕ put_slice p.reserve ⊕ done

unfoldable pub decode_trace_resp : PduHeader → Get CodecError TraceResp
decode_trace_resp h = do
  ensure incomplete (h.total_length - header_size)
  result ← u32
  trace_result ← pstring 21
  reserve ← slice 8
  pure (record { result = result; trace_result = trace_result; reserve = reserve })

-- A response whose fields fit the wire.
pub record IsTraceResp (p : TraceResp) : Type 0 where
  pub result : p.result < u32_mod
  pub trace_result : FitsField 21 p.trace_result
  pub reserve : length p.reserve ≡ 8

pub trace_resp-Trip :
    (p : TraceResp) (h : PduHeader)
    → IsTraceResp p
    → h.total_length ≡ header_size + trace_resp_size
    → Trip (encode_trace_resp p) (decode_trace_resp h) p (trace_resp_size)
unfolding encode_trace_resp decode_trace_resp
trace_resp-Trip p h fits q = Trip-ensure (h.total_length - header_size) incomplete (omega arith) (
    Trip-resize
      (Trip-seq _ (Trip-u32 incomplete fits.result) (
        Trip-seq _ (at_pstring _ fits.trace_result)
          (Trip-seq _ (Trip-bytes incomplete fits.reserve) (Trip-pure p))))
      (omega arith))
