-- ===== src/Sgip/Message/Bodies.antt =====
-- The bodies as the decoder of whole messages reads them back: crates/rsms-codec-sgip/src/message.rs.
use rsms.Common.{
  ℕ, ◌+◌, ◌%◌, ◌<◌, ◌≡◌, refl, sym, subst, ◌∙◌, true, false, List, [], ◌∷◌, ◌++◌, ltb, leb,
  if◌then◌else◌, length, length-append, take, drop, take-append, drop-append, Result, ok, arith,
}
use rsms.Common.Bytes.{u32_mod}
use rsms.Wire.Error.{CodecError, incomplete}
use rsms.Wire.Fields.{Get, Put, ◌>>=◌, ◌⊕◌, put_u32, put_slice, put_padded, put_pstring, trim_end}
use rsms.Wire.Trip.{
  Trip, Trip-pure, Trip-seq, Trip-put_check, Trip-u8, Trip-u32, Trip-counted, Trip-resize,
  Trip-unassoc,
}
use rsms.Wire.Strings.{FitsField, FitsPadded, Trip-pstring}
use rsms.Wire.Body.{put_content_u32}
use rsms.Core.Pstring.{trim, encode_pstring}
use rsms.Sgip.Sequence.{SgipSequence, IsSequence, encode_sequence}
use rsms.Sgip.Bind.{
  Bind, BindResp, IsBind, IsBindResp, encode_bind, encode_bind_resp, bind_size, bind_resp_size,
  is_nul,
}
use rsms.Sgip.Submit.{Submit, IsSubmit, encode_submit, submit_size}
use rsms.Sgip.Deliver.{Deliver, IsDeliver, encode_deliver, deliver_size}
use rsms.Sgip.Report.{
  Report, Trace, TraceResp, IsReport, IsTrace, IsTraceResp, encode_report, encode_trace,
  encode_trace_resp, report_size, trace_size, trace_resp_size,
}
use rsms.Sgip.Message.Readers.{
  ParseError, incomplete_pdu, end_of_file, unexpected_eof, u32, pstring, opt_reserve, opt_content,
  parse_sequence, parse_bind, parse_bind_resp, parse_submit, parse_deliver, parse_report,
  parse_trace, parse_trace_resp,
}

pub at_sequence : (s : SgipSequence) → IsSequence s → Trip (encode_sequence s) parse_sequence s 12
unfolding encode_sequence parse_sequence
at_sequence s fits = Trip-seq _ (Trip-u32 end_of_file fits.node_id) (
    Trip-seq _ (Trip-u32 end_of_file fits.timestamp)
      (Trip-seq _ (Trip-u32 end_of_file fits.number) (Trip-pure s)))

reads_opt :
    (v rest : List ℕ) (n : ℕ) (other : Result ParseError (List ℕ × List ℕ))
    → length v ≡ n
    → (if leb n (length (v ++ rest)) then ok (take n (v ++ rest), drop n (v ++ rest)) else other)
      ≡ ok (v, rest)
reads_opt v rest n other h =
    let enough : leb (length v) (length (v ++ rest)) ≡ true =
      ground (arith, length-append v rest) in
    rw (← h, take-append v rest, drop-append v rest) (rw enough refl)

at_reserve : {v : List ℕ} → length v ≡ 8 → Trip {E = CodecError} (put_slice v) opt_reserve v 8
unfolding put_slice opt_reserve
at_reserve {v} h = record {
  bytes = v;
  written = refl;
  width = h;
  reads = λ rest. reads_opt v rest 8 _ h;
}

opt_content-Trip :
    (v : List ℕ) → Trip {E = CodecError} (put_slice v) (opt_content (length v)) v (length v)
unfolding put_slice opt_content
opt_content-Trip v = record {
  bytes = v;
  written = refl;
  width = refl;
  reads = λ rest. reads_opt v rest (length v) _ refl;
}

trim_end-nul : (v : List ℕ) → trim_end is_nul v ≡ trim v
unfolding trim_end trim is_nul
trim_end-nul [] = refl
trim_end-nul (b ∷ bs) = rw (trim_end-nul bs, trim_end) refl

at_padded :
    {n : ℕ} {v : List ℕ}
    → FitsPadded is_nul n v
    → Trip {E = CodecError} (put_padded v n) (pstring n) v n
unfolding put_padded put_pstring encode_pstring
at_padded {n} {v} fits =
    let short : ltb n (length v) ≡ false = ground (arith, fits.fits) in
    let field : FitsField n v = record {
      utf8 = fits.utf8;
      trimmed = sym (trim_end-nul v) ∙ fits.trimmed;
      fits = fits.fits;
    } in
    let same : put_pstring (λ x. incomplete) v n "" ≡ put_padded v n = rw short refl in
    subst (λ (w : Put CodecError). Trip w (pstring n) v n) same
      (Trip-pstring unexpected_eof (λ x. incomplete) "" field)

content-Trip :
    (c : List ℕ)
    → length c < u32_mod
    → Trip (put_content_u32 "message_content" c) (u32 >>= opt_content) c (4 + length c)
unfolding put_content_u32
content-Trip c small =
    let short : ltb 4294967295 (length c) ≡ false = ground arith in
    let same : length c % u32_mod ≡ length c = omega arith in
    Trip-put_check _ short (
      subst
        (λ (n : ℕ).
          Trip {E = CodecError} (put_u32 n ⊕ put_slice c) (u32 >>= opt_content) c (4 + length c))
        (sym same) (Trip-seq _ (Trip-u32 incomplete_pdu small) (opt_content-Trip c)))

-- The length and the content in front of what follows.
at_opt_content :
    {A : Type 0} {w : Put CodecError} {x : A} {n : ℕ} (f : List ℕ → Get ParseError A) (c : List ℕ)
    → length c < u32_mod
    → Trip w (f c) x n
    → Trip
        (put_content_u32 "message_content" c ⊕ w)
        (u32 >>= λ k. (opt_content k >>= f))
        x
        (4 + length c + n)
at_opt_content f c small t = Trip-unassoc _ _ _ (Trip-seq f (content-Trip c small) t)

pub parse_bind-Trip : (p : Bind) → IsBind p → Trip (encode_bind p) parse_bind p (bind_size)
unfolding encode_bind parse_bind
parse_bind-Trip p fits =
    let name : ltb 15 (length p.login_name) ≡ false = ground (arith, fits.login_name_short) in
    let password : ltb 15 (length p.login_password) ≡ false =
      ground (arith, fits.login_password_short) in
    Trip-put_check _ name (
      Trip-put_check _ password (
        Trip-seq _ (Trip-u8 incomplete_pdu p.login_type) (
          Trip-seq _ (at_padded fits.login_name) (
            Trip-seq _ (at_padded fits.login_password)
              (Trip-seq _ (at_reserve fits.reserve) (Trip-pure p))))))

pub parse_bind_resp-Trip :
    (p : BindResp) → IsBindResp p → Trip (encode_bind_resp p) parse_bind_resp p (bind_resp_size)
unfolding encode_bind_resp parse_bind_resp
parse_bind_resp-Trip p fits =
    Trip-seq _ (Trip-u8 incomplete_pdu p.result)
      (Trip-seq _ (at_reserve fits.reserve) (Trip-pure p))

pub parse_submit-Trip :
    (p : Submit) → IsSubmit p → Trip (encode_submit p) parse_submit p (submit_size p)
unfolding encode_submit parse_submit submit_size
parse_submit-Trip p fits =
    Trip-resize
      (Trip-seq _ (Trip-pstring unexpected_eof _ _ fits.sp_number) (
        Trip-seq _ (Trip-pstring unexpected_eof _ _ fits.charge_number) (
          Trip-seq _ (Trip-u8 incomplete_pdu p.user_count) (
            Trip-seq _
              (Trip-counted (FitsField 21) _ fits.user_count
                (λ x fit. Trip-pstring unexpected_eof _ _ fit) fits.user_numbers)
              (Trip-seq _ (Trip-pstring unexpected_eof _ _ fits.corp_id) (
                Trip-seq _ (Trip-pstring unexpected_eof _ _ fits.service_type) (
                  Trip-seq _ (Trip-u8 incomplete_pdu p.fee_type) (
                    Trip-seq _ (Trip-pstring unexpected_eof _ _ fits.fee_value) (
                      Trip-seq _ (Trip-pstring unexpected_eof _ _ fits.given_value) (
                        Trip-seq _ (Trip-u8 incomplete_pdu p.agent_flag) (
                          Trip-seq _ (Trip-u8 incomplete_pdu p.morelate_to_mt_flag) (
                            Trip-seq _ (Trip-u8 incomplete_pdu p.priority) (
                              Trip-seq _ (Trip-pstring unexpected_eof _ _ fits.expire_time) (
                                Trip-seq _ (Trip-pstring unexpected_eof _ _ fits.schedule_time) (
                                  Trip-seq _ (Trip-u8 incomplete_pdu p.report_flag) (
                                    Trip-seq _ (Trip-u8 incomplete_pdu p.tppid) (
                                      Trip-seq _ (Trip-u8 incomplete_pdu p.tpudhi) (
                                        Trip-seq _ (Trip-u8 incomplete_pdu p.msg_fmt) (
                                          Trip-seq _ (Trip-u8 incomplete_pdu p.message_type) (
                                            at_opt_content _ p.message_content fits.message_content
                                              (Trip-seq _ (at_reserve fits.reserve)
                                                (Trip-pure p))))))))))))))))))))))
      (omega arith)

pub parse_deliver-Trip :
    (p : Deliver) → IsDeliver p → Trip (encode_deliver p) parse_deliver p (deliver_size p)
unfolding encode_deliver parse_deliver deliver_size
parse_deliver-Trip p fits =
    Trip-resize
      (Trip-seq _ (Trip-pstring unexpected_eof _ _ fits.user_number) (
        Trip-seq _ (Trip-pstring unexpected_eof _ _ fits.sp_number) (
          Trip-seq _ (Trip-u8 incomplete_pdu p.tppid) (
            Trip-seq _ (Trip-u8 incomplete_pdu p.tpudhi) (
              Trip-seq _ (Trip-u8 incomplete_pdu p.msg_fmt) (
                at_opt_content _ p.message_content fits.message_content
                  (Trip-seq _ (at_reserve fits.reserve) (Trip-pure p))))))))
      (omega arith)

pub parse_report-Trip :
    (p : Report) → IsReport p → Trip (encode_report p) parse_report p (report_size)
unfolding encode_report parse_report
parse_report-Trip p fits = Trip-seq _ (at_sequence p.submit_sequence fits.submit_sequence) (
    Trip-seq _ (Trip-u8 incomplete_pdu p.report_type) (
      Trip-seq _ (Trip-pstring unexpected_eof _ _ fits.user_number) (
        Trip-seq _ (Trip-u8 incomplete_pdu p.state) (
          Trip-seq _ (Trip-u8 incomplete_pdu p.error_code)
            (Trip-seq _ (at_reserve fits.reserve) (Trip-pure p))))))

pub parse_trace-Trip : (p : Trace) → IsTrace p → Trip (encode_trace p) parse_trace p (trace_size)
unfolding encode_trace parse_trace
parse_trace-Trip p fits =
    Trip-seq _ (Trip-pstring unexpected_eof _ _ fits.trace_value)
      (Trip-seq _ (at_reserve fits.reserve) (Trip-pure p))

pub parse_trace_resp-Trip :
    (p : TraceResp)
    → IsTraceResp p
    → Trip (encode_trace_resp p) parse_trace_resp p (trace_resp_size)
unfolding encode_trace_resp parse_trace_resp
parse_trace_resp-Trip p fits = Trip-seq _ (Trip-u32 incomplete_pdu fits.result) (
    Trip-seq _ (Trip-pstring unexpected_eof _ _ fits.trace_result)
      (Trip-seq _ (at_reserve fits.reserve) (Trip-pure p)))
