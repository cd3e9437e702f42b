-- ===== src/Sgip/ReadBack.antt =====
-- What the decoder of whole messages makes of the frames that the bodies are written in:
-- crates/rsms-codec-sgip/src/codec.rs and message.rs.
use rsms.Common.{
  ℕ, ◌+◌, ◌-◌, ◌*◌, ◌^◌, ◌%◌, ◌≤◌, ◌<◌, ◌≡◌, refl, ap, subst, ◌∙◌, false, true, min, List, [], ◌∷◌,
  ◌++◌, ltb, length, length-append, drop, drop-append, take_all, replicate, Result, ok, ◌>>=◌,
  arith,
}
use rsms.Common.Bytes.{u32_mod, u8_mod, from_u32_be}
use rsms.Wire.Error.{CodecError}
use rsms.Wire.Fields.{Get, Put, ◌⊕◌, pure, done, put_slice, put_u8, get_u32}
use rsms.Wire.Trip.{Trip, Trip-pure, Trip-seq, Trip-u32}
use rsms.Wire.Whole.{Whole, Trip-Whole, Whole-map}
use rsms.Sgip.Command
use rsms.Sgip.Command.{CommandId, to_u32, to_u32-bounded}
use rsms.Sgip.Sequence.{SgipSequence, IsSequence}
use rsms.Sgip.PduHeader.{PduHeader, encode_header}
use rsms.Sgip.Unbind
use rsms.Sgip.Unbind.{encode_unbind, encode_unbind_resp}
use rsms.Sgip.Bind.{bind_size, bind_resp_size}
use rsms.Sgip.Submit.{SubmitResp, encode_submit_resp, submit_resp_size, submit_size}
use rsms.Sgip.Deliver.{DeliverResp, encode_deliver_resp, deliver_resp_size, deliver_size}
use rsms.Sgip.Report.{
  ReportResp, encode_report_resp, report_resp_size, report_size, trace_size, trace_resp_size,
}
use rsms.Sgip.Pdu.{
  Pdu, IsPdu, is_bind, is_bind_resp, is_unbind, is_unbind_resp, is_submit, is_submit_resp,
  is_deliver, is_deliver_resp, is_report, is_report_resp, is_trace, is_trace_resp, encode_pdu,
  encoded_size, command_id, to_pdu_bytes,
}
use rsms.Sgip.Message
use rsms.Sgip.Message.{SgipMessage, parse_head, parse_body, body_of, decode_message}
use rsms.Sgip.Message.Readers.{
  ParseError, incomplete_pdu, u32, parse_submit_resp, parse_deliver_resp,
}
use rsms.Sgip.Message.Bodies.{
  at_sequence, parse_bind-Trip, parse_bind_resp-Trip, parse_submit-Trip, parse_deliver-Trip,
  parse_report-Trip, parse_trace-Trip, parse_trace_resp-Trip,
}

head-Trip :
    (h : PduHeader)
    → h.total_length < u32_mod
    → IsSequence h.sequence
    → Trip (encode_header h) parse_head (h.total_length, to_u32 h.command_id) 20
unfolding encode_header parse_head
head-Trip h small fits = Trip-seq _ (Trip-u32 incomplete_pdu small) (
    Trip-seq _ (Trip-u32 incomplete_pdu (to_u32-bounded h.command_id))
      (Trip-seq _ (at_sequence h.sequence fits) (Trip-pure (h.total_length, to_u32 h.command_id))))

body_of-frame :
    (body buf : List ℕ)
    → length buf ≡ 20 + length body
    → drop 20 buf ≡ body
    → body_of (20 + length body) buf ≡ body
unfolding body_of
body_of-frame [] buf width rest =
    let none_left : ltb 20 (min 20 (length buf)) ≡ false = ground arith in rw none_left refl
body_of-frame (b ∷ bs) buf width rest =
    let end : min (20 + length (b ∷ bs)) (length buf) ≡ 20 + length (b ∷ bs) = omega arith in
    let some_left : ltb 20 (20 + length (b ∷ bs)) ≡ true = ground arith in
    let left : 20 + length (b ∷ bs) - 20 ≡ length (b ∷ bs) = omega arith in
    rw (end, some_left, left, rest) (take_all (length (b ∷ bs)) (b ∷ bs) (omega arith))

abbrev header_of : CommandId → SgipSequence → ℕ → PduHeader
header_of id s size = record { total_length = 20 + size; command_id = id; sequence = s }

-- A frame that is decoded as its body is.
framed :
    (h : PduHeader) (body : List ℕ) (m : SgipMessage)
    → Trip (encode_header h) parse_head (h.total_length, to_u32 h.command_id) 20
    → h.total_length ≡ 20 + length body
    → h.total_length ≤ 100000
    → parse_body (to_u32 h.command_id) body ≡ ok m
    → (bytes : List ℕ) × ((encode_header h ⊕ put_slice body) ≡ ok bytes)
      × (decode_message bytes ≡ ok m)
unfolding put_slice ◌⊕◌ decode_message
framed h body m t total high found =
    let buf = t.bytes ++ body in
    let width : length buf ≡ 20 + length body =
      omega (arith, length-append t.bytes body, t.width) in
    let rest : drop 20 buf ≡ body =
      subst (λ (n : ℕ). drop n (t.bytes ++ body) ≡ body) t.width (drop-append t.bytes body) in
    let long : ltb (length buf) 20 ≡ false = ground (arith, width) in
    let low : ltb (20 + length body) 20 ≡ false = ground arith in
    let short : ltb 100000 (20 + length body) ≡ false = ground (arith, total, high) in
    let same : body_of (20 + length body) buf ≡ body = body_of-frame body buf width rest in
    (buf, rw t.written refl, rw (long, t.reads body) (rw total (rw (low, short) (rw same found))))

-- The message that the decoder makes of the frame of a body. The three responses whose result is one
-- byte are not what was written.
unfoldable pub read_back : Pdu → SgipMessage
read_back (Pdu.bind p) = Message.bind p
read_back (Pdu.bind_resp p) = Message.bind_resp p
read_back (Pdu.unbind p) = Message.unbind p
read_back (Pdu.unbind_resp p) = Message.unbind_resp p
read_back (Pdu.submit p) = Message.submit p
read_back (Pdu.submit_resp p) = Message.submit_resp (record { result = p.result * 2 ^ 24 })
read_back (Pdu.deliver p) = Message.deliver p
read_back (Pdu.deliver_resp p) = Message.deliver_resp (record { result = p.result * 2 ^ 24 })
read_back (Pdu.report p) = Message.report p
read_back (Pdu.report_resp p) = Message.report_resp (record { result = 0 })
read_back (Pdu.trace p) = Message.trace p
read_back (Pdu.trace_resp p) = Message.trace_resp p

frame_written :
    (w : Put CodecError) (id : CommandId) (s : SgipSequence) (size : ℕ) (body : List ℕ)
    → w ≡ ok body
    → length body ≡ size
    → 20 + size ≤ 65536
    → (w >>= λ b.
        encode_header
          (record { total_length = (20 + length b) % u32_mod; command_id = id; sequence = s })
        ⊕ put_slice b)
      ≡ (encode_header (header_of id s size) ⊕ put_slice body)
frame_written w id s size body written width short =
    let total : (20 + length body) % u32_mod ≡ 20 + size = omega arith in rw (written, total) refl

module _ {A : Type 0} {w : Put CodecError} {r : Get ParseError A} {a : A} where
  sent :
      (id : CommandId) (s : SgipSequence) (size : ℕ) (into : A → SgipMessage)
      → IsSequence s
      → 20 + size ≤ 65536
      → Whole w r a size
      → ((b : List ℕ) → parse_body (to_u32 id) b ≡ (r b >>= λ (p, rest). ok (into p)))
      → (bytes : List ℕ) × ((w >>= λ body.
            encode_header (record {
              total_length = (20 + length body) % u32_mod;
              command_id = id;
              sequence = s;
            })
            ⊕ put_slice body)
          ≡ ok bytes)
        × (decode_message bytes ≡ ok (into a))
  sent id s size into fits short t entry =
      let h = header_of id s size in
      let found : parse_body (to_u32 id) t.bytes ≡ ok (into a) =
        entry t.bytes
        ∙ ap (λ (m : Result ParseError (A × List ℕ)). m >>= λ (p, rest). ok (into p)) (t.reads.1) in
      let (bytes, written, decoded) =
        framed h t.bytes (into a) (head-Trip h (omega arith) fits) (omega (arith, t.width))
          (omega arith) found in
      (bytes, frame_written w id s size t.bytes t.written t.width short ∙ written, decoded)

-- A result in one byte in front of the reserved bytes, read as a number of four bytes.
shifted :
    (n : ℕ)
    → n < 256
    → Whole {E = CodecError}
        (put_u8 (n % u8_mod) ⊕ put_slice (replicate 8 0) ⊕ done)
        u32
        (n * 2 ^ 24)
        9
unfolding put_u8 put_slice ◌⊕◌ done get_u32
shifted n small =
    let same : n % u8_mod ≡ n = omega arith in
    let value : from_u32_be n 0 0 0 ≡ n * 2 ^ 24 = unfold from_u32_be in omega arith in
    record {
      bytes = n ∷ replicate 8 0;
      written = rw same refl;
      width = refl;
      reads = (replicate 5 0, ap (λ (k : ℕ). ok (k, replicate 5 0)) value);
    }

nothing : {A : Type 0} (x : A) → Whole {E = CodecError} {F = ParseError} done (pure x) x 0
unfolding done pure
nothing x = record { bytes = []; written = refl; width = refl; reads = ([], refl) }

narrow_submit_resp :
    (p : SubmitResp)
    → p.result < 256
    → Whole (encode_submit_resp p) parse_submit_resp (record { result = p.result * 2 ^ 24 }) 9
unfolding encode_submit_resp parse_submit_resp
narrow_submit_resp p small = Whole-map (λ n. record { result = n }) (shifted p.result small)

narrow_deliver_resp :
    (p : DeliverResp)
    → p.result < 256
    → Whole (encode_deliver_resp p) parse_deliver_resp (record { result = p.result * 2 ^ 24 }) 9
unfolding encode_deliver_resp parse_deliver_resp
narrow_deliver_resp p small = Whole-map (λ n. record { result = n }) (shifted p.result small)

abbrev no_result : ReportResp
no_result = record { result = 0 }

reported :
    (p : ReportResp) → Whole {F = ParseError} (encode_report_resp p) (pure no_result) no_result 9
unfolding encode_report_resp put_u8 put_slice ◌⊕◌ done pure
reported p = record {
  bytes = (p.result % u8_mod) ∷ replicate 8 0;
  written = refl;
  width = refl;
  reads = ((p.result % u8_mod) ∷ replicate 8 0, refl);
}

-- The frame of a body whose fields fit the wire, under a sequence whose numbers fit 32 bits, is decoded
-- where it is not longer than 65536 bytes, header included: as the message that was written, but for
-- three responses, of which the result of a submission or a delivery comes out times 2 ^ 24 and that
-- of a report as 0.
pub decode_message-to_pdu_bytes :
    (p : Pdu) (s : SgipSequence)
    → IsPdu p
    → IsSequence s
    → 20 + encoded_size p ≤ 65536
    → (bytes : List ℕ) × (to_pdu_bytes p s ≡ ok bytes) × (decode_message bytes ≡ ok (read_back p))
unfolding to_pdu_bytes encode_pdu encoded_size command_id read_back parse_body to_u32 pure
    encode_unbind encode_unbind_resp
decode_message-to_pdu_bytes _ s (is_bind p ok_p) fits short =
    sent Command.bind s bind_size Message.bind fits short (Trip-Whole (parse_bind-Trip p ok_p))
      (λ b. refl)
decode_message-to_pdu_bytes _ s (is_bind_resp p ok_p) fits short =
    sent Command.bind_resp s bind_resp_size Message.bind_resp fits short
      (Trip-Whole (parse_bind_resp-Trip p ok_p)) (λ b. refl)
decode_message-to_pdu_bytes _ s (is_unbind Unbind.unbind) fits short =
    sent Command.unbind s 0 Message.unbind fits short (nothing Unbind.unbind) (λ b. refl)
decode_message-to_pdu_bytes _ s (is_unbind_resp Unbind.unbind_resp) fits short =
    sent Command.unbind_resp s 0 Message.unbind_resp fits short (nothing Unbind.unbind_resp)
      (λ b. refl)
decode_message-to_pdu_bytes _ s (is_submit p ok_p) fits short =
    sent Command.submit s (submit_size p) Message.submit fits short
      (Trip-Whole (parse_submit-Trip p ok_p)) (λ b. refl)
decode_message-to_pdu_bytes _ s (is_submit_resp p ok_p) fits short =
    sent Command.submit_resp s submit_resp_size Message.submit_resp fits short
      (narrow_submit_resp p ok_p.result) (λ b. refl)
decode_message-to_pdu_bytes _ s (is_deliver p ok_p) fits short =
    sent Command.deliver s (deliver_size p) Message.deliver fits short
      (Trip-Whole (parse_deliver-Trip p ok_p)) (λ b. refl)
decode_message-to_pdu_bytes _ s (is_deliver_resp p ok_p) fits short =
    sent Command.deliver_resp s deliver_resp_size Message.deliver_resp fits short
      (narrow_deliver_resp p ok_p.result) (λ b. refl)
decode_message-to_pdu_bytes _ s (is_report p ok_p) fits short =
    sent Command.report s report_size Message.report fits short
      (Trip-Whole (parse_report-Trip p ok_p)) (λ b. refl)
decode_message-to_pdu_bytes _ s (is_report_resp p ok_p) fits short =
    sent Command.report_resp s report_resp_size Message.report_resp fits short (reported p)
      (λ b. refl)
decode_message-to_pdu_bytes _ s (is_trace p ok_p) fits short =
    sent Command.trace s trace_size Message.trace fits short (Trip-Whole (parse_trace-Trip p ok_p))
      (λ b. refl)
decode_message-to_pdu_bytes _ s (is_trace_resp p ok_p) fits short =
    sent Command.trace_resp s trace_resp_size Message.trace_resp fits short
      (Trip-Whole (parse_trace_resp-Trip p ok_p)) (λ b. refl)
