-- ===== src/Smgp/Submit.antt =====
-- crates/rsms-codec-smgp/src/datatypes/submit.rs: messages to be sent and their responses.
use rsms.Common.{ℕ, ◌+◌, ◌-◌, ◌*◌, ◌<◌, ◌≤◌, ◌≡◌, List, length, map, All, arith}
use rsms.Common.Bytes.{u32_mod}
use rsms.Wire.Error.{CodecError, incomplete}
use rsms.Wire.Fields.{
  Get, Put, ◌>>=◌, ◌>>◌, ◌⊕◌, pure, done, ensure, get_many, put_u8, put_u32, put_slice, put_many,
}
use rsms.Wire.Trip.{
  Trip, Trip-pure, Trip-seq, Trip-u8, Trip-u32, Trip-bytes, Trip-ensure, Trip-counted,
}
use rsms.Wire.Strings.{FitsField}
use rsms.Wire.Whole.{Whole, Whole-seq, Whole-ensure, Whole-resize, Whole-map}
use rsms.Wire.Body.{
  u8, u32, slice, pstring, put_pstring, put_content, get_content, at_pstring, at_content,
}
use rsms.Smgp.PduHeader.{PduHeader, header_size}
use rsms.Smgp.Tlv.{OptionalParameters, encode_params, params_size, decode_remaining}
use rsms.Smgp.Params.{IsTlv, read_back}
use rsms.Smgp.Loop.{params-Whole}
use rsms.Smgp.MsgId.{SmgpMsgId}

pub record Submit : Type 0 where
  pub msg_type : ℕ
  pub need_report : ℕ
  pub priority : ℕ
  pub service_id : List ℕ
  pub fee_type : List ℕ
  pub fee_code : List ℕ
  pub fixed_fee : List ℕ
  pub msg_fmt : ℕ
  pub valid_time : List ℕ
  pub at_time : List ℕ
  pub src_term_id : List ℕ
  pub charge_term_id : List ℕ
  pub dest_term_id_count : ℕ
  pub dest_term_ids : List (List ℕ)
  pub msg_content : List ℕ
  pub reserve : List ℕ
  pub optional_params : OptionalParameters

unfoldable pub submit_size : Submit → ℕ
submit_size p =
    1
    + 1
    + 1
    + 10
    + 2
    + 6
    + 6
    + 1
    + 17
    + 17
    + 21
    + 21
    + 1
    + length p.dest_term_ids * 21
    + 1
    + length p.msg_content
    + 8
    + params_size p.optional_params

unfoldable pub encode_submit : Submit → Put CodecError
encode_submit p =
    put_u8 p.msg_type
    ⊕ put_u8 p.need_report
    ⊕ put_u8 p.priority
    ⊕ put_pstring p.service_id 10 "service_id"
    ⊕ put_pstring p.fee_type 2 "fee_type"
    ⊕ put_pstring p.fee_code 6 "fee_code"
    ⊕ put_pstring p.fixed_fee 6 "fixed_fee"
    ⊕ put_u8 p.msg_fmt
    ⊕ put_pstring p.valid_time 17 "valid_time"
    ⊕ put_pstring p.at_time 17 "at_time"
    ⊕ put_pstring p.src_term_id 21 "src_term_id"
    ⊕ put_pstring p.charge_term_id 21 "charge_term_id"
    ⊕ put_u8 p.dest_term_id_count
    ⊕ put_many (λ dest. put_pstring dest 21 "dest_term_id") p.dest_term_ids
    ⊕ put_content "msg_content" p.msg_content
    ⊕ put_slice p.reserve
    ⊕ encode_params p.optional_params

unfoldable pub decode_submit : PduHeader → Get CodecError Submit
decode_submit h = do
  ensure incomplete (h.total_length - header_size)
  msg_type ← u8
  need_report ← u8
  priority ← u8
  service_id ← pstring 10
  fee_type ← pstring 2
  fee_code ← pstring 6
  fixed_fee ← pstring 6
  msg_fmt ← u8
  valid_time ← pstring 17
  at_time ← pstring 17
  src_term_id ← pstring 21
  charge_term_id ← pstring 21
  dest_term_id_count ← u8
  dest_term_ids ← get_many dest_term_id_count (pstring 21)
  msg_content ← get_content
  ensure incomplete 8
  reserve ← slice 8
  optional_params ← decode_remaining
  pure (record {
    msg_type = msg_type;
    need_report = need_report;
    priority = priority;
    service_id = service_id;
    fee_type = fee_type;
    fee_code = fee_code;
    fixed_fee = fixed_fee;
    msg_fmt = msg_fmt;
    valid_time = valid_time;
    at_time = at_time;
    src_term_id = src_term_id;
    charge_term_id = charge_term_id;
    dest_term_id_count = dest_term_id_count;
    dest_term_ids = dest_term_ids;
    msg_content = msg_content;
    reserve = reserve;
    optional_params = optional_params;
  })

-- A message whose fields fit the wire.
pub record IsSubmit (p : Submit) : Type 0 where
  pub service_id : FitsField 10 p.service_id
  pub fee_type : FitsField 2 p.fee_type
  pub fee_code : FitsField 6 p.fee_code
  pub fixed_fee : FitsField 6 p.fixed_fee
  pub valid_time : FitsField 17 p.valid_time
  pub at_time : FitsField 17 p.at_time
  pub src_term_id : FitsField 21 p.src_term_id
  pub charge_term_id : FitsField 21 p.charge_term_id
  pub dest_term_id_count : p.dest_term_id_count ≡ length p.dest_term_ids
  pub few : length p.dest_term_ids < 256
  pub dest_term_ids : All (FitsField 21) p.dest_term_ids
  pub msg_content : length p.msg_content ≤ 255
  pub reserve : length p.reserve ≡ 8
  pub optional_params : All IsTlv p.optional_params

-- The message that is read where this one was written.
abbrev pub submit_read : Submit → Submit
submit_read p = record p { optional_params = map read_back p.optional_params }

pub submit-Whole :
    (p : Submit) (h : PduHeader)
    → IsSubmit p
    → h.total_length ≡ header_size + submit_size p
    → Whole (encode_submit p) (decode_submit h) (submit_read p) (submit_size p)
unfolding encode_submit decode_submit submit_size
submit-Whole p h fits q = Whole-ensure (h.total_length - header_size) incomplete (omega arith) (
    Whole-resize
      (Whole-seq _ (Trip-u8 incomplete p.msg_type) (
        Whole-seq _ (Trip-u8 incomplete p.need_report) (
          Whole-seq _ (Trip-u8 incomplete p.priority) (
            Whole-seq _ (at_pstring _ fits.service_id) (
              Whole-seq _ (at_pstring _ fits.fee_type) (
                Whole-seq _ (at_pstring _ fits.fee_code) (
                  Whole-seq _ (at_pstring _ fits.fixed_fee) (
                    Whole-seq _ (Trip-u8 incomplete p.msg_fmt) (
                      Whole-seq _ (at_pstring _ fits.valid_time) (
                        Whole-seq _ (at_pstring _ fits.at_time) (
                          Whole-seq _ (at_pstring _ fits.src_term_id) (
                            Whole-seq _ (at_pstring _ fits.charge_term_id) (
                              Whole-seq _ (Trip-u8 incomplete p.dest_term_id_count) (
                                Whole-seq _
                                  (Trip-counted (FitsField 21) _ fits.dest_term_id_count
                                    (λ x fit. at_pstring _ fit) fits.dest_term_ids)
                                  (Whole-seq _ (at_content _ _ fits.msg_content) (
                                    Whole-ensure 8 incomplete (omega arith) (
                                      Whole-seq _ (Trip-bytes incomplete fits.reserve) (
                                        Whole-map _ (
                                          params-Whole p.optional_params
                                            fits.optional_params)))))))))))))))))))
      (omega arith))

pub record SubmitResp : Type 0 where
  pub msg_id : SmgpMsgId
  pub status : ℕ

abbrev pub submit_resp_size : ℕ
submit_resp_size = 10 + 4

unfoldable pub encode_submit_resp : SubmitResp → Put CodecError
encode_submit_resp p = put_slice p.msg_id.bytes ⊕ put_u32 p.status ⊕ done

unfoldable pub decode_submit_resp : PduHeader → Get CodecError SubmitResp
decode_submit_resp h = do
  ensure incomplete submit_resp_size
  msg_id_bytes ← slice 10
  status ← u32
  pure (record { msg_id = record { bytes = msg_id_bytes }; status = status })

-- A response whose fields fit the wire.
pub record IsSubmitResp (p : SubmitResp) : Type 0 where
  pub msg_id : length p.msg_id.bytes ≡ 10
  pub status : p.status < u32_mod

pub submit_resp-Trip :
    (p : SubmitResp) (h : PduHeader)
    → IsSubmitResp p
    → h.total_length ≡ header_size + submit_resp_size
    → Trip (encode_submit_resp p) (decode_submit_resp h) p (submit_resp_size)
unfolding encode_submit_resp decode_submit_resp
submit_resp-Trip p h fits q = Trip-ensure submit_resp_size incomplete (omega arith) (
    Trip-seq _ (Trip-bytes incomplete fits.msg_id)
      (Trip-seq _ (Trip-u32 incomplete fits.status) (Trip-pure p)))
