-- ===== src/Sgip/Submit.antt =====
-- crates/rsms-codec-sgip/src/datatypes/submit.rs: messages to be sent and their responses.
use rsms.Common.{ℕ, ◌+◌, ◌-◌, ◌*◌, ◌%◌, ◌<◌, ◌≡◌, refl, List, length, All, arith, replicate}
use rsms.Common.Bytes.{u32_mod, u8_mod}
use rsms.Wire.Error.{CodecError, incomplete}
use rsms.Wire.Fields.{
  Get, Put, ◌>>=◌, ◌>>◌, ◌⊕◌, pure, done, ensure, get_many, put_u8, put_slice, put_many,
}
use rsms.Wire.Trip.{
  Trip, Trip-pure, Trip-seq, Trip-u8, Trip-bytes, Trip-ensure, Trip-resize, Trip-counted,
}
use rsms.Wire.Strings.{FitsField}
use rsms.Wire.Body.{
  u8, slice, pstring, put_pstring, at_pstring, put_content_u32, get_content_u32, at_content_u32,
  at_narrow,
}
use rsms.Sgip.PduHeader.{PduHeader, header_size}

pub record Submit : Type 0 where
  pub sp_number : List ℕ
  pub charge_number : List ℕ
  pub user_count : ℕ
  pub user_numbers : List (List ℕ)
  pub corp_id : List ℕ
  pub service_type : List ℕ
  pub fee_type : ℕ
  pub fee_value : List ℕ
  pub given_value : List ℕ
  pub agent_flag : ℕ
  pub morelate_to_mt_flag : ℕ
  pub priority : ℕ
  pub expire_time : List ℕ
  pub schedule_time : List ℕ
  pub report_flag : ℕ
  pub tppid : ℕ
  pub tpudhi : ℕ
  pub msg_fmt : ℕ
  pub message_type : ℕ
  pub message_content : List ℕ
  pub reserve : List ℕ

unfoldable pub submit_size : Submit → ℕ
submit_size p =
    21
    + 21
    + 1
    + length p.user_numbers * 21
    + 5
    + 10
    + 1
    + 6
    + 6
    + 1
    + 1
    + 1
    + 16
    + 16
    + 1
    + 1
    + 1
    + 1
    + 1
    + 4
    + length p.message_content
    + 8

unfoldable pub encode_submit : Submit → Put CodecError
encode_submit p =
    put_pstring p.sp_number 21 "sp_number"
    ⊕ put_pstring p.charge_number 21 "charge_number"
    ⊕ put_u8 p.user_count
    ⊕ put_many (λ dest. put_pstring dest 21 "user_number") p.user_numbers
    ⊕ put_pstring p.corp_id 5 "corp_id"
    ⊕ put_pstring p.service_type 10 "service_type"
    ⊕ put_u8 p.fee_type
    ⊕ put_pstring p.fee_value 6 "fee_value"
    ⊕ put_pstring p.given_value 6 "given_value"
    ⊕ put_u8 p.agent_flag
    ⊕ put_u8 p.morelate_to_mt_flag
    ⊕ put_u8 p.priority
    ⊕ put_pstring p.expire_time 16 "expire_time"
    ⊕ put_pstring p.schedule_time 16 "schedule_time"
    ⊕ put_u8 p.report_flag
    ⊕ put_u8 p.tppid
    ⊕ put_u8 p.tpudhi
    ⊕ put_u8 p.msg_fmt
    ⊕ put_u8 p.message_type
    ⊕ put_content_u32 "message_content" p.message_content
    ⊕ put_slice p.reserve
    ⊕ done

unfoldable pub decode_submit : PduHeader → Get CodecError Submit
decode_submit h = do
  ensure incomplete (h.total_length - header_size)
  sp_number ← pstring 21
  charge_number ← pstring 21
  user_count ← u8
  user_numbers ← get_many user_count (pstring 21)
  corp_id ← pstring 5
  service_type ← pstring 10
  fee_type ← u8
  fee_value ← pstring 6
  given_value ← pstring 6
  agent_flag ← u8
  morelate_to_mt_flag ← u8
  priority ← u8
  expire_time ← pstring 16
  schedule_time ← pstring 16
  report_flag ← u8
  tppid ← u8
  tpudhi ← u8
  msg_fmt ← u8
  message_type ← u8
  message_content ← get_content_u32
  ensure incomplete 8
  reserve ← slice 8
  pure (record {
    sp_number = sp_number;
    charge_number = charge_number;
    user_count = user_count;
    user_numbers = user_numbers;
    corp_id = corp_id;
    service_type = service_type;
    fee_type = fee_type;
    fee_value = fee_value;
    given_value = given_value;
    agent_flag = agent_flag;
    morelate_to_mt_flag = morelate_to_mt_flag;
    priority = priority;
    expire_time = expire_time;
    schedule_time = schedule_time;
    report_flag = report_flag;
    tppid = tppid;
    tpudhi = tpudhi;
    msg_fmt = msg_fmt;
    message_type = message_type;
    message_content = message_content;
    reserve = reserve;
  })

-- A message whose fields fit the wire.
pub record IsSubmit (p : Submit) : Type 0 where
  pub sp_number : FitsField 21 p.sp_number
  pub charge_number : FitsField 21 p.charge_number
  pub user_count : p.user_count ≡ length p.user_numbers
  pub few : length p.user_numbers < 256
  pub user_numbers : All (FitsField 21) p.user_numbers
  pub corp_id : FitsField 5 p.corp_id
  pub service_type : FitsField 10 p.service_type
  pub fee_value : FitsField 6 p.fee_value
  pub given_value : FitsField 6 p.given_value
  pub expire_time : FitsField 16 p.expire_time
  pub schedule_time : FitsField 16 p.schedule_time
  pub message_content : length p.message_content < u32_mod
  pub reserve : length p.reserve ≡ 8

pub submit-Trip :
    (p : Submit) (h : PduHeader)
    → IsSubmit p
    → h.total_length ≡ header_size + submit_size p
    → Trip (encode_submit p) (decode_submit h) p (submit_size p)
unfolding encode_submit decode_submit submit_size
submit-Trip p h fits q = Trip-ensure (h.total_length - header_size) incomplete (omega arith) (
    Trip-resize
      (Trip-seq _ (at_pstring _ fits.sp_number) (
        Trip-seq _ (at_pstring _ fits.charge_number) (
          Trip-seq _ (Trip-u8 incomplete p.user_count) (
            Trip-seq _
              (Trip-counted (FitsField 21) _ fits.user_count (λ x fit. at_pstring _ fit)
                fits.user_numbers)
              (Trip-seq _ (at_pstring _ fits.corp_id) (
                Trip-seq _ (at_pstring _ fits.service_type) (
                  Trip-seq _ (Trip-u8 incomplete p.fee_type) (
                    Trip-seq _ (at_pstring _ fits.fee_value) (
                      Trip-seq _ (at_pstring _ fits.given_value) (
                        Trip-seq _ (Trip-u8 incomplete p.agent_flag) (
                          Trip-seq _ (Trip-u8 incomplete p.morelate_to_mt_flag) (
                            Trip-seq _ (Trip-u8 incomplete p.priority) (
                              Trip-seq _ (at_pstring _ fits.expire_time) (
                                Trip-seq _ (at_pstring _ fits.schedule_time) (
                                  Trip-seq _ (Trip-u8 incomplete p.report_flag) (
                                    Trip-seq _ (Trip-u8 incomplete p.tppid) (
                                      Trip-seq _ (Trip-u8 incomplete p.tpudhi) (
                                        Trip-seq _ (Trip-u8 incomplete p.msg_fmt) (
                                          Trip-seq _ (Trip-u8 incomplete p.message_type) (
                                            Trip-seq _ (at_content_u32 _ _ fits.message_content) (
                                              Trip-ensure 8 incomplete (omega arith) (
                                                Trip-seq _ (Trip-bytes incomplete fits.reserve)
                                                  (Trip-pure p)))))))))))))))))))))))
      (omega arith))

pub record SubmitResp : Type 0 where
  pub result : ℕ

abbrev pub submit_resp_size : ℕ
submit_resp_size = 1 + 8

unfoldable pub encode_submit_resp : SubmitResp → Put CodecError
encode_submit_resp p = put_u8 (p.result % u8_mod) ⊕ put_slice (replicate 8 0) ⊕ done

unfoldable pub decode_submit_resp : PduHeader → Get CodecError SubmitResp
decode_submit_resp h = do
  ensure incomplete submit_resp_size
  result ← u8
  reserve ← slice 8
  pure (record { result = result })

-- A response whose fields fit the wire.
pub record IsSubmitResp (p : SubmitResp) : Type 0 where
  pub result : p.result < 256

pub submit_resp-Trip :
    (p : SubmitResp) (h : PduHeader)
    → IsSubmitResp p
    → h.total_length ≡ header_size + submit_resp_size
    → Trip (encode_submit_resp p) (decode_submit_resp h) p (submit_resp_size)
unfolding encode_submit_resp decode_submit_resp
submit_resp-Trip p h fits q = Trip-ensure submit_resp_size incomplete (omega arith) (
    Trip-seq _ (at_narrow p.result fits.result)
      (Trip-seq _ (Trip-bytes incomplete refl) (Trip-pure p)))
