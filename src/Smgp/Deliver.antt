-- ===== src/Smgp/Deliver.antt =====
-- crates/rsms-codec-smgp/src/datatypes/deliver.rs: messages delivered and their responses.
use rsms.Common.{ℕ, ◌+◌, ◌-◌, ◌<◌, ◌≤◌, ◌≡◌, List, length, map, All, arith}
use rsms.Common.Bytes.{u32_mod}
use rsms.Wire.Error.{CodecError, incomplete}
use rsms.Wire.Fields.{Get, Put, ◌>>=◌, ◌>>◌, ◌⊕◌, pure, done, ensure, put_u8, put_u32, put_slice}
use rsms.Wire.Trip.{Trip, Trip-pure, Trip-seq, Trip-u8, Trip-u32, Trip-bytes, Trip-ensure}
use rsms.Wire.Strings.{FitsField}
use rsms.Wire.Whole.{Whole, Whole-seq, Whole-ensure, Whole-resize, Whole-map}
use rsms.Wire.Body.{
  u8, u32, slice, pstring, put_pstring, put_content, get_content, at_pstring, at_content,
}
use rsms.Smgp.PduHeader.{PduHeader, header_size}
use rsms.Smgp.Tlv.{OptionalParameters, encode_params, params_size, decode_remaining}
use rsms.Smgp.Params.{IsTlv, read_back}
use rsms.Smgp.Loop.{params-Whole}
use rsms.Smgp.MsgId.{SmgpMsgId}

pub record Deliver : Type 0 where
  pub msg_id : SmgpMsgId
  pub is_report : ℕ
  pub msg_fmt : ℕ
  pub recv_time : List ℕ
  pub src_term_id : List ℕ
  pub dest_term_id : List ℕ
  pub msg_content : List ℕ
  pub reserve : List ℕ
  pub optional_params : OptionalParameters

unfoldable pub deliver_size : Deliver → ℕ
deliver_size p =
    10 + 1 + 1 + 14 + 21 + 21 + 1 + length p.msg_content + 8 + params_size p.optional_params

unfoldable pub encode_deliver : Deliver → Put CodecError
encode_deliver p =
    put_slice p.msg_id.bytes
    ⊕ put_u8 p.is_report
    ⊕ put_u8 p.msg_fmt
    ⊕ put_pstring p.recv_time 14 "recv_time"
    ⊕ put_pstring p.src_term_id 21 "src_term_id"
    ⊕ put_pstring p.dest_term_id 21 "dest_term_id"
    ⊕ put_content "msg_content" p.msg_content
    ⊕ put_slice p.reserve
    ⊕ encode_params p.optional_params

unfoldable pub decode_deliver : PduHeader → Get CodecError Deliver
decode_deliver h = do
  ensure incomplete (h.total_length - header_size)
  msg_id_bytes ← slice 10
  is_report ← u8
  msg_fmt ← u8
  recv_time ← pstring 14
  src_term_id ← pstring 21
  dest_term_id ← pstring 21
  msg_content ← get_content
  ensure incomplete 8
  reserve ← slice 8
  optional_params ← decode_remaining
  pure (record {
    msg_id = record { bytes = msg_id_bytes };
    is_report = is_report;
    msg_fmt = msg_fmt;
    recv_time = recv_time;
    src_term_id = src_term_id;
    dest_term_id = dest_term_id;
    msg_content = msg_content;
    reserve = reserve;
    optional_params = optional_params;
  })

-- A message whose fields fit the wire.
pub record IsDeliver (p : Deliver) : Type 0 where
  pub msg_id : length p.msg_id.bytes ≡ 10
  pub recv_time : FitsField 14 p.recv_time
  pub src_term_id : FitsField 21 p.src_term_id
  pub dest_term_id : FitsField 21 p.dest_term_id
  pub msg_content : length p.msg_content ≤ 255
  pub reserve : length p.reserve ≡ 8
  pub optional_params : All IsTlv p.optional_params

-- The message that is read where this one was written.
abbrev pub deliver_read : Deliver → Deliver
deliver_read p = record p { optional_params = map read_back p.optional_params }

pub deliver-Whole :
    (p : Deliver) (h : PduHeader)
    → IsDeliver p
    → h.total_length ≡ header_size + deliver_size p
    → Whole (encode_deliver p) (decode_deliver h) (deliver_read p) (deliver_size p)
unfolding encode_deliver decode_deliver deliver_size
deliver-Whole p h fits q = Whole-ensure (h.total_length - header_size) incomplete (omega arith) (
    Whole-resize
      (Whole-seq _ (Trip-bytes incomplete fits.msg_id) (
        Whole-seq _ (Trip-u8 incomplete p.is_report) (
          Whole-seq _ (Trip-u8 incomplete p.msg_fmt) (
            Whole-seq _ (at_pstring _ fits.recv_time) (
              Whole-seq _ (at_pstring _ fits.src_term_id) (
                Whole-seq _ (at_pstring _ fits.dest_term_id) (
                  Whole-seq _ (at_content _ _ fits.msg_content) (
                    Whole-ensure 8 incomplete (omega arith) (
                      Whole-seq _ (Trip-bytes incomplete fits.reserve)
                        (Whole-map _ (params-Whole p.optional_params fits.optional_params)))))))))))
      (omega arith))

pub record DeliverResp : Type 0 where
  pub msg_id : SmgpMsgId
  pub status : ℕ

abbrev pub deliver_resp_size : ℕ
deliver_resp_size = 10 + 4

unfoldable pub encode_deliver_resp : DeliverResp → Put CodecError
encode_deliver_resp p = put_slice p.msg_id.bytes ⊕ put_u32 p.status ⊕ done

unfoldable pub decode_deliver_resp : PduHeader → Get CodecError DeliverResp
decode_deliver_resp h = do
  ensure incomplete deliver_resp_size
  msg_id_bytes ← slice 10
  status ← u32
  pure (record { msg_id = record { bytes = msg_id_bytes }; status = status })

-- A response whose fields fit the wire.
pub record IsDeliverResp (p : DeliverResp) : Type 0 where
  pub msg_id : length p.msg_id.bytes ≡ 10
  pub status : p.status < u32_mod

pub deliver_resp-Trip :
    (p : DeliverResp) (h : PduHeader)
    → IsDeliverResp p
    → h.total_length ≡ header_size + deliver_resp_size
    → Trip (encode_deliver_resp p) (decode_deliver_resp h) p (deliver_resp_size)
unfolding encode_deliver_resp decode_deliver_resp
deliver_resp-Trip p h fits q = Trip-ensure deliver_resp_size incomplete (omega arith) (
    Trip-seq _ (Trip-bytes incomplete fits.msg_id)
      (Trip-seq _ (Trip-u32 incomplete fits.status) (Trip-pure p)))
