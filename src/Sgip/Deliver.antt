-- ===== src/Sgip/Deliver.antt =====
-- crates/rsms-codec-sgip/src/datatypes/deliver.rs: messages delivered and their responses.
use rsms.Common.{ℕ, ◌+◌, ◌-◌, ◌%◌, ◌<◌, ◌≡◌, refl, List, length, arith, replicate}
use rsms.Common.Bytes.{u32_mod, u8_mod}
use rsms.Wire.Error.{CodecError, incomplete}
use rsms.Wire.Fields.{Get, Put, ◌>>=◌, ◌>>◌, ◌⊕◌, pure, done, ensure, put_u8, put_slice}
use rsms.Wire.Trip.{Trip, Trip-pure, Trip-seq, Trip-u8, Trip-bytes, Trip-ensure, Trip-resize}
use rsms.Wire.Strings.{FitsField}
use rsms.Wire.Body.{
  u8, slice, pstring, put_pstring, at_pstring, put_content_u32, get_content_u32, at_content_u32,
  at_narrow,
}
use rsms.Sgip.PduHeader.{PduHeader, header_size}

pub record Deliver : Type 0 where
  pub user_number : List ℕ
  pub sp_number : List ℕ
  pub tppid : ℕ
  pub tpudhi : ℕ
  pub msg_fmt : ℕ
  pub message_content : List ℕ
  pub reserve : List ℕ

unfoldable pub deliver_size : Deliver → ℕ
deliver_size p = 21 + 21 + 1 + 1 + 1 + 4 + length p.message_content + 8

unfoldable pub encode_deliver : Deliver → Put CodecError
encode_deliver p =
    put_pstring p.user_number 21 "user_number"
    ⊕ put_pstring p.sp_number 21 "sp_number"
    ⊕ put_u8 p.tppid
    ⊕ put_u8 p.tpudhi
    ⊕ put_u8 p.msg_fmt
    ⊕ put_content_u32 "message_content" p.message_content
    ⊕ put_slice p.reserve
    ⊕ done

unfoldable pub decode_deliver : PduHeader → Get CodecError Deliver
decode_deliver h = do
  ensure incomplete (h.total_length - header_size)
  user_number ← pstring 21
  sp_number ← pstring 21
  tppid ← u8
  tpudhi ← u8
  msg_fmt ← u8
  message_content ← get_content_u32
  ensure incomplete 8
  reserve ← slice 8
  pure (record {
    user_number = user_number;
    sp_number = sp_number;
    tppid = tppid;
    tpudhi = tpudhi;
    msg_fmt = msg_fmt;
    message_content = message_content;
    reserve = reserve;
  })

-- A message whose fields fit the wire.
pub record IsDeliver (p : Deliver) : Type 0 where
  pub user_number : FitsField 21 p.user_number
  pub sp_number : FitsField 21 p.sp_number
  pub message_content : length p.message_content < u32_mod
  pub reserve : length p.reserve ≡ 8

pub deliver-Trip :
    (p : Deliver) (h : PduHeader)
    → IsDeliver p
    → h.total_length ≡ header_size + deliver_size p
    → Trip (encode_deliver p) (decode_deliver h) p (deliver_size p)
unfolding encode_deliver decode_deliver deliver_size
deliver-Trip p h fits q = Trip-ensure (h.total_length - header_size) incomplete (omega arith) (
    Trip-resize
      (Trip-seq _ (at_pstring _ fits.user_number) (
        Trip-seq _ (at_pstring _ fits.sp_number) (
          Trip-seq _ (Trip-u8 incomplete p.tppid) (
            Trip-seq _ (Trip-u8 incomplete p.tpudhi) (
              Trip-seq _ (Trip-u8 incomplete p.msg_fmt) (
                Trip-seq _ (at_content_u32 _ _ fits.message_content) (
                  Trip-ensure 8 incomplete (omega arith)
                    (Trip-seq _ (Trip-bytes incomplete fits.reserve) (Trip-pure p)))))))))
      (omega arith))

pub record DeliverResp : Type 0 where
  pub result : ℕ

abbrev pub deliver_resp_size : ℕ
deliver_resp_size = 1 + 8

unfoldable pub encode_deliver_resp : DeliverResp → Put CodecError
encode_deliver_resp p = put_u8 (p.result % u8_mod) ⊕ put_slice (replicate 8 0) ⊕ done

unfoldable pub decode_deliver_resp : PduHeader → Get CodecError DeliverResp
decode_deliver_resp h = do
  ensure incomplete deliver_resp_size
  result ← u8
  reserve ← slice 8
  pure (record { result = result })

-- A response whose fields fit the wire.
pub record IsDeliverResp (p : DeliverResp) : Type 0 where
  pub result : p.result < 256

pub deliver_resp-Trip :
    (p : DeliverResp) (h : PduHeader)
    → IsDeliverResp p
    → h.total_length ≡ header_size + deliver_resp_size
    → Trip (encode_deliver_resp p) (decode_deliver_resp h) p (deliver_resp_size)
unfolding encode_deliver_resp decode_deliver_resp
deliver_resp-Trip p h fits q = Trip-ensure deliver_resp_size incomplete (omega arith) (
    Trip-seq _ (at_narrow p.result fits.result)
      (Trip-seq _ (Trip-bytes incomplete refl) (Trip-pure p)))
