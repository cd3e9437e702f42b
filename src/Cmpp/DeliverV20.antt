-- ===== src/Cmpp/DeliverV20.antt =====
-- crates/rsms-codec-cmpp/src/datatypes/v20.rs: the body of a message delivered in version 2.0.
use rsms.Common.{ℕ, ◌+◌, ◌-◌, ◌≤◌, ◌≡◌, List, [], length, arith}
use rsms.Wire.Fields.{Get, Put, ◌>>=◌, ◌>>◌, ◌⊕◌, pure, done, ensure, put_u8, put_slice}
use rsms.Wire.Trip.{Trip, Trip-pure, Trip-seq, Trip-u8, Trip-bytes, Trip-ensure, Trip-resize}
use rsms.Wire.Strings.{FitsField}
use rsms.Wire.Error.{CodecError, incomplete}
use rsms.Cmpp.PduHeader.{PduHeader, header_size}
use rsms.Wire.Body.{
  u8, slice, pstring, put_pstring_v20, put_content, get_content, at_pstring_v20, at_content,
}
use rsms.Cmpp.Deliver.{Deliver}

pub record DeliverV20 : Type 0 where
  pub msg_id : List ℕ
  pub dest_id : List ℕ
  pub service_id : List ℕ
  pub tppid : ℕ
  pub tpudhi : ℕ
  pub msg_fmt : ℕ
  pub src_terminal_id : List ℕ
  pub registered_delivery : ℕ
  pub msg_content : List ℕ
  pub reserve : List ℕ

unfoldable pub deliver_v20_size : DeliverV20 → ℕ
deliver_v20_size p = 8 + 21 + 10 + 1 + 1 + 1 + 21 + 1 + 1 + length p.msg_content + 8

unfoldable pub encode_deliver_v20 : DeliverV20 → Put CodecError
encode_deliver_v20 p =
    put_slice p.msg_id
    ⊕ put_pstring_v20 p.dest_id 21 "dest_id"
    ⊕ put_pstring_v20 p.service_id 10 "service_id"
    ⊕ put_u8 p.tppid
    ⊕ put_u8 p.tpudhi
    ⊕ put_u8 p.msg_fmt
    ⊕ put_pstring_v20 p.src_terminal_id 21 "src_terminal_id"
    ⊕ put_u8 p.registered_delivery
    ⊕ put_content "msg_content" p.msg_content
    ⊕ put_slice p.reserve
    ⊕ done

unfoldable pub decode_deliver_v20 : PduHeader → Get CodecError DeliverV20
decode_deliver_v20 h = do
  ensure incomplete (h.total_length - header_size)
  msg_id ← slice 8
  dest_id ← pstring 21
  service_id ← pstring 10
  tppid ← u8
  tpudhi ← u8
  msg_fmt ← u8
  src_terminal_id ← pstring 21
  registered_delivery ← u8
  msg_content ← get_content
  reserve ← slice 8
  pure (record {
    msg_id = msg_id;
    dest_id = dest_id;
    service_id = service_id;
    tppid = tppid;
    tpudhi = tpudhi;
    msg_fmt = msg_fmt;
    src_terminal_id = src_terminal_id;
    registered_delivery = registered_delivery;
    msg_content = msg_content;
    reserve = reserve;
  })

-- A message whose fields fit the wire.
pub record IsDeliverV20 (p : DeliverV20) : Type 0 where
  pub msg_id : length p.msg_id ≡ 8
  pub dest_id : FitsField 21 p.dest_id
  pub service_id : FitsField 10 p.service_id
  pub src_terminal_id : FitsField 21 p.src_terminal_id
  pub msg_content : length p.msg_content ≤ 255
  pub reserve : length p.reserve ≡ 8

pub deliver_v20-Trip :
    (p : DeliverV20) (h : PduHeader)
    → IsDeliverV20 p
    → h.total_length ≡ 12 + deliver_v20_size p
    → Trip (encode_deliver_v20 p) (decode_deliver_v20 h) p (deliver_v20_size p)
unfolding encode_deliver_v20 decode_deliver_v20 deliver_v20_size
deliver_v20-Trip p h fits q = Trip-ensure (h.total_length - header_size) incomplete (omega arith) (
    Trip-resize
      (Trip-seq _ (Trip-bytes incomplete fits.msg_id) (
        Trip-seq _ (at_pstring_v20 _ fits.dest_id) (
          Trip-seq _ (at_pstring_v20 _ fits.service_id) (
            Trip-seq _ (Trip-u8 incomplete p.tppid) (
              Trip-seq _ (Trip-u8 incomplete p.tpudhi) (
                Trip-seq _ (Trip-u8 incomplete p.msg_fmt) (
                  Trip-seq _ (at_pstring_v20 _ fits.src_terminal_id) (
                    Trip-seq _ (Trip-u8 incomplete p.registered_delivery) (
                      Trip-seq _ (at_content _ _ fits.msg_content)
                        (Trip-seq _ (Trip-bytes incomplete fits.reserve) (Trip-pure p)))))))))))
      (omega arith))

-- `From<DeliverV20> for Deliver`: the reserved bytes are dropped.
unfoldable pub deliver_from_v20 : DeliverV20 → Deliver
deliver_from_v20 p = record {
  msg_id = p.msg_id;
  dest_id = p.dest_id;
  service_id = p.service_id;
  tppid = p.tppid;
  tpudhi = p.tpudhi;
  msg_fmt = p.msg_fmt;
  src_terminal_id = p.src_terminal_id;
  src_terminal_type = 0;
  registered_delivery = p.registered_delivery;
  msg_content = p.msg_content;
  link_id = [];
}
