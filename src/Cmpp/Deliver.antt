-- ===== src/Cmpp/Deliver.antt =====
-- crates/rsms-codec-cmpp/src/datatypes/deliver.rs: the body of a short message delivered.
use rsms.Common.{ℕ, ◌+◌, ◌-◌, ◌≤◌, ◌≡◌, List, length, arith}
use rsms.Wire.Fields.{Get, Put, ◌>>=◌, ◌>>◌, ◌⊕◌, pure, done, ensure, put_u8, put_slice}
use rsms.Wire.Trip.{Trip, Trip-pure, Trip-seq, Trip-u8, Trip-bytes, Trip-ensure, Trip-resize}
use rsms.Wire.Strings.{FitsField}
use rsms.Wire.Error.{CodecError, incomplete}
use rsms.Cmpp.PduHeader.{PduHeader, header_size}
use rsms.Wire.Body.{
  u8, slice, pstring, put_pstring, put_content, get_content, at_pstring, at_content,
}

pub record Deliver : Type 0 where
  pub msg_id : List ℕ
  pub dest_id : List ℕ
  pub service_id : List ℕ
  pub tppid : ℕ
  pub tpudhi : ℕ
  pub msg_fmt : ℕ
  pub src_terminal_id : List ℕ
  pub src_terminal_type : ℕ
  pub registered_delivery : ℕ
  pub msg_content : List ℕ
  pub link_id : List ℕ

unfoldable pub deliver_size : Deliver → ℕ
deliver_size p = 8 + 21 + 10 + 1 + 1 + 1 + 32 + 1 + 1 + 1 + length p.msg_content + 20

unfoldable pub encode_deliver : Deliver → Put CodecError
encode_deliver p =
    put_slice p.msg_id
    ⊕ put_pstring p.dest_id 21 "dest_id"
    ⊕ put_pstring p.service_id 10 "service_id"
    ⊕ put_u8 p.tppid
    ⊕ put_u8 p.tpudhi
    ⊕ put_u8 p.msg_fmt
    ⊕ put_pstring p.src_terminal_id 32 "src_terminal_id"
    ⊕ put_u8 p.src_terminal_type
    ⊕ put_u8 p.registered_delivery
    ⊕ put_content "msg_content" p.msg_content
    ⊕ put_pstring p.link_id 20 "link_id"
    ⊕ done

unfoldable pub decode_deliver : PduHeader → Get CodecError Deliver
decode_deliver h = do
  ensure incomplete (h.total_length - header_size)
  msg_id ← slice 8
  dest_id ← pstring 21
  service_id ← pstring 10
  tppid ← u8
  tpudhi ← u8
  msg_fmt ← u8
  src_terminal_id ← pstring 32
  src_terminal_type ← u8
  registered_delivery ← u8
  msg_content ← get_content
  link_id ← pstring 20
  pure (record {
    msg_id = msg_id;
    dest_id = dest_id;
    service_id = service_id;
    tppid = tppid;
    tpudhi = tpudhi;
    msg_fmt = msg_fmt;
    src_terminal_id = src_terminal_id;
    src_terminal_type = src_terminal_type;
    registered_delivery = registered_delivery;
    msg_content = msg_content;
    link_id = link_id;
  })

-- A message whose fields fit the wire.
pub record IsDeliver (p : Deliver) : Type 0 where
  pub msg_id : length p.msg_id ≡ 8
  pub dest_id : FitsField 21 p.dest_id
  pub service_id : FitsField 10 p.service_id
  pub src_terminal_id : FitsField 32 p.src_terminal_id
  pub msg_content : length p.msg_content ≤ 255
  pub link_id : FitsField 20 p.link_id

pub deliver-Trip :
    (p : Deliver) (h : PduHeader)
    → IsDeliver p
    → h.total_length ≡ 12 + deliver_size p
    → Trip (encode_deliver p) (decode_deliver h) p (deliver_size p)
unfolding encode_deliver decode_deliver deliver_size
deliver-Trip p h fits q = Trip-ensure (h.total_length - header_size) incomplete (omega arith) (
    Trip-resize
      (Trip-seq _ (Trip-bytes incomplete fits.msg_id) (
        Trip-seq _ (at_pstring _ fits.dest_id) (
          Trip-seq _ (at_pstring _ fits.service_id) (
            Trip-seq _ (Trip-u8 incomplete p.tppid) (
              Trip-seq _ (Trip-u8 incomplete p.tpudhi) (
                Trip-seq _ (Trip-u8 incomplete p.msg_fmt) (
                  Trip-seq _ (at_pstring _ fits.src_terminal_id) (
                    Trip-seq _ (Trip-u8 incomplete p.src_terminal_type) (
                      Trip-seq _ (Trip-u8 incomplete p.registered_delivery) (
                        Trip-seq _ (at_content _ _ fits.msg_content)
                          (Trip-seq _ (at_pstring _ fits.link_id) (Trip-pure p))))))))))))
      (omega arith))
