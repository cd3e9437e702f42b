-- ===== src/Cmpp/Submit.antt =====
-- crates/rsms-codec-cmpp/src/datatypes/submit.rs: the body of a short message to be sent.
use rsms.Common.{ℕ, ◌+◌, ◌-◌, ◌*◌, ◌<◌, ◌≤◌, ◌≡◌, List, length, All, arith}
use rsms.Wire.Fields.{
  Get, Put, ◌>>=◌, ◌>>◌, ◌⊕◌, pure, done, ensure, get_many, put_u8, put_slice, put_many,
}
use rsms.Wire.Trip.{
  Trip, Trip-pure, Trip-seq, Trip-u8, Trip-bytes, Trip-ensure, Trip-resize, Trip-counted,
}
use rsms.Wire.Strings.{FitsField}
use rsms.Wire.Error.{CodecError, incomplete}
use rsms.Cmpp.PduHeader.{PduHeader, header_size}
use rsms.Wire.Body.{
  u8, slice, pstring, put_pstring, put_content, get_content, at_pstring, at_content,
}

pub record Submit : Type 0 where
  pub msg_id : List ℕ
  pub pk_total : ℕ
  pub pk_number : ℕ
  pub registered_delivery : ℕ
  pub msg_level : ℕ
  pub service_id : List ℕ
  pub fee_user_type : ℕ
  pub fee_terminal_id : List ℕ
  pub fee_terminal_type : ℕ
  pub tppid : ℕ
  pub tpudhi : ℕ
  pub msg_fmt : ℕ
  pub msg_src : List ℕ
  pub fee_type : List ℕ
  pub fee_code : List ℕ
  pub valid_time : List ℕ
  pub at_time : List ℕ
  pub src_id : List ℕ
  pub dest_usr_tl : ℕ
  pub dest_terminal_ids : List (List ℕ)
  pub dest_terminal_type : ℕ
  pub msg_content : List ℕ
  pub link_id : List ℕ

unfoldable pub submit_size : Submit → ℕ
submit_size p =
    8
    + 1
    + 1
    + 1
    + 1
    + 10
    + 1
    + 32
    + 1
    + 1
    + 1
    + 1
    + 6
    + 2
    + 6
    + 17
    + 17
    + 21
    + 1
    + length p.dest_terminal_ids * 32
    + 1
    + 1
    + length p.msg_content
    + 20

unfoldable pub encode_submit : Submit → Put CodecError
encode_submit p =
    put_slice p.msg_id
    ⊕ put_u8 p.pk_total
    ⊕ put_u8 p.pk_number
    ⊕ put_u8 p.registered_delivery
    ⊕ put_u8 p.msg_level
    ⊕ put_pstring p.service_id 10 "service_id"
    ⊕ put_u8 p.fee_user_type
    ⊕ put_pstring p.fee_terminal_id 32 "fee_terminal_id"
    ⊕ put_u8 p.fee_terminal_type
    ⊕ put_u8 p.tppid
    ⊕ put_u8 p.tpudhi
    ⊕ put_u8 p.msg_fmt
    ⊕ put_pstring p.msg_src 6 "msg_src"
    ⊕ put_pstring p.fee_type 2 "fee_type"
    ⊕ put_pstring p.fee_code 6 "fee_code"
    ⊕ put_pstring p.valid_time 17 "valid_time"
    ⊕ put_pstring p.at_time 17 "at_time"
    ⊕ put_pstring p.src_id 21 "src_id"
    ⊕ put_u8 p.dest_usr_tl
    ⊕ put_many (λ dest. put_pstring dest 32 "dest_terminal_id") p.dest_terminal_ids
    ⊕ put_u8 p.dest_terminal_type
    ⊕ put_content "msg_content" p.msg_content
    ⊕ put_pstring p.link_id 20 "link_id"
    ⊕ done

unfoldable pub decode_submit : PduHeader → Get CodecError Submit
decode_submit h = do
  ensure incomplete (h.total_length - header_size)
  msg_id ← slice 8
  pk_total ← u8
  pk_number ← u8
  registered_delivery ← u8
  msg_level ← u8
  service_id ← pstring 10
  fee_user_type ← u8
  fee_terminal_id ← pstring 32
  fee_terminal_type ← u8
  tppid ← u8
  tpudhi ← u8
  msg_fmt ← u8
  msg_src ← pstring 6
  fee_type ← pstring 2
  fee_code ← pstring 6
  valid_time ← pstring 17
  at_time ← pstring 17
  src_id ← pstring 21
  dest_usr_tl ← u8
  dest_terminal_ids ← get_many dest_usr_tl (pstring 32)
  dest_terminal_type ← u8
  msg_content ← get_content
  link_id ← pstring 20
  pure (record {
    msg_id = msg_id;
    pk_total = pk_total;
    pk_number = pk_number;
    registered_delivery = registered_delivery;
    msg_level = msg_level;
    service_id = service_id;
    fee_user_type = fee_user_type;
    fee_terminal_id = fee_terminal_id;
    fee_terminal_type = fee_terminal_type;
    tppid = tppid;
    tpudhi = tpudhi;
    msg_fmt = msg_fmt;
    msg_src = msg_src;
    fee_type = fee_type;
    fee_code = fee_code;
    valid_time = valid_time;
    at_time = at_time;
    src_id = src_id;
    dest_usr_tl = dest_usr_tl;
    dest_terminal_ids = dest_terminal_ids;
    dest_terminal_type = dest_terminal_type;
    msg_content = msg_content;
    link_id = link_id;
  })

-- A message whose fields fit the wire.
pub record IsSubmit (p : Submit) : Type 0 where
  pub msg_id : length p.msg_id ≡ 8
  pub service_id : FitsField 10 p.service_id
  pub fee_terminal_id : FitsField 32 p.fee_terminal_id
  pub msg_src : FitsField 6 p.msg_src
  pub fee_type : FitsField 2 p.fee_type
  pub fee_code : FitsField 6 p.fee_code
  pub valid_time : FitsField 17 p.valid_time
  pub at_time : FitsField 17 p.at_time
  pub src_id : FitsField 21 p.src_id
  pub dest_usr_tl : p.dest_usr_tl ≡ length p.dest_terminal_ids
  pub few : length p.dest_terminal_ids < 256
  pub dest_terminal_ids : All (FitsField 32) p.dest_terminal_ids
  pub msg_content : length p.msg_content ≤ 255
  pub link_id : FitsField 20 p.link_id

pub submit-Trip :
    (p : Submit) (h : PduHeader)
    → IsSubmit p
    → h.total_length ≡ 12 + submit_size p
    → Trip (encode_submit p) (decode_submit h) p (submit_size p)
unfolding encode_submit decode_submit submit_size
submit-Trip p h fits q = Trip-ensure (h.total_length - header_size) incomplete (omega arith) (
    Trip-resize
      (Trip-seq _ (Trip-bytes incomplete fits.msg_id) (
        Trip-seq _ (Trip-u8 incomplete p.pk_total) (
          Trip-seq _ (Trip-u8 incomplete p.pk_number) (
            Trip-seq _ (Trip-u8 incomplete p.registered_delivery) (
              Trip-seq _ (Trip-u8 incomplete p.msg_level) (
                Trip-seq _ (at_pstring _ fits.service_id) (
                  Trip-seq _ (Trip-u8 incomplete p.fee_user_type) (
                    Trip-seq _ (at_pstring _ fits.fee_terminal_id) (
                      Trip-seq _ (Trip-u8 incomplete p.fee_terminal_type) (
                        Trip-seq _ (Trip-u8 incomplete p.tppid) (
                          Trip-seq _ (Trip-u8 incomplete p.tpudhi) (
                            Trip-seq _ (Trip-u8 incomplete p.msg_fmt) (
                              Trip-seq _ (at_pstring _ fits.msg_src) (
                                Trip-seq _ (at_pstring _ fits.fee_type) (
                                  Trip-seq _ (at_pstring _ fits.fee_code) (
                                    Trip-seq _ (at_pstring _ fits.valid_time) (
                                      Trip-seq _ (at_pstring _ fits.at_time) (
                                        Trip-seq _ (at_pstring _ fits.src_id) (
                                          Trip-seq _ (Trip-u8 incomplete p.dest_usr_tl) (
                                            Trip-seq _
                                              (Trip-counted (FitsField 32) _ fits.dest_usr_tl
                                                (λ x fit. at_pstring _ fit) fits.dest_terminal_ids)
                                              (Trip-seq _ (Trip-u8 incomplete p.dest_terminal_type)
                                                (Trip-seq _ (at_content _ _ fits.msg_content) (
                                                  Trip-seq _ (at_pstring _ fits.link_id)
                                                    (Trip-pure p))))))))))))))))))))))))
      (omega arith))
