-- ===== src/Cmpp/Responses.antt =====
-- crates/rsms-codec-cmpp/src/datatypes/submit.rs and deliver.rs: the bodies of the responses.
use rsms.Common.{ℕ, ◌+◌, ◌<◌, ◌≡◌, List, length}
use rsms.Common.Bytes.{u32_mod}
use rsms.Wire.Fields.{Get, Put, ◌>>=◌, ◌>>◌, ◌⊕◌, pure, done, put_u8, put_u32, put_slice}
use rsms.Wire.Trip.{Trip, Trip-pure, Trip-seq, Trip-u8, Trip-u32, Trip-bytes}
use rsms.Wire.Error.{CodecError, incomplete}
use rsms.Cmpp.PduHeader.{PduHeader, header_size}
use rsms.Wire.Body.{u8, u32, slice, check_length, at_length}

pub record SubmitResp : Type 0 where
  pub msg_id : List ℕ
  pub result : ℕ

abbrev pub submit_resp_size : ℕ
submit_resp_size = 8 + 4

unfoldable pub encode_submit_resp : SubmitResp → Put CodecError
encode_submit_resp p = put_slice p.msg_id ⊕ put_u32 p.result ⊕ done

unfoldable pub decode_submit_resp : PduHeader → Get CodecError SubmitResp
decode_submit_resp h = do
  check_length header_size h.total_length submit_resp_size
  msg_id ← slice 8
  result ← u32
  pure (record { msg_id = msg_id; result = result })

-- A response whose fields fit the wire.
pub record IsSubmitResp (p : SubmitResp) : Type 0 where
  pub msg_id : length p.msg_id ≡ 8
  pub result : p.result < u32_mod

pub submit_resp-Trip :
    (p : SubmitResp) (h : PduHeader)
    → IsSubmitResp p
    → h.total_length ≡ 12 + submit_resp_size
    → Trip (encode_submit_resp p) (decode_submit_resp h) p (submit_resp_size)
unfolding encode_submit_resp decode_submit_resp
submit_resp-Trip p h fits q = at_length header_size h.total_length submit_resp_size q (
    Trip-seq _ (Trip-bytes incomplete fits.msg_id)
      (Trip-seq _ (Trip-u32 incomplete fits.result) (Trip-pure p)))

pub record SubmitRespV20 : Type 0 where
  pub msg_id : List ℕ
  pub result : ℕ

abbrev pub submit_resp_v20_size : ℕ
submit_resp_v20_size = 8 + 1

unfoldable pub encode_submit_resp_v20 : SubmitRespV20 → Put CodecError
encode_submit_resp_v20 p = put_slice p.msg_id ⊕ put_u8 p.result ⊕ done

unfoldable pub decode_submit_resp_v20 : PduHeader → Get CodecError SubmitRespV20
decode_submit_resp_v20 h = do
  check_length header_size h.total_length submit_resp_v20_size
  msg_id ← slice 8
  result ← u8
  pure (record { msg_id = msg_id; result = result })

-- A response whose fields fit the wire.
pub record IsSubmitRespV20 (p : SubmitRespV20) : Type 0 where
  pub msg_id : length p.msg_id ≡ 8

pub submit_resp_v20-Trip :
    (p : SubmitRespV20) (h : PduHeader)
    → IsSubmitRespV20 p
    → h.total_length ≡ 12 + submit_resp_v20_size
    → Trip (encode_submit_resp_v20 p) (decode_submit_resp_v20 h) p (submit_resp_v20_size)
unfolding encode_submit_resp_v20 decode_submit_resp_v20
submit_resp_v20-Trip p h fits q = at_length header_size h.total_length submit_resp_v20_size q (
    Trip-seq _ (Trip-bytes incomplete fits.msg_id)
      (Trip-seq _ (Trip-u8 incomplete p.result) (Trip-pure p)))

-- `From<SubmitRespV20> for Pdu`
unfoldable pub submit_resp_from_v20 : SubmitRespV20 → SubmitResp
submit_resp_from_v20 p = record { msg_id = p.msg_id; result = p.result }

pub record DeliverResp : Type 0 where
  pub msg_id : List ℕ
  pub result : ℕ

abbrev pub deliver_resp_size : ℕ
deliver_resp_size = 8 + 4

unfoldable pub encode_deliver_resp : DeliverResp → Put CodecError
encode_deliver_resp p = put_slice p.msg_id ⊕ put_u32 p.result ⊕ done

unfoldable pub decode_deliver_resp : PduHeader → Get CodecError DeliverResp
decode_deliver_resp h = do
  check_length header_size h.total_length deliver_resp_size
  msg_id ← slice 8
  result ← u32
  pure (record { msg_id = msg_id; result = result })

-- A response whose fields fit the wire.
pub record IsDeliverResp (p : DeliverResp) : Type 0 where
  pub msg_id : length p.msg_id ≡ 8
  pub result : p.result < u32_mod

pub deliver_resp-Trip :
    (p : DeliverResp) (h : PduHeader)
    → IsDeliverResp p
    → h.total_length ≡ 12 + deliver_resp_size
    → Trip (encode_deliver_resp p) (decode_deliver_resp h) p (deliver_resp_size)
unfolding encode_deliver_resp decode_deliver_resp
deliver_resp-Trip p h fits q = at_length header_size h.total_length deliver_resp_size q (
    Trip-seq _ (Trip-bytes incomplete fits.msg_id)
      (Trip-seq _ (Trip-u32 incomplete fits.result) (Trip-pure p)))

pub record DeliverRespV20 : Type 0 where
  pub msg_id : List ℕ
  pub result : ℕ

abbrev pub deliver_resp_v20_size : ℕ
deliver_resp_v20_size = 8 + 1

unfoldable pub encode_deliver_resp_v20 : DeliverRespV20 → Put CodecError
encode_deliver_resp_v20 p = put_slice p.msg_id ⊕ put_u8 p.result ⊕ done

unfoldable pub decode_deliver_resp_v20 : PduHeader → Get CodecError DeliverRespV20
decode_deliver_resp_v20 h = do
  check_length header_size h.total_length deliver_resp_v20_size
  msg_id ← slice 8
  result ← u8
  pure (record { msg_id = msg_id; result = result })

-- A response whose fields fit the wire.
pub record IsDeliverRespV20 (p : DeliverRespV20) : Type 0 where
  pub msg_id : length p.msg_id ≡ 8

pub deliver_resp_v20-Trip :
    (p : DeliverRespV20) (h : PduHeader)
    → IsDeliverRespV20 p
    → h.total_length ≡ 12 + deliver_resp_v20_size
    → Trip (encode_deliver_resp_v20 p) (decode_deliver_resp_v20 h) p (deliver_resp_v20_size)
unfolding encode_deliver_resp_v20 decode_deliver_resp_v20
deliver_resp_v20-Trip p h fits q = at_length header_size h.total_length deliver_resp_v20_size q (
    Trip-seq _ (Trip-bytes incomplete fits.msg_id)
      (Trip-seq _ (Trip-u8 incomplete p.result) (Trip-pure p)))

-- `From<DeliverRespV20> for Pdu`
unfoldable pub deliver_resp_from_v20 : DeliverRespV20 → DeliverResp
deliver_resp_from_v20 p = record { msg_id = p.msg_id; result = p.result }
