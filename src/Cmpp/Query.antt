-- ===== src/Cmpp/Query.antt =====
-- crates/rsms-codec-cmpp/src/datatypes/query.rs: the bodies of queries and cancellations.
use rsms.Common.{ℕ, ◌+◌, ◌<◌, ◌≡◌, List, length, arith}
use rsms.Common.Bytes.{u32_mod}
use rsms.Wire.Fields.{Get, Put, ◌>>=◌, ◌>>◌, ◌⊕◌, pure, done, ensure, put_u8, put_u32, put_slice}
use rsms.Wire.Trip.{Trip, Trip-pure, Trip-seq, Trip-u8, Trip-u32, Trip-bytes, Trip-ensure}
use rsms.Wire.Strings.{FitsField}
use rsms.Wire.Error.{CodecError, incomplete}
use rsms.Cmpp.PduHeader.{PduHeader}
use rsms.Wire.Body.{u8, u32, slice, pstring, put_pstring, at_pstring}

pub record Query : Type 0 where
  pub time : List ℕ
  pub query_type : ℕ
  pub query_code : List ℕ
  pub reserve : List ℕ
  pub m_type : ℕ

abbrev pub query_size : ℕ
query_size = 8 + 1 + 10 + 8 + 1

unfoldable pub encode_query : Query → Put CodecError
encode_query p =
    put_pstring p.time 8 "time"
    ⊕ put_u8 p.query_type
    ⊕ put_pstring p.query_code 10 "query_code"
    ⊕ put_pstring p.reserve 8 "reserve"
    ⊕ put_u8 p.m_type
    ⊕ done

unfoldable pub decode_query : PduHeader → Get CodecError Query
decode_query h = do
  ensure incomplete query_size
  time ← pstring 8
  query_type ← u8
  query_code ← pstring 10
  reserve ← pstring 8
  m_type ← u8
  pure (record {
    time = time;
    query_type = query_type;
    query_code = query_code;
    reserve = reserve;
    m_type = m_type;
  })

-- A query whose fields fit the wire.
pub record IsQuery (p : Query) : Type 0 where
  pub time : FitsField 8 p.time
  pub query_code : FitsField 10 p.query_code
  pub reserve : FitsField 8 p.reserve

pub query-Trip :
    (p : Query) (h : PduHeader)
    → IsQuery p
    → h.total_length ≡ 12 + query_size
    → Trip (encode_query p) (decode_query h) p (query_size)
unfolding encode_query decode_query
query-Trip p h fits q = Trip-ensure query_size incomplete (omega arith) (
    Trip-seq _ (at_pstring _ fits.time) (
      Trip-seq _ (Trip-u8 incomplete p.query_type) (
        Trip-seq _ (at_pstring _ fits.query_code) (
          Trip-seq _ (at_pstring _ fits.reserve)
            (Trip-seq _ (Trip-u8 incomplete p.m_type) (Trip-pure p))))))

pub record QueryResp : Type 0 where
  pub time : List ℕ
  pub query_type : ℕ
  pub query_code : List ℕ
  pub mt_ttl_msg : ℕ
  pub mt_suc : ℕ
  pub mt_fail : ℕ
  pub mo_rcv : ℕ
  pub mo_suc : ℕ
  pub mo_fail : ℕ
  pub mo_scs : ℕ
  pub mo_err : ℕ

abbrev pub query_resp_size : ℕ
query_resp_size = 8 + 1 + 10 + 4 + 4 + 4 + 4 + 4 + 4 + 4 + 4

unfoldable pub encode_query_resp : QueryResp → Put CodecError
encode_query_resp p =
    put_pstring p.time 8 "time"
    ⊕ put_u8 p.query_type
    ⊕ put_pstring p.query_code 10 "query_code"
    ⊕ put_u32 p.mt_ttl_msg
    ⊕ put_u32 p.mt_suc
    ⊕ put_u32 p.mt_fail
    ⊕ put_u32 p.mo_rcv
    ⊕ put_u32 p.mo_suc
    ⊕ put_u32 p.mo_fail
    ⊕ put_u32 p.mo_scs
    ⊕ put_u32 p.mo_err
    ⊕ done

unfoldable pub decode_query_resp : PduHeader → Get CodecError QueryResp
decode_query_resp h = do
  ensure incomplete query_resp_size
  time ← pstring 8
  query_type ← u8
  query_code ← pstring 10
  mt_ttl_msg ← u32
  mt_suc ← u32
  mt_fail ← u32
  mo_rcv ← u32
  mo_suc ← u32
  mo_fail ← u32
  mo_scs ← u32
  mo_err ← u32
  pure (record {
    time = time;
    query_type = query_type;
    query_code = query_code;
    mt_ttl_msg = mt_ttl_msg;
    mt_suc = mt_suc;
    mt_fail = mt_fail;
    mo_rcv = mo_rcv;
    mo_suc = mo_suc;
    mo_fail = mo_fail;
    mo_scs = mo_scs;
    mo_err = mo_err;
  })

-- A response whose fields fit the wire.
pub record IsQueryResp (p : QueryResp) : Type 0 where
  pub time : FitsField 8 p.time
  pub query_code : FitsField 10 p.query_code
  pub mt_ttl_msg : p.mt_ttl_msg < u32_mod
  pub mt_suc : p.mt_suc < u32_mod
  pub mt_fail : p.mt_fail < u32_mod
  pub mo_rcv : p.mo_rcv < u32_mod
  pub mo_suc : p.mo_suc < u32_mod
  pub mo_fail : p.mo_fail < u32_mod
  pub mo_scs : p.mo_scs < u32_mod
  pub mo_err : p.mo_err < u32_mod

pub query_resp-Trip :
    (p : QueryResp) (h : PduHeader)
    → IsQueryResp p
    → h.total_length ≡ 12 + query_resp_size
    → Trip (encode_query_resp p) (decode_query_resp h) p (query_resp_size)
unfolding encode_query_resp decode_query_resp
query_resp-Trip p h fits q = Trip-ensure query_resp_size incomplete (omega arith) (
    Trip-seq _ (at_pstring _ fits.time) (
      Trip-seq _ (Trip-u8 incomplete p.query_type) (
        Trip-seq _ (at_pstring _ fits.query_code) (
          Trip-seq _ (Trip-u32 incomplete fits.mt_ttl_msg) (
            Trip-seq _ (Trip-u32 incomplete fits.mt_suc) (
              Trip-seq _ (Trip-u32 incomplete fits.mt_fail) (
                Trip-seq _ (Trip-u32 incomplete fits.mo_rcv) (
                  Trip-seq _ (Trip-u32 incomplete fits.mo_suc) (
                    Trip-seq _ (Trip-u32 incomplete fits.mo_fail) (
                      Trip-seq _ (Trip-u32 incomplete fits.mo_scs)
                        (Trip-seq _ (Trip-u32 incomplete fits.mo_err) (Trip-pure p))))))))))))

pub record Cancel : Type 0 where
  pub msg_id : List ℕ

abbrev pub cancel_size : ℕ
cancel_size = 8

unfoldable pub encode_cancel : Cancel → Put CodecError
encode_cancel p = put_slice p.msg_id ⊕ done

unfoldable pub decode_cancel : PduHeader → Get CodecError Cancel
decode_cancel h = do
  ensure incomplete cancel_size
  msg_id ← slice 8
  pure (record { msg_id = msg_id })

-- A cancellation whose fields fit the wire.
pub record IsCancel (p : Cancel) : Type 0 where
  pub msg_id : length p.msg_id ≡ 8

pub cancel-Trip :
    (p : Cancel) (h : PduHeader)
    → IsCancel p
    → h.total_length ≡ 12 + cancel_size
    → Trip (encode_cancel p) (decode_cancel h) p (cancel_size)
unfolding encode_cancel decode_cancel
cancel-Trip p h fits q =
    Trip-ensure cancel_size incomplete (omega arith)
      (Trip-seq _ (Trip-bytes incomplete fits.msg_id) (Trip-pure p))

pub record CancelResp : Type 0 where
  pub success_id : ℕ

abbrev pub cancel_resp_size : ℕ
cancel_resp_size = 4

unfoldable pub encode_cancel_resp : CancelResp → Put CodecError
encode_cancel_resp p = put_u32 p.success_id ⊕ done

unfoldable pub decode_cancel_resp : PduHeader → Get CodecError CancelResp
decode_cancel_resp h = do
  ensure incomplete cancel_resp_size
  success_id ← u32
  pure (record { success_id = success_id })

-- A response whose fields fit the wire.
pub record IsCancelResp (p : CancelResp) : Type 0 where
  pub success_id : p.success_id < u32_mod

pub cancel_resp-Trip :
    (p : CancelResp) (h : PduHeader)
    → IsCancelResp p
    → h.total_length ≡ 12 + cancel_resp_size
    → Trip (encode_cancel_resp p) (decode_cancel_resp h) p (cancel_resp_size)
unfolding encode_cancel_resp decode_cancel_resp
cancel_resp-Trip p h fits q =
    Trip-ensure cancel_resp_size incomplete (omega arith)
      (Trip-seq _ (Trip-u32 incomplete fits.success_id) (Trip-pure p))
