-- ===== src/Smgp/Query.antt =====
-- crates/rsms-codec-smgp/src/datatypes/deliver.rs: queries and their responses.
use rsms.Common.{ℕ, ◌+◌, ◌≡◌, List, arith}
use rsms.Wire.Error.{CodecError, incomplete}
use rsms.Wire.Fields.{Get, Put, ◌>>=◌, ◌>>◌, ◌⊕◌, pure, done, ensure, put_u8}
use rsms.Wire.Trip.{Trip, Trip-pure, Trip-seq, Trip-u8, Trip-ensure}
use rsms.Wire.Strings.{FitsField}
use rsms.Wire.Body.{u8, pstring, put_pstring, at_pstring}
use rsms.Smgp.PduHeader.{PduHeader, header_size}

pub record Query : Type 0 where
  pub query_type : ℕ
  pub query_time : List ℕ
  pub query_code : List ℕ
  pub reserve : List ℕ

abbrev pub query_size : ℕ
query_size = 1 + 8 + 10 + 8

unfoldable pub encode_query : Query → Put CodecError
encode_query p =
    put_u8 p.query_type
    ⊕ put_pstring p.query_time 8 "query_time"
    ⊕ put_pstring p.query_code 10 "query_code"
    ⊕ put_pstring p.reserve 8 "reserve"
    ⊕ done

unfoldable pub decode_query : PduHeader → Get CodecError Query
decode_query h = do
  ensure incomplete query_size
  query_type ← u8
  query_time ← pstring 8
  query_code ← pstring 10
  reserve ← pstring 8
  pure (record {
    query_type = query_type;
    query_time = query_time;
    query_code = query_code;
    reserve = reserve;
  })

-- A query whose fields fit the wire.
pub record IsQuery (p : Query) : Type 0 where
  pub query_time : FitsField 8 p.query_time
  pub query_code : FitsField 10 p.query_code
  pub reserve : FitsField 8 p.reserve

pub query-Trip :
    (p : Query) (h : PduHeader)
    → IsQuery p
    → h.total_length ≡ header_size + query_size
    → Trip (encode_query p) (decode_query h) p (query_size)
unfolding encode_query decode_query
query-Trip p h fits q = Trip-ensure query_size incomplete (omega arith) (
    Trip-seq _ (Trip-u8 incomplete p.query_type) (
      Trip-seq _ (at_pstring _ fits.query_time) (
        Trip-seq _ (at_pstring _ fits.query_code)
          (Trip-seq _ (at_pstring _ fits.reserve) (Trip-pure p)))))

pub record QueryResp : Type 0 where
  pub query_result : List ℕ
  pub reserve : List ℕ

abbrev pub query_resp_size : ℕ
query_resp_size = 10 + 8

unfoldable pub encode_query_resp : QueryResp → Put CodecError
encode_query_resp p =
    put_pstring p.query_result 10 "query_result" ⊕ put_pstring p.reserve 8 "reserve" ⊕ done

unfoldable pub decode_query_resp : PduHeader → Get CodecError QueryResp
decode_query_resp h = do
  ensure incomplete query_resp_size
  query_result ← pstring 10
  reserve ← pstring 8
  pure (record { query_result = query_result; reserve = reserve })

-- A response whose fields fit the wire.
pub record IsQueryResp (p : QueryResp) : Type 0 where
  pub query_result : FitsField 10 p.query_result
  pub reserve : FitsField 8 p.reserve

pub query_resp-Trip :
    (p : QueryResp) (h : PduHeader)
    → IsQueryResp p
    → h.total_length ≡ header_size + query_resp_size
    → Trip (encode_query_resp p) (decode_query_resp h) p (query_resp_size)
unfolding encode_query_resp decode_query_resp
query_resp-Trip p h fits q = Trip-ensure query_resp_size incomplete (omega arith) (
    Trip-seq _ (at_pstring _ fits.query_result)
      (Trip-seq _ (at_pstring _ fits.reserve) (Trip-pure p)))
