-- ===== src/Cmpp/Connect.antt =====
-- crates/rsms-codec-cmpp/src/datatypes/connect.rs: the bodies of the login. Arrays of bytes are lists.
use rsms.Common.{ℕ, ◌+◌, ◌<◌, ◌≡◌, List, length}
use rsms.Common.Bytes.{u32_mod}
use rsms.Wire.Fields.{Get, Put, ◌>>=◌, ◌>>◌, ◌⊕◌, pure, done, put_u8, put_u32, put_slice}
use rsms.Wire.Trip.{Trip, Trip-pure, Trip-seq, Trip-u8, Trip-u32, Trip-bytes}
use rsms.Wire.Strings.{FitsField}
use rsms.Wire.Error.{CodecError, incomplete}
use rsms.Cmpp.PduHeader.{PduHeader, header_size}
use rsms.Wire.Body.{u8, u32, slice, pstring, put_pstring, check_length, at_pstring, at_length}

pub record Connect : Type 0 where
  pub source_addr : List ℕ
  pub authenticator_source : List ℕ
  pub version : ℕ
  pub timestamp : ℕ

abbrev pub connect_size : ℕ
connect_size = 6 + 16 + 1 + 4

unfoldable pub encode_connect : Connect → Put CodecError
encode_connect p =
    put_pstring p.source_addr 6 "source_addr"
    ⊕ put_slice p.authenticator_source
    ⊕ put_u8 p.version
    ⊕ put_u32 p.timestamp
    ⊕ done

unfoldable pub decode_connect : PduHeader → Get CodecError Connect
decode_connect h = do
  check_length header_size h.total_length connect_size
  source_addr ← pstring 6
  authenticator_source ← slice 16
  version ← u8
  timestamp ← u32
  pure (record {
    source_addr = source_addr;
    authenticator_source = authenticator_source;
    version = version;
    timestamp = timestamp;
  })

-- A login whose fields fit the wire.
pub record IsConnect (p : Connect) : Type 0 where
  pub source_addr : FitsField 6 p.source_addr
  pub authenticator_source : length p.authenticator_source ≡ 16
  pub timestamp : p.timestamp < u32_mod

pub connect-Trip :
    (p : Connect) (h : PduHeader)
    → IsConnect p
    → h.total_length ≡ 12 + connect_size
    → Trip (encode_connect p) (decode_connect h) p (connect_size)
unfolding encode_connect decode_connect
connect-Trip p h fits q = at_length header_size h.total_length connect_size q (
    Trip-seq _ (at_pstring _ fits.source_addr) (
      Trip-seq _ (Trip-bytes incomplete fits.authenticator_source) (
        Trip-seq _ (Trip-u8 incomplete p.version)
          (Trip-seq _ (Trip-u32 incomplete fits.timestamp) (Trip-pure p)))))

pub record ConnectResp : Type 0 where
  pub status : ℕ
  pub authenticator_ismg : List ℕ
  pub version : ℕ

abbrev pub connect_resp_size : ℕ
connect_resp_size = 4 + 16 + 1

unfoldable pub encode_connect_resp : ConnectResp → Put CodecError
encode_connect_resp p = put_u32 p.status ⊕ put_slice p.authenticator_ismg ⊕ put_u8 p.version ⊕ done

unfoldable pub decode_connect_resp : PduHeader → Get CodecError ConnectResp
decode_connect_resp h = do
  check_length header_size h.total_length connect_resp_size
  status ← u32
  authenticator_ismg ← slice 16
  version ← u8
  pure (record { status = status; authenticator_ismg = authenticator_ismg; version = version })

-- A response whose fields fit the wire.
pub record IsConnectResp (p : ConnectResp) : Type 0 where
  pub status : p.status < u32_mod
  pub authenticator_ismg : length p.authenticator_ismg ≡ 16

pub connect_resp-Trip :
    (p : ConnectResp) (h : PduHeader)
    → IsConnectResp p
    → h.total_length ≡ 12 + connect_resp_size
    → Trip (encode_connect_resp p) (decode_connect_resp h) p (connect_resp_size)
unfolding encode_connect_resp decode_connect_resp
connect_resp-Trip p h fits q = at_length header_size h.total_length connect_resp_size q (
    Trip-seq _ (Trip-u32 incomplete fits.status) (
      Trip-seq _ (Trip-bytes incomplete fits.authenticator_ismg)
        (Trip-seq _ (Trip-u8 incomplete p.version) (Trip-pure p))))

pub record ConnectRespV20 : Type 0 where
  pub status : ℕ
  pub authenticator_ismg : List ℕ
  pub version : ℕ

abbrev pub connect_resp_v20_size : ℕ
connect_resp_v20_size = 1 + 16 + 1

unfoldable pub encode_connect_resp_v20 : ConnectRespV20 → Put CodecError
encode_connect_resp_v20 p =
    put_u8 p.status ⊕ put_slice p.authenticator_ismg ⊕ put_u8 p.version ⊕ done

unfoldable pub decode_connect_resp_v20 : PduHeader → Get CodecError ConnectRespV20
decode_connect_resp_v20 h = do
  check_length header_size h.total_length connect_resp_v20_size
  status ← u8
  authenticator_ismg ← slice 16
  version ← u8
  pure (record { status = status; authenticator_ismg = authenticator_ismg; version = version })

-- A response whose fields fit the wire.
pub record IsConnectRespV20 (p : ConnectRespV20) : Type 0 where
  pub authenticator_ismg : length p.authenticator_ismg ≡ 16

pub connect_resp_v20-Trip :
    (p : ConnectRespV20) (h : PduHeader)
    → IsConnectRespV20 p
    → h.total_length ≡ 12 + connect_resp_v20_size
    → Trip (encode_connect_resp_v20 p) (decode_connect_resp_v20 h) p (connect_resp_v20_size)
unfolding encode_connect_resp_v20 decode_connect_resp_v20
connect_resp_v20-Trip p h fits q = at_length header_size h.total_length connect_resp_v20_size q (
    Trip-seq _ (Trip-u8 incomplete p.status) (
      Trip-seq _ (Trip-bytes incomplete fits.authenticator_ismg)
        (Trip-seq _ (Trip-u8 incomplete p.version) (Trip-pure p))))

-- `From<ConnectRespV20> for Pdu`
unfoldable pub connect_resp_from_v20 : ConnectRespV20 → ConnectResp
connect_resp_from_v20 p = record {
  status = p.status;
  authenticator_ismg = p.authenticator_ismg;
  version = p.version;
}
