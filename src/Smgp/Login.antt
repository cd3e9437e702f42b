-- ===== src/Smgp/Login.antt =====
-- crates/rsms-codec-smgp/src/datatypes/login.rs: the bodies of the login.
use rsms.Common.{ℕ, ◌+◌, ◌<◌, ◌≡◌, refl, false, true, Bool, ◌||◌, ltb, ◌==◌, List, length, arith}
use rsms.Common.Bytes.{u32_mod}
use rsms.Wire.Error.{CodecError, incomplete, field_validation, text}
use rsms.Wire.Fields.{
  Get, Put, ◌>>=◌, ◌>>◌, ◌⊕◌, pure, done, put_u8, put_u32, put_slice, put_check, put_padded,
  get_trimmed,
}
use rsms.Wire.Trip.{Trip, Trip-pure, Trip-seq, Trip-u8, Trip-u32, Trip-bytes, Trip-put_check}
use rsms.Wire.Strings.{FitsPadded, Trip-padded}
use rsms.Wire.Body.{u8, u32, slice, check_length, at_length}
use rsms.Smgp.PduHeader.{PduHeader, header_size}

-- `['\0', ' ']`
unfoldable pub is_fill : ℕ → Bool
is_fill b = (b == 0) || (b == b' ')

fill-zero : is_fill 0 ≡ true
unfolding is_fill
fill-zero = refl

pub record Login : Type 0 where
  pub client_id : List ℕ
  pub authenticator : List ℕ
  pub login_mode : ℕ
  pub timestamp : ℕ
  pub version : ℕ

abbrev pub login_size : ℕ
login_size = 8 + 16 + 1 + 4 + 1

unfoldable pub encode_login : Login → Put CodecError
encode_login p =
    put_check (ltb 8 (length p.client_id)) (field_validation "client_id" (text "exceeds 8 bytes"))
    ⊕ put_padded p.client_id 8
    ⊕ put_slice p.authenticator
    ⊕ put_u8 p.login_mode
    ⊕ put_u32 p.timestamp
    ⊕ put_u8 p.version
    ⊕ done

unfoldable pub decode_login : PduHeader → Get CodecError Login
decode_login h = do
  check_length header_size h.total_length login_size
  client_id ← get_trimmed incomplete is_fill 8
  authenticator ← slice 16
  login_mode ← u8
  timestamp ← u32
  version ← u8
  pure (record {
    client_id = client_id;
    authenticator = authenticator;
    login_mode = login_mode;
    timestamp = timestamp;
    version = version;
  })

-- A login whose fields fit the wire.
pub record IsLogin (p : Login) : Type 0 where
  pub client_id : FitsPadded is_fill 8 p.client_id
  pub authenticator : length p.authenticator ≡ 16
  pub timestamp : p.timestamp < u32_mod

pub login-Trip :
    (p : Login) (h : PduHeader)
    → IsLogin p
    → h.total_length ≡ header_size + login_size
    → Trip (encode_login p) (decode_login h) p (login_size)
unfolding encode_login decode_login
login-Trip p h fits q = at_length header_size h.total_length login_size q (
    let short : ltb 8 (length p.client_id) ≡ false = ground (arith, fits.client_id.fits) in
    Trip-put_check _ short (
      Trip-seq _ (Trip-padded incomplete is_fill fill-zero fits.client_id) (
        Trip-seq _ (Trip-bytes incomplete fits.authenticator) (
          Trip-seq _ (Trip-u8 incomplete p.login_mode) (
            Trip-seq _ (Trip-u32 incomplete fits.timestamp)
              (Trip-seq _ (Trip-u8 incomplete p.version) (Trip-pure p)))))))

pub record LoginResp : Type 0 where
  pub status : ℕ
  pub authenticator : List ℕ
  pub version : ℕ

abbrev pub login_resp_size : ℕ
login_resp_size = 4 + 16 + 1

unfoldable pub encode_login_resp : LoginResp → Put CodecError
encode_login_resp p = put_u32 p.status ⊕ put_slice p.authenticator ⊕ put_u8 p.version ⊕ done

unfoldable pub decode_login_resp : PduHeader → Get CodecError LoginResp
decode_login_resp h = do
  check_length header_size h.total_length login_resp_size
  status ← u32
  authenticator ← slice 16
  version ← u8
  pure (record { status = status; authenticator = authenticator; version = version })

-- A response whose fields fit the wire.
pub record IsLoginResp (p : LoginResp) : Type 0 where
  pub status : p.status < u32_mod
  pub authenticator : length p.authenticator ≡ 16

pub login_resp-Trip :
    (p : LoginResp) (h : PduHeader)
    → IsLoginResp p
    → h.total_length ≡ header_size + login_resp_size
    → Trip (encode_login_resp p) (decode_login_resp h) p (login_resp_size)
unfolding encode_login_resp decode_login_resp
login_resp-Trip p h fits q = at_length header_size h.total_length login_resp_size q (
    Trip-seq _ (Trip-u32 incomplete fits.status) (
      Trip-seq _ (Trip-bytes incomplete fits.authenticator)
        (Trip-seq _ (Trip-u8 incomplete p.version) (Trip-pure p))))
