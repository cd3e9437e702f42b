-- ===== src/Sgip/Bind.antt =====
-- crates/rsms-codec-sgip/src/datatypes/bind.rs: the bodies of the login.
use rsms.Common.{ℕ, ◌+◌, ◌<◌, ◌≡◌, refl, false, true, Bool, ltb, ◌==◌, List, length, arith}
use rsms.Wire.Error.{CodecError, incomplete, field_validation}
use rsms.Wire.Fields.{
  Get, Put, ◌>>=◌, ◌>>◌, ◌⊕◌, pure, done, put_u8, put_slice, put_check, put_padded, get_trimmed,
}
use rsms.Wire.Trip.{Trip, Trip-pure, Trip-seq, Trip-u8, Trip-bytes, Trip-put_check}
use rsms.Wire.Strings.{FitsPadded, Trip-padded}
use rsms.Wire.Body.{u8, slice, check_length, at_length}
use rsms.Sgip.PduHeader.{PduHeader, header_size}
use rsms.Wire.Error.{length_exceeds}

-- `'\0'`
unfoldable pub is_nul : ℕ → Bool
is_nul b = b == 0

nul-zero : is_nul 0 ≡ true
unfolding is_nul
nul-zero = refl

pub record Bind : Type 0 where
  pub login_type : ℕ
  pub login_name : List ℕ
  pub login_password : List ℕ
  pub reserve : List ℕ

abbrev pub bind_size : ℕ
bind_size = 1 + 16 + 16 + 8

unfoldable pub encode_bind : Bind → Put CodecError
encode_bind p =
    put_check (ltb 15 (length p.login_name))
      (field_validation "login_name" (length_exceeds (length p.login_name) 15))
    ⊕ put_check (ltb 15 (length p.login_password))
        (field_validation "login_password" (length_exceeds (length p.login_password) 15))
    ⊕ put_u8 p.login_type
    ⊕ put_padded p.login_name 16
    ⊕ put_padded p.login_password 16
    ⊕ put_slice p.reserve
    ⊕ done

unfoldable pub decode_bind : PduHeader → Get CodecError Bind
decode_bind h = do
  check_length header_size h.total_length bind_size
  login_type ← u8
  login_name ← get_trimmed incomplete is_nul 16
  login_password ← get_trimmed incomplete is_nul 16
  reserve ← slice 8
  pure (record {
    login_type = login_type;
    login_name = login_name;
    login_password = login_password;
    reserve = reserve;
  })

-- A login whose fields fit the wire.
pub record IsBind (p : Bind) : Type 0 where
  pub login_name : FitsPadded is_nul 16 p.login_name
  pub login_name_short : length p.login_name < 16
  pub login_password : FitsPadded is_nul 16 p.login_password
  pub login_password_short : length p.login_password < 16
  pub reserve : length p.reserve ≡ 8

pub bind-Trip :
    (p : Bind) (h : PduHeader)
    → IsBind p
    → h.total_length ≡ header_size + bind_size
    → Trip (encode_bind p) (decode_bind h) p (bind_size)
unfolding encode_bind decode_bind
bind-Trip p h fits q = at_length header_size h.total_length bind_size q (
    let name : ltb 15 (length p.login_name) ≡ false = ground (arith, fits.login_name_short) in
    let password : ltb 15 (length p.login_password) ≡ false =
      ground (arith, fits.login_password_short) in
    Trip-put_check _ name (
      Trip-put_check _ password (
        Trip-seq _ (Trip-u8 incomplete p.login_type) (
          Trip-seq _ (Trip-padded incomplete is_nul nul-zero fits.login_name) (
            Trip-seq _ (Trip-padded incomplete is_nul nul-zero fits.login_password)
              (Trip-seq _ (Trip-bytes incomplete fits.reserve) (Trip-pure p)))))))

pub record BindResp : Type 0 where
  pub result : ℕ
  pub reserve : List ℕ

abbrev pub bind_resp_size : ℕ
bind_resp_size = 1 + 8

unfoldable pub encode_bind_resp : BindResp → Put CodecError
encode_bind_resp p = put_u8 p.result ⊕ put_slice p.reserve ⊕ done

unfoldable pub decode_bind_resp : PduHeader → Get CodecError BindResp
decode_bind_resp h = do
  check_length header_size h.total_length bind_resp_size
  result ← u8
  reserve ← slice 8
  pure (record { result = result; reserve = reserve })

-- A response whose fields fit the wire.
pub record IsBindResp (p : BindResp) : Type 0 where
  pub reserve : length p.reserve ≡ 8

pub bind_resp-Trip :
    (p : BindResp) (h : PduHeader)
    → IsBindResp p
    → h.total_length ≡ header_size + bind_resp_size
    → Trip (encode_bind_resp p) (decode_bind_resp h) p (bind_resp_size)
unfolding encode_bind_resp decode_bind_resp
bind_resp-Trip p h fits q = at_length header_size h.total_length bind_resp_size q (
    Trip-seq _ (Trip-u8 incomplete p.result)
      (Trip-seq _ (Trip-bytes incomplete fits.reserve) (Trip-pure p)))
