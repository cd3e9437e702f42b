-- ===== src/Sgip/Unbind.antt =====
-- crates/rsms-codec-sgip/src/datatypes/unbind.rs: the bodies without fields.
use rsms.Common.{◌≡◌, refl, not, [], ltb, ◌==◌, length}
use rsms.Wire.Error.{CodecError, invalid_pdu_length, field_validation, text}
use rsms.Wire.Fields.{Get, Put, ◌>>=◌, ◌>>◌, pure, done, check}
use rsms.Wire.Whole.{Whole}
use rsms.Sgip.PduHeader.{PduHeader, header_size}

-- `if buf.has_remaining()`
unfoldable pub no_more : Get CodecError (Unit {0})
no_more b = check (ltb 0 (length b)) (field_validation "body" (text "must be empty")) b

-- The checks of a body that must be empty.
unfoldable pub check_empty : PduHeader → Get CodecError (Unit {0})
check_empty h = do
  check (not (h.total_length == header_size))
      (invalid_pdu_length h.total_length header_size header_size)
  no_more

empty_body :
    {A : Type 0} (x : A) (h : PduHeader)
    → h.total_length ≡ 20
    → Whole {E = CodecError} done (check_empty h >>= λ _. pure x) x 0
unfolding check_empty no_more check ◌>>=◌ pure done
empty_body x h q = record {
  bytes = [];
  written = refl;
  width = refl;
  reads = ([], rw (q, ◌>>=◌) refl);
}

pub data Unbind : Type 0 where
  unbind : Unbind

unfoldable pub encode_unbind : Unbind → Put CodecError
encode_unbind p = done

unfoldable pub decode_unbind : PduHeader → Get CodecError Unbind
decode_unbind h = do check_empty h; pure unbind

pub unbind-Whole :
    (p : Unbind) (h : PduHeader)
    → h.total_length ≡ 20
    → Whole (encode_unbind p) (decode_unbind h) p 0
unfolding encode_unbind decode_unbind
unbind-Whole unbind h q = empty_body unbind h q

pub data UnbindResp : Type 0 where
  unbind_resp : UnbindResp

unfoldable pub encode_unbind_resp : UnbindResp → Put CodecError
encode_unbind_resp p = done

unfoldable pub decode_unbind_resp : PduHeader → Get CodecError UnbindResp
decode_unbind_resp h = do check_empty h; pure unbind_resp

pub unbind_resp-Whole :
    (p : UnbindResp) (h : PduHeader)
    → h.total_length ≡ 20
    → Whole (encode_unbind_resp p) (decode_unbind_resp h) p 0
unfolding encode_unbind_resp decode_unbind_resp
unbind_resp-Whole unbind_resp h q = empty_body unbind_resp h q
