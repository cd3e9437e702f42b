-- ===== src/Cmpp/Simple.antt =====
-- crates/rsms-codec-cmpp/src/datatypes/active_test.rs and terminate.rs: the bodies with at most a byte.
use rsms.Wire.Error.{CodecError, incomplete, invalid_pdu_length, field_validation, text}
use rsms.Common.{ℕ, ◌+◌, ◌≡◌, refl, not, [], ltb, ◌==◌, length}
use rsms.Wire.Fields.{Get, Put, ◌>>=◌, ◌>>◌, ◌⊕◌, pure, done, check, put_u8}
use rsms.Wire.Trip.{Trip, Trip-pure, Trip-seq, Trip-u8}
use rsms.Wire.Whole.{Whole}
use rsms.Cmpp.PduHeader.{PduHeader, header_size}
use rsms.Wire.Body.{u8, check_length, at_length}

-- `ActiveTest`, `Terminate` and `TerminateResp` have no fields.
pub data ActiveTest : Type 0 where
  active_test : ActiveTest

pub data Terminate : Type 0 where
  terminate : Terminate

pub data TerminateResp : Type 0 where
  terminate_resp : TerminateResp

pub record ActiveTestResp : Type 0 where
  pub reserved : ℕ

-- `if buf.remaining() > 0`
unfoldable pub no_more : Get CodecError (Unit {0})
no_more b = check (ltb 0 (length b)) (field_validation "body" (text "must be empty")) b

-- The checks of a body that must be empty.
unfoldable pub check_empty : PduHeader → Get CodecError (Unit {0})
check_empty h = do
  check (not (h.total_length == header_size))
      (invalid_pdu_length h.total_length header_size header_size)
  no_more

unfoldable pub encode_active_test : ActiveTest → Put CodecError
encode_active_test p = done

unfoldable pub decode_active_test : PduHeader → Get CodecError ActiveTest
decode_active_test h = do check_empty h; pure active_test

unfoldable pub encode_terminate : Terminate → Put CodecError
encode_terminate p = done

unfoldable pub decode_terminate : PduHeader → Get CodecError Terminate
decode_terminate h = do check_empty h; pure terminate

unfoldable pub encode_terminate_resp : TerminateResp → Put CodecError
encode_terminate_resp p = done

unfoldable pub decode_terminate_resp : PduHeader → Get CodecError TerminateResp
decode_terminate_resp h = do check_empty h; pure terminate_resp

abbrev pub active_test_resp_size : ℕ
active_test_resp_size = 1

unfoldable pub encode_active_test_resp : ActiveTestResp → Put CodecError
encode_active_test_resp p = put_u8 p.reserved ⊕ done

unfoldable pub decode_active_test_resp : PduHeader → Get CodecError ActiveTestResp
decode_active_test_resp h = do
  check_length header_size h.total_length active_test_resp_size
  reserved ← u8
  pure (record { reserved = reserved })

pub active_test_resp-Trip :
    (p : ActiveTestResp) (h : PduHeader)
    → h.total_length ≡ 12 + active_test_resp_size
    → Trip (encode_active_test_resp p) (decode_active_test_resp h) p active_test_resp_size
unfolding encode_active_test_resp decode_active_test_resp
active_test_resp-Trip p h q =
    at_length header_size h.total_length active_test_resp_size q
      (Trip-seq _ (Trip-u8 incomplete p.reserved) (Trip-pure p))

empty_body :
    {A : Type 0} (x : A) (h : PduHeader)
    → h.total_length ≡ 12
    → Whole {E = CodecError} done (check_empty h >>= λ _. pure x) x 0
unfolding check_empty no_more check ◌>>=◌ pure done
empty_body x h q = record {
  bytes = [];
  written = refl;
  width = refl;
  reads = ([], rw (q, ◌>>=◌) refl);
}

pub active_test-Whole :
    (p : ActiveTest) (h : PduHeader)
    → h.total_length ≡ 12
    → Whole (encode_active_test p) (decode_active_test h) p 0
unfolding encode_active_test decode_active_test
active_test-Whole active_test h q = empty_body active_test h q

pub terminate-Whole :
    (p : Terminate) (h : PduHeader)
    → h.total_length ≡ 12
    → Whole (encode_terminate p) (decode_terminate h) p 0
unfolding encode_terminate decode_terminate
terminate-Whole terminate h q = empty_body terminate h q

pub terminate_resp-Whole :
    (p : TerminateResp) (h : PduHeader)
    → h.total_length ≡ 12
    → Whole (encode_terminate_resp p) (decode_terminate_resp h) p 0
unfolding encode_terminate_resp decode_terminate_resp
terminate_resp-Whole terminate_resp h q = empty_body terminate_resp h q
