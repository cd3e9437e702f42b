-- ===== src/Smgp/Simple.antt =====
-- crates/rsms-codec-smgp/src/datatypes/active_test.rs: the bodies without fields.
use rsms.Common.{◌≡◌, not, false, ◌==◌, arith}
use rsms.Wire.Error.{CodecError, invalid_pdu_length}
use rsms.Wire.Fields.{Get, Put, ◌>>=◌, ◌>>◌, pure, done, check}
use rsms.Wire.Trip.{Trip, Trip-pure, Trip-check}
use rsms.Smgp.PduHeader.{PduHeader, header_size}

-- The length in the header; what remains of the buffer is not looked at.
unfoldable pub check_empty : PduHeader → Get CodecError (Unit {0})
check_empty h =
    check (not (h.total_length == header_size))
      (invalid_pdu_length h.total_length header_size header_size)

empty_body :
    {A : Type 0} (x : A) (h : PduHeader)
    → h.total_length ≡ 12
    → Trip {E = CodecError} done (check_empty h >>= λ _. pure x) x 0
unfolding check_empty
empty_body x h q =
    let right : not (h.total_length == header_size) ≡ false = ground arith in
    Trip-check _ right (Trip-pure x)

pub data ActiveTest : Type 0 where
  active_test : ActiveTest

unfoldable pub encode_active_test : ActiveTest → Put CodecError
encode_active_test p = done

unfoldable pub decode_active_test : PduHeader → Get CodecError ActiveTest
decode_active_test h = do check_empty h; pure active_test

pub active_test-Trip :
    (p : ActiveTest) (h : PduHeader)
    → h.total_length ≡ 12
    → Trip (encode_active_test p) (decode_active_test h) p 0
unfolding encode_active_test decode_active_test
active_test-Trip active_test h q = empty_body active_test h q

pub data ActiveTestResp : Type 0 where
  active_test_resp : ActiveTestResp

unfoldable pub encode_active_test_resp : ActiveTestResp → Put CodecError
encode_active_test_resp p = done

unfoldable pub decode_active_test_resp : PduHeader → Get CodecError ActiveTestResp
decode_active_test_resp h = do check_empty h; pure active_test_resp

pub active_test_resp-Trip :
    (p : ActiveTestResp) (h : PduHeader)
    → h.total_length ≡ 12
    → Trip (encode_active_test_resp p) (decode_active_test_resp h) p 0
unfolding encode_active_test_resp decode_active_test_resp
active_test_resp-Trip active_test_resp h q = empty_body active_test_resp h q

pub data Exit : Type 0 where
  exit : Exit

unfoldable pub encode_exit : Exit → Put CodecError
encode_exit p = done

unfoldable pub decode_exit : PduHeader → Get CodecError Exit
decode_exit h = do check_empty h; pure exit

pub exit-Trip :
    (p : Exit) (h : PduHeader) → h.total_length ≡ 12 → Trip (encode_exit p) (decode_exit h) p 0
unfolding encode_exit decode_exit
exit-Trip exit h q = empty_body exit h q

pub data ExitResp : Type 0 where
  exit_resp : ExitResp

unfoldable pub encode_exit_resp : ExitResp → Put CodecError
encode_exit_resp p = done

unfoldable pub decode_exit_resp : PduHeader → Get CodecError ExitResp
decode_exit_resp h = do check_empty h; pure exit_resp

pub exit_resp-Trip :
    (p : ExitResp) (h : PduHeader)
    → h.total_length ≡ 12
    → Trip (encode_exit_resp p) (decode_exit_resp h) p 0
unfolding encode_exit_resp decode_exit_resp
exit_resp-Trip exit_resp h q = empty_body exit_resp h q
