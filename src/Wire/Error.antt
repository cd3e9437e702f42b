-- ===== src/Wire/Error.antt =====
-- The errors of the four codecs, which each crate (crates/rsms-codec-cmpp, -smgp, -sgip and -smpp, in
-- src/codec.rs) declares alike.
use Prim.Native.String.{String}
use rsms.Common.{ℕ}
use rsms.Core.Error.{IoError}
use rsms.Core.Pstring.{FieldTooLong}

-- The reason of a failed validation: a fixed text, or the text that a string's encoder makes.
pub data Reason : Type 0 where
  text : String → Reason
  of_pstring : FieldTooLong → Reason
  content_too_long : ℕ → Reason
  length_exceeds : ℕ → ℕ → Reason

pub data CodecError : Type 0 where
  incomplete : CodecError
  invalid_command_id : ℕ → CodecError
  invalid_pdu_length : ℕ → ℕ → ℕ → CodecError
  field_validation : String → Reason → CodecError
  io : IoError → CodecError

-- `CommandStatus`, with the names of the code in lower case.
pub data CommandStatus : Type 0 where
  esme_rok esme_rinvmsglen esme_rinvcmdid esme_rinvsyntax esme_rsyserr : CommandStatus

unfoldable pub to_command_status : CodecError → CommandStatus
to_command_status (invalid_pdu_length length low high) = esme_rinvmsglen
to_command_status (invalid_command_id n) = esme_rinvcmdid
to_command_status (field_validation field reason) = esme_rinvcmdid
to_command_status incomplete = esme_rsyserr
to_command_status (io e) = esme_rsyserr

-- `RsmsError::Codec` with the text of the error, and the panic of `expect` on it.
pub data MessageError : Type 0 where
  codec : CodecError → MessageError
  panic : CodecError → MessageError
