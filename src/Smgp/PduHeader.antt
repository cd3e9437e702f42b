-- ===== src/Smgp/PduHeader.antt =====
-- crates/rsms-codec-smgp/src/codec.rs: the header of a PDU.
use rsms.Common.{ℕ, ◌≤◌, ◌<◌, ◌≡◌, false, ltb, arith}
use rsms.Common.Bytes.{u32_mod}
use rsms.Wire.Error.{CodecError, incomplete, invalid_pdu_length}
use rsms.Wire.Fields.{Get, Put, ◌>>=◌, ◌>>◌, ◌⊕◌, pure, done, check, ensure, lift, put_u32}
use rsms.Wire.Trip.{Trip, Trip-pure, Trip-seq, Trip-u32, Trip-ensure, Trip-check, Trip-lift}
use rsms.Wire.Body.{u32}
use rsms.Smgp.Command.{CommandId, to_u32, get_command_id, to_u32-bounded, get_command_id-to_u32}

abbrev pub max_pdu_size : ℕ
max_pdu_size = 65536

abbrev pub header_size : ℕ
header_size = 12

pub record PduHeader : Type 0 where
  pub total_length : ℕ
  pub command_id : CommandId
  pub sequence_id : ℕ

abbrev invalid_length : ℕ → CodecError
invalid_length total = invalid_pdu_length total header_size max_pdu_size

unfoldable pub decode_header : Get CodecError PduHeader
decode_header = do
  ensure incomplete header_size
  total_length ← u32
  raw ← u32
  command_id ← lift (get_command_id raw)
  sequence_id ← u32
  check (ltb total_length header_size) (invalid_length total_length)
  check (ltb max_pdu_size total_length) (invalid_length total_length)
  pure (record { total_length = total_length; command_id = command_id; sequence_id = sequence_id })

unfoldable pub encode_header : PduHeader → Put CodecError
encode_header h =
    put_u32 h.total_length ⊕ put_u32 (to_u32 h.command_id) ⊕ put_u32 h.sequence_id ⊕ done

-- A header that the type of its fields and the decoder's bounds allow.
pub record IsHeader (h : PduHeader) : Type 0 where
  pub low : 12 ≤ h.total_length
  pub high : h.total_length ≤ 65536
  pub sequence : h.sequence_id < u32_mod

pub header-Trip : (h : PduHeader) → IsHeader h → Trip (encode_header h) decode_header h 12
unfolding encode_header decode_header
header-Trip h fits =
    let low : ltb h.total_length 12 ≡ false = ground (arith, fits.low) in
    let high : ltb 65536 h.total_length ≡ false = ground (arith, fits.high) in
    Trip-ensure 12 incomplete (omega arith) (
      Trip-seq _ (Trip-u32 incomplete (omega (arith, fits.high))) (
        Trip-seq _ (Trip-u32 incomplete (to_u32-bounded h.command_id)) (
          Trip-lift _ (get_command_id-to_u32 h.command_id) (
            Trip-seq _ (Trip-u32 incomplete fits.sequence)
              (Trip-check _ low (Trip-check _ high (Trip-pure h)))))))
