-- ===== src/Sgip/Sequence.antt =====
-- crates/rsms-codec-sgip/src/datatypes/sgip_sequence.rs: the sequence number of three parts.
use rsms.Common.{ℕ, ◌<◌}
use rsms.Common.Bytes.{u32_mod}
use rsms.Wire.Error.{CodecError, incomplete}
use rsms.Wire.Fields.{Get, Put, ◌>>=◌, ◌⊕◌, pure, done, put_u32}
use rsms.Wire.Trip.{Trip, Trip-pure, Trip-seq, Trip-u32}
use rsms.Wire.Body.{u32}

pub record SgipSequence : Type 0 where
  pub node_id : ℕ
  pub timestamp : ℕ
  pub number : ℕ

-- The error is the one that the callers put in place of the end of the input.
unfoldable pub decode_sequence : Get CodecError SgipSequence
decode_sequence = do
  node_id ← u32
  timestamp ← u32
  number ← u32
  pure (record { node_id = node_id; timestamp = timestamp; number = number })

unfoldable pub encode_sequence : SgipSequence → Put CodecError
encode_sequence s = put_u32 s.node_id ⊕ put_u32 s.timestamp ⊕ put_u32 s.number ⊕ done

pub record IsSequence (s : SgipSequence) : Type 0 where
  pub node_id : s.node_id < u32_mod
  pub timestamp : s.timestamp < u32_mod
  pub number : s.number < u32_mod

pub sequence-Trip :
    (s : SgipSequence) → IsSequence s → Trip (encode_sequence s) decode_sequence s 12
unfolding encode_sequence decode_sequence
sequence-Trip s fits = Trip-seq _ (Trip-u32 incomplete fits.node_id) (
    Trip-seq _ (Trip-u32 incomplete fits.timestamp)
      (Trip-seq _ (Trip-u32 incomplete fits.number) (Trip-pure s)))
