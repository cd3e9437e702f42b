-- ===== src/Core/Protocol.antt =====
-- crates/rsms-core/src/protocol.rs: the four protocols and where their headers hold what.
use rsms.Common.{ℕ}

pub data Protocol : Type 0 where
  cmpp smgp smpp sgip : Protocol

unfoldable pub header_len : Protocol → ℕ
header_len cmpp = 12
header_len smgp = 12
header_len smpp = 16
header_len sgip = 20

unfoldable pub seq_offset : Protocol → ℕ
seq_offset smpp = 12
seq_offset sgip = 12
seq_offset cmpp = 8
seq_offset smgp = 8
