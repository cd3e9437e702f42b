-- ===== src/Cmpp/Sent.antt =====
-- Messages that are encoded and decoded again: crates/rsms-codec-cmpp/src/message.rs with the header,
-- the registry and the bodies.
use rsms.Common.{
  ℕ, ◌+◌, ◌%◌, ◌≤◌, ◌<◌, ◌≡◌, refl, ap, subst, ◌∙◌, some, List, ◌++◌, append_assoc, length, drop,
  ok, map_err, ◌>>=◌, arith,
}
use rsms.Common.Bytes.{u32_mod, u32_be}
use rsms.Wire.Fields.{Get, Put}
use rsms.Wire.Whole.{Whole}
use rsms.Cmpp.Command.{CommandId, CmppVersion, v20, v30, to_u32, to_u8, from_wire}
use rsms.Wire.Error.{CodecError, panic}
use rsms.Cmpp.PduHeader.{PduHeader, IsHeader, decode, encode, decode-encode}
use rsms.Cmpp.Pdu.{Pdu, with_header}
use rsms.Cmpp.Registry.{decode_fn, for_version, dispatch}
use rsms.Cmpp.Message.{
  CmppMessage, version, message_of, version_of, decode_message_with_version, encode_v20_pdu,
  encode_message,
}

abbrev frame : CommandId → ℕ → ℕ → List ℕ → List ℕ
frame id seq size body = u32_be (12 + size) ++ (u32_be (to_u32 id) ++ (u32_be seq ++ body))

header_read :
    (h : PduHeader) (body : List ℕ)
    → IsHeader h
    → decode
        (u32_be h.total_length ++ (u32_be (to_u32 h.command_id) ++ (u32_be h.sequence_id ++ body)))
      ≡ ok (h, body)
unfolding encode
header_read h body ok_h =
    let total = u32_be h.total_length in
    let id = u32_be (to_u32 h.command_id) in
    let seq = u32_be h.sequence_id in
    let whole : (total ++ (id ++ seq)) ++ body ≡ total ++ (id ++ (seq ++ body)) =
      append_assoc total (id ++ seq) body
      ∙ ap (λ (l : List ℕ). total ++ l) (append_assoc id seq body) in
    subst (λ (l : List ℕ). decode l ≡ ok (h, body)) whole (decode-encode h body ok_h)

wire_version : (v : CmppVersion) → version_of (some (to_u8 v)) ≡ v
unfolding version_of from_wire to_u8
wire_version v20 = refl
wire_version v30 = refl

body_of : (id : CommandId) (seq size : ℕ) (body : List ℕ) → drop 12 (frame id seq size body) ≡ body
unfolding u32_be
body_of id seq size body = refl

-- A frame whose body the registry decodes.
frame_decoded :
    (v : CmppVersion) (id : CommandId) (seq size : ℕ) (body : List ℕ) (p : Pdu)
    → seq < u32_mod
    → 12 + size ≤ 65536
    → dispatch
        (for_version v)
        (record { total_length = 12 + size; command_id = id; sequence_id = seq })
        body
      ≡ ok p
    → decode_message_with_version (frame id seq size body) (some (to_u8 v))
      ≡ ok (message_of v seq p)
unfolding decode_message_with_version
frame_decoded v id seq size body p small fits found =
    let h : PduHeader = record { total_length = 12 + size; command_id = id; sequence_id = seq } in
    let ok_h : IsHeader h = record { low = omega arith; high = fits; sequence = small } in
    rw (header_read h body ok_h, body_of id seq size body, wire_version v, found) refl

abbrev header : ℕ → CommandId → ℕ → PduHeader
header total id seq = record { total_length = total; command_id = id; sequence_id = seq }

-- The decoder that a version registers for a command.
abbrev pub Entry :
    {A : Type 0} → CmppVersion → CommandId → (PduHeader → Get CodecError A) → (A → Pdu) → Type 0
Entry v id r into =
    (total seq : ℕ) (b : List ℕ)
    → dispatch (for_version v) (header total id seq) b ≡ decode_fn r into (header total id seq) b

-- What the encoders and the decoder do with a message.
abbrev pub Sent : CmppMessage → Type 0
Sent m =
    (bytes : List ℕ) × (encode_message m ≡ ok bytes)
    × (decode_message_with_version bytes (some (to_u8 (version m))) ≡ ok m)

module _ {A : Type 0} {w : Put CodecError} {r : PduHeader → Get CodecError A} {a : A} where
  -- A body that is decoded from what was written, in a frame with its length.
  sent_body :
      (into : A → Pdu) (v : CmppVersion) (id : CommandId) (seq size : ℕ)
      → seq < u32_mod
      → 12 + size ≤ 65536
      → ((h : PduHeader) → h.total_length ≡ 12 + size → Whole w (r h) a size)
      → Entry v id r into
      → (body : List ℕ) × (w ≡ ok body)
        × (length body ≡ size)
        × (decode_message_with_version (frame id seq size body) (some (to_u8 v))
            ≡ ok (message_of v seq (into a)))
  sent_body into v id seq size small fits whole entry =
      let h : PduHeader = record { total_length = 12 + size; command_id = id; sequence_id = seq } in
      let t = whole h refl in
      let read : decode_fn r into h t.bytes ≡ ok (into a) = rw (t.reads.1) refl in
      (
        t.bytes,
        t.written,
        t.width,
        frame_decoded v id seq size t.bytes (into a) small fits
            (entry (12 + size) seq t.bytes ∙ read),
      )

  pub sent_pdu :
      (into : A → Pdu) (v : CmppVersion) (id : CommandId) (seq size : ℕ)
      → seq < u32_mod
      → 12 + size ≤ 65536
      → ((h : PduHeader) → h.total_length ≡ 12 + size → Whole w (r h) a size)
      → Entry v id r into
      → (bytes : List ℕ) × (map_err panic (w >>= λ body. ok (with_header id seq body)) ≡ ok bytes)
        × (decode_message_with_version bytes (some (to_u8 v)) ≡ ok (message_of v seq (into a)))
  unfolding with_header
  sent_pdu into v id seq size small fits whole entry =
      let (body, written, width, decoded) = sent_body into v id seq size small fits whole entry in
      let total : (12 + length body) % u32_mod ≡ 12 + size = omega arith in
      (frame id seq size body, rw (written, total) refl, decoded)

  pub sent_v20 :
      (into : A → Pdu) (id : CommandId) (seq size : ℕ)
      → seq < u32_mod
      → 12 + size ≤ 65536
      → ((h : PduHeader) → h.total_length ≡ 12 + size → Whole w (r h) a size)
      → Entry v20 id r into
      → (bytes : List ℕ) × (encode_v20_pdu id seq size w ≡ ok bytes)
        × (decode_message_with_version bytes (some (to_u8 v20)) ≡ ok (message_of v20 seq (into a)))
  unfolding encode_v20_pdu
  sent_v20 into id seq size small fits whole entry =
      let (body, written, width, decoded) = sent_body into v20 id seq size small fits whole entry in
      (frame id seq size body, rw written refl, decoded)
