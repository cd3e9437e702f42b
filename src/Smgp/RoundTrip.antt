-- ===== src/Smgp/RoundTrip.antt =====
-- Every message: encoded and decoded again.
use rsms.Common.{
  ℕ, ◌+◌, ◌%◌, ◌<◌, ◌≤◌, ◌≡◌, refl, sym, ap, subst, ◌∙◌, List, ◌++◌, length, drop, drop-append,
  Result, ok, map_err, ◌>>=◌, arith,
}
use rsms.Common.Bytes.{u32_mod, u32_be}
use rsms.Wire.Error.{CodecError, panic}
use rsms.Wire.Fields.{Get, Put, ◌⊕◌, done, put_u32, put_slice}
use rsms.Wire.Trip.{Trip}
use rsms.Wire.Whole.{Whole, Trip-Whole}
use rsms.Smgp.Command
use rsms.Smgp.Command.{CommandId, to_u32}
use rsms.Smgp.PduHeader.{PduHeader, IsHeader, decode_header, encode_header, header-Trip}
use rsms.Smgp.Pdu.{with_header, encode_pdu, command_id, to_pdu_bytes}
use rsms.Smgp.Message
use rsms.Smgp.Message.{SmgpMessage, decode_body, decode_message, encode_message}
use rsms.Smgp.Simple
use rsms.Smgp.Simple.{active_test-Trip, active_test_resp-Trip, exit-Trip, exit_resp-Trip}
use rsms.Smgp.Login.{
  Login, LoginResp, IsLogin, IsLoginResp, login-Trip, login_resp-Trip, login_size, login_resp_size,
}
use rsms.Smgp.Submit.{
  Submit, SubmitResp, IsSubmit, IsSubmitResp, submit-Whole, submit_read, submit_resp-Trip,
  submit_size, submit_resp_size,
}
use rsms.Smgp.Deliver.{
  Deliver, DeliverResp, IsDeliver, IsDeliverResp, deliver-Whole, deliver_read, deliver_resp-Trip,
  deliver_size, deliver_resp_size,
}

-- The message that is read where one was written: only optional parameters may be of another kind.
abbrev pub message_read : SmgpMessage → SmgpMessage
message_read (Message.submit seq p) = Message.submit seq (submit_read p)
message_read (Message.deliver seq p) = Message.deliver seq (deliver_read p)
message_read m = m

-- What the encoder and the decoder do with a message.
abbrev pub Sent : SmgpMessage → Type 0
Sent m =
    (bytes : List ℕ) × (encode_message m ≡ ok bytes) × (decode_message bytes ≡ ok (message_read m))

header_of : CommandId → ℕ → ℕ → PduHeader
header_of id seq size = record { total_length = 12 + size; command_id = id; sequence_id = seq }

with_header-encode :
    (id : CommandId) (seq size : ℕ) (body : List ℕ)
    → 12 + size ≤ 65536
    → length body ≡ size
    → with_header id seq body ≡ (encode_header (header_of id seq size) ⊕ put_slice body)
unfolding with_header header_of
with_header-encode id seq size body fits width =
    let total : (12 + length body) % u32_mod ≡ 12 + size = omega arith in rw total refl

header_and_body :
    (h : PduHeader) (body : List ℕ)
    → Trip (encode_header h) decode_header h 12
    → (bytes : List ℕ) × ((encode_header h ⊕ put_slice body) ≡ ok bytes)
      × (decode_header bytes ≡ ok (h, body))
      × (drop 12 bytes ≡ body)
unfolding put_slice ◌⊕◌
header_and_body h body t = (
  t.bytes ++ body,
  rw t.written refl,
  t.reads body,
  subst (λ (n : ℕ). drop n (t.bytes ++ body) ≡ body) t.width (drop-append t.bytes body),
)

-- A frame: its header is read, and the body is behind it.
framed :
    (id : CommandId) (seq size : ℕ) (body : List ℕ)
    → seq < u32_mod
    → 12 + size ≤ 65536
    → length body ≡ size
    → (bytes : List ℕ) × (with_header id seq body ≡ ok bytes)
      × (decode_header bytes ≡ ok (header_of id seq size, body))
      × (drop 12 bytes ≡ body)
unfolding header_of
framed id seq size body small fits width =
    let ok_h : IsHeader (header_of id seq size) = record {
      low = omega arith;
      high = fits;
      sequence = small;
    } in
    let (bytes, written, header, rest) =
      header_and_body (header_of id seq size) body (header-Trip (header_of id seq size) ok_h) in
    (bytes, with_header-encode id seq size body fits width ∙ written, header, rest)

module _ {A : Type 0} {w : Put CodecError} {r : PduHeader → Get CodecError A} {a : A} where
  sent :
      (id : CommandId) (seq size : ℕ) (into : ℕ → A → SmgpMessage)
      → seq < u32_mod
      → 12 + size ≤ 65536
      → ((h : PduHeader) → h.total_length ≡ 12 + size → Whole w (r h) a size)
      → ((h : PduHeader) (b : List ℕ)
          → decode_body id h b ≡ (r h b >>= λ (p, rest). ok (into h.sequence_id p)))
      → (bytes : List ℕ) × (map_err panic (w >>= λ body. with_header id seq body) ≡ ok bytes)
        × (decode_message bytes ≡ ok (into seq a))
  unfolding decode_message header_of
  sent id seq size into small fits whole entry =
      let h = header_of id seq size in
      let t = whole h refl in
      let (bytes, written, header, body) = framed id seq size t.bytes small fits t.width in
      let found : decode_body id h t.bytes ≡ ok (into seq a) =
        entry h t.bytes
        ∙ ap (λ (m : Result CodecError (A × List ℕ)). m >>= λ (p, rest). ok (into seq p))
            (t.reads.1) in
      (
        bytes,
        ap (λ (m : Result CodecError (List ℕ)). map_err panic (m >>= λ b. with_header id seq b))
              t.written
            ∙ ap (map_err panic) written,
        rw (header, body, found) refl,
      )

-- A command that has no message of its own.
pub data IsOther : CommandId → Type 0 where
  is_query : IsOther Command.query
  is_query_resp : IsOther Command.query_resp

other_body :
    (id : CommandId) (h : PduHeader) (b : List ℕ)
    → IsOther id
    → decode_body id h b ≡ ok (Message.unknown (to_u32 id) h.sequence_id b)
unfolding decode_body
other_body _ h b is_query = refl
other_body _ h b is_query_resp = refl

unknown_frame :
    (id : CommandId) (seq : ℕ) (body : List ℕ)
    → 12 + length body ≤ 65536
    → with_header id seq body
      ≡ ok (u32_be (12 + length body) ++ (u32_be (to_u32 id) ++ (u32_be seq ++ body)))
unfolding with_header encode_header put_slice put_u32 ◌⊕◌ done u32_be
unknown_frame id seq body fits =
    let total : (12 + length body) % u32_mod ≡ 12 + length body = omega arith in rw total refl

Sent-unknown :
    (id : CommandId) (seq : ℕ) (body : List ℕ)
    → IsOther id
    → seq < u32_mod
    → 12 + length body ≤ 65536
    → Sent (Message.unknown (to_u32 id) seq body)
unfolding decode_message encode_message header_of
Sent-unknown id seq body other small fits =
    let (bytes, written, header, rest) = framed id seq (length body) body small fits refl in
    let h = header_of id seq (length body) in
    (
      bytes,
      ap (map_err panic) (sym (unknown_frame id seq body fits) ∙ written),
      rw (header, rest, other_body id h body other) refl,
    )

-- A message whose body fits the wire and whose frame is not longer than the header allows.
pub data IsMessage : SmgpMessage → Type 0 where
  is_login : (seq : ℕ) (p : Login) → seq < u32_mod → IsLogin p → IsMessage (Message.login seq p)
  is_login_resp :
      (seq : ℕ) (p : LoginResp)
      → seq < u32_mod
      → IsLoginResp p
      → IsMessage (Message.login_resp seq p)
  is_submit :
      (seq : ℕ) (p : Submit)
      → seq < u32_mod
      → IsSubmit p
      → 12 + submit_size p ≤ 65536
      → IsMessage (Message.submit seq p)
  is_submit_resp :
      (seq : ℕ) (p : SubmitResp)
      → seq < u32_mod
      → IsSubmitResp p
      → IsMessage (Message.submit_resp seq p)
  is_deliver :
      (seq : ℕ) (p : Deliver)
      → seq < u32_mod
      → IsDeliver p
      → 12 + deliver_size p ≤ 65536
      → IsMessage (Message.deliver seq p)
  is_deliver_resp :
      (seq : ℕ) (p : DeliverResp)
      → seq < u32_mod
      → IsDeliverResp p
      → IsMessage (Message.deliver_resp seq p)
  is_active_test : (seq : ℕ) → seq < u32_mod → IsMessage (Message.active_test seq)
  is_active_test_resp : (seq : ℕ) → seq < u32_mod → IsMessage (Message.active_test_resp seq)
  is_exit : (seq : ℕ) → seq < u32_mod → IsMessage (Message.exit seq)
  is_exit_resp : (seq : ℕ) → seq < u32_mod → IsMessage (Message.exit_resp seq)
  is_unknown :
      (id : CommandId) (seq : ℕ) (body : List ℕ)
      → IsOther id
      → seq < u32_mod
      → 12 + length body ≤ 65536
      → IsMessage (Message.unknown (to_u32 id) seq body)

-- A message of any kind whose sequence number and fields fit the wire, and whose frame is not longer
-- than 65536 bytes, is encoded, and the bytes decoded are the message, except that an optional
-- parameter that is a string or octets is read by its length: with no bytes as empty, with 1, 2 or 4 as
-- a number, else as octets. A message that only keeps its body has the command of a query or of its
-- response.
pub decode_message-encode_message : (m : SmgpMessage) → IsMessage m → Sent m
unfolding encode_message encode_pdu to_pdu_bytes command_id decode_body
decode_message-encode_message _ (is_login seq p small fits) =
    sent Command.login seq login_size Message.login small (omega arith)
      (λ h q. Trip-Whole (login-Trip p h fits q)) (λ h b. refl)
decode_message-encode_message _ (is_login_resp seq p small fits) =
    sent Command.login_resp seq login_resp_size Message.login_resp small (omega arith)
      (λ h q. Trip-Whole (login_resp-Trip p h fits q)) (λ h b. refl)
decode_message-encode_message _ (is_submit seq p small fits short) =
    sent Command.submit seq (submit_size p) Message.submit small short
      (λ h q. submit-Whole p h fits q) (λ h b. refl)
decode_message-encode_message _ (is_submit_resp seq p small fits) =
    sent Command.submit_resp seq submit_resp_size Message.submit_resp small (omega arith)
      (λ h q. Trip-Whole (submit_resp-Trip p h fits q)) (λ h b. refl)
decode_message-encode_message _ (is_deliver seq p small fits short) =
    sent Command.deliver seq (deliver_size p) Message.deliver small short
      (λ h q. deliver-Whole p h fits q) (λ h b. refl)
decode_message-encode_message _ (is_deliver_resp seq p small fits) =
    sent Command.deliver_resp seq deliver_resp_size Message.deliver_resp small (omega arith)
      (λ h q. Trip-Whole (deliver_resp-Trip p h fits q)) (λ h b. refl)
decode_message-encode_message _ (is_active_test seq small) =
    sent Command.active_test seq 0 (λ n p. Message.active_test n) small (omega arith)
      (λ h q. Trip-Whole (active_test-Trip Simple.active_test h q)) (λ h b. refl)
decode_message-encode_message _ (is_active_test_resp seq small) =
    sent Command.active_test_resp seq 0 (λ n p. Message.active_test_resp n) small (omega arith)
      (λ h q. Trip-Whole (active_test_resp-Trip Simple.active_test_resp h q)) (λ h b. refl)
decode_message-encode_message _ (is_exit seq small) =
    sent Command.exit seq 0 (λ n p. Message.exit n) small (omega arith)
      (λ h q. Trip-Whole (exit-Trip Simple.exit h q)) (λ h b. refl)
decode_message-encode_message _ (is_exit_resp seq small) =
    sent Command.exit_resp seq 0 (λ n p. Message.exit_resp n) small (omega arith)
      (λ h q. Trip-Whole (exit_resp-Trip Simple.exit_resp h q)) (λ h b. refl)
decode_message-encode_message _ (is_unknown id seq body other small short) =
    Sent-unknown id seq body other small short
