-- ===== src/Cmpp/PduHeader.antt =====
-- crates/rsms-codec-cmpp/src/codec.rs: the header of a PDU, read from a cursor and written.
-- A reader takes the bytes that remain and gives a value and what remains after it.
use rsms.Common.{
  ℕ, ◌≤◌, ◌<◌, ◌≡◌, refl, subst, sym, ap, ◌∙◌, false, none, some, inl, inr, List, [], ◌∷◌, ◌++◌,
  append_assoc, ltb, length, All, Option-cases, Result, ok, err, ◌>>=◌, fail_if, bind-ok,
  fail_if-ok, ok_injective, arith,
}
use rsms.Common.Bytes.{
  IsByte, u32_mod, u32_be, from_u32_be, from_u32_be-u32_be, u32_be-from_u32_be, from_u32_be-bounded,
}
use rsms.Wire.Error.{CodecError, incomplete, invalid_command_id, invalid_pdu_length}
use rsms.Cmpp.Command.{CommandId, to_u32, try_from, try_from-to_u32, to_u32-try_from}

abbrev pub max_pdu_size : ℕ
max_pdu_size = 65536

abbrev pub header_size : ℕ
header_size = 12

pub record PduHeader : Type 0 where
  pub total_length : ℕ
  pub command_id : CommandId
  pub sequence_id : ℕ

-- `try_get_u32`
unfoldable pub try_get_u32 : List ℕ → Result CodecError (ℕ × List ℕ)
unfolding from_u32_be
try_get_u32 [] = err incomplete
try_get_u32 (a ∷ []) = err incomplete
try_get_u32 (a ∷ b ∷ []) = err incomplete
try_get_u32 (a ∷ b ∷ c ∷ []) = err incomplete
try_get_u32 (a ∷ b ∷ c ∷ d ∷ rest) = ok (from_u32_be a b c d, rest)

abbrev invalid_length : ℕ → CodecError
invalid_length total = invalid_pdu_length total header_size max_pdu_size

-- `CommandId::try_from(raw).map_err(…)`
unfoldable pub get_command_id : ℕ → Result CodecError CommandId
get_command_id raw = elim (try_from raw) [ none ↦ err (invalid_command_id raw) | some c ↦ ok c ]

unfoldable pub decode : List ℕ → Result CodecError (PduHeader × List ℕ)
decode b = fail_if (ltb (length b) header_size) incomplete >>= λ _. try_get_u32 b >>= λ (total, b1).
    try_get_u32 b1 >>= λ (raw, b2). get_command_id raw >>= λ id. try_get_u32 b2 >>= λ (seq, b3).
    fail_if (ltb total header_size) (invalid_length total) >>= λ _.
    fail_if (ltb max_pdu_size total) (invalid_length total) >>= λ _.
    ok (record { total_length = total; command_id = id; sequence_id = seq }, b3)

unfoldable pub encode : PduHeader → List ℕ
encode h = u32_be h.total_length ++ (u32_be (to_u32 h.command_id) ++ u32_be h.sequence_id)

-- A header that the type of its fields and the decoder's bounds allow.
pub record IsHeader (h : PduHeader) : Type 0 where
  pub low : 12 ≤ h.total_length
  pub high : h.total_length ≤ 65536
  pub sequence : h.sequence_id < u32_mod

pub get_u32-u32_be :
    (n : ℕ) (rest : List ℕ) → n < u32_mod → try_get_u32 (u32_be n ++ rest) ≡ ok (n, rest)
unfolding try_get_u32 u32_be
get_u32-u32_be n rest h = ap (λ (k : ℕ). ok (k, rest)) (from_u32_be-u32_be n h)

to_u32-bounded : (c : CommandId) → to_u32 c < u32_mod
unfolding to_u32
to_u32-bounded c = ground arith

pub length-u32_be : (n : ℕ) → length (u32_be n) ≡ 4
unfolding u32_be
length-u32_be n = refl

get_command_id-to_u32 : (c : CommandId) → get_command_id (to_u32 c) ≡ ok c
unfolding get_command_id
get_command_id-to_u32 c = rw (try_from-to_u32 c, get_command_id) refl

-- A header whose length is from 12 to 65536 and whose sequence number fits 32 bits is read back from
-- the bytes that it is written in, with whatever follows left over.
pub decode-encode :
    (h : PduHeader) (rest : List ℕ) → IsHeader h → decode (encode h ++ rest) ≡ ok (h, rest)
unfolding decode encode
decode-encode h rest ok_h =
    let id = u32_be (to_u32 h.command_id) in
    let seq = u32_be h.sequence_id in
    let enough : ltb (length (u32_be h.total_length ++ (id ++ (seq ++ rest)))) 12 ≡ false =
      unfold u32_be in ground arith in
    let low : ltb h.total_length 12 ≡ false = ground (arith, ok_h.low) in
    let high : ltb 65536 h.total_length ≡ false = ground (arith, ok_h.high) in
    rw
      (
        append_assoc (u32_be h.total_length) (id ++ seq) rest,
        append_assoc id seq rest,
        enough,
        get_u32-u32_be h.total_length (id ++ (seq ++ rest)) (omega (arith, ok_h.high)),
        get_u32-u32_be (to_u32 h.command_id) (seq ++ rest) (to_u32-bounded h.command_id),
        get_command_id-to_u32 h.command_id,
        get_u32-u32_be h.sequence_id rest ok_h.sequence,
        low,
        high,
      )
      refl

-- A read value is the four bytes that it was read from.
get_u32-inv :
    (b rest : List ℕ) (n : ℕ)
    → All IsByte b
    → try_get_u32 b ≡ ok (n, rest)
    → (u32_be n ++ rest ≡ b) × All IsByte rest × (n < u32_mod)
unfolding try_get_u32
get_u32-inv [] rest n h e = absurd cc
get_u32-inv (a ∷ []) rest n h e = absurd cc
get_u32-inv (a ∷ b ∷ []) rest n h e = absurd cc
get_u32-inv (a ∷ b ∷ c ∷ []) rest n h e = absurd cc
get_u32-inv (a ∷ b ∷ c ∷ d ∷ tail) rest n (ha, (hb, (hc, (hd, h)))) e =
    let value : from_u32_be a b c d ≡ n = cc in
    let left : tail ≡ rest = cc in
    (
      rw (← value, u32_be-from_u32_be a b c d ha hb hc hd)
          (ap (λ (l : List ℕ). a ∷ b ∷ c ∷ d ∷ l) (sym left)),
      subst (All IsByte) left h,
      subst (λ (k : ℕ). k < u32_mod) value (from_u32_be-bounded a b c d ha hb hc hd),
    )

get_command_id-inv : (raw : ℕ) (c : CommandId) → get_command_id raw ≡ ok c → to_u32 c ≡ raw
unfolding get_command_id
get_command_id-inv raw c e = elim (Option-cases (try_from raw)) [
  | inl q ↦
      absurd (let clash : err (invalid_command_id raw) ≡ ok c = rw (q, get_command_id) at e in cc)
  | inr (d, q) ↦
      let same : d ≡ c = (let found : ok d ≡ ok c = rw (q, get_command_id) at e in cc) in
      ap to_u32 (sym same) ∙ to_u32-try_from raw d q
]

above : (n : ℕ) → ltb n header_size ≡ false → 12 ≤ n
above n h = ground arith

below : (n : ℕ) → ltb max_pdu_size n ≡ false → n ≤ 65536
below n h = ground arith

glue :
    (b b1 b2 rest total raw_be seq_be : List ℕ)
    → total ++ b1 ≡ b
    → raw_be ++ b2 ≡ b1
    → seq_be ++ rest ≡ b2
    → (total ++ (raw_be ++ seq_be)) ++ rest ≡ b
glue b b1 b2 rest total raw_be seq_be s1 s2 s3 =
    append_assoc total (raw_be ++ seq_be) rest
    ∙ ap (λ (l : List ℕ). total ++ l)
        (append_assoc raw_be seq_be rest ∙ ap (λ (l : List ℕ). raw_be ++ l) s3 ∙ s2)
    ∙ s1

-- A header that is read obeys the bounds, and writing it gives back the bytes that it was read
-- from, in front of those left over.
pub encode-decode :
    (b rest : List ℕ) (h : PduHeader)
    → All IsByte b
    → decode b ≡ ok (h, rest)
    → (encode h ++ rest ≡ b) × IsHeader h
unfolding decode encode
encode-decode b rest h bytes e =
    let (_, _, e1) = bind-ok (fail_if (ltb (length b) header_size) incomplete) e in
    let ((total, b1), q1, e2) = bind-ok (try_get_u32 b) e1 in
    let ((raw, b2), q2, e3) = bind-ok (try_get_u32 b1) e2 in
    let (id, q3, e4) = bind-ok (get_command_id raw) e3 in
    let ((seq, b3), q4, e5) = bind-ok (try_get_u32 b2) e4 in
    let (_, low, e6) = bind-ok (fail_if (ltb total header_size) (invalid_length total)) e5 in
    let (_, high, e7) = bind-ok (fail_if (ltb max_pdu_size total) (invalid_length total)) e6 in
    let (s1, bytes1, _) = get_u32-inv b b1 total bytes q1 in
    let (s2, bytes2, _) = get_u32-inv b1 b2 raw bytes1 q2 in
    let (s3, _, small) = get_u32-inv b2 b3 seq bytes2 q4 in
    let number = get_command_id-inv raw id q3 in
    let low' = fail_if-ok (ltb total header_size) (invalid_length total) low in
    let high' = fail_if-ok (ltb max_pdu_size total) (invalid_length total) high in
    let h' : PduHeader = record { total_length = total; command_id = id; sequence_id = seq } in
    let pair : (h', b3) ≡ (h, rest) = ok_injective e7 in
    let same : h' ≡ h = ap (λ s. s.0) pair in
    let left : b3 ≡ rest = ap (λ s. s.1) pair in
    subst (λ (k : PduHeader). (encode k ++ rest ≡ b) × IsHeader k) same
      (
        glue b b1 b2 rest (u32_be total) (u32_be (to_u32 id)) (u32_be seq) s1
            (subst (λ (n : ℕ). u32_be n ++ b2 ≡ b1) (sym number) s2)
            (subst (λ (l : List ℕ). u32_be seq ++ l ≡ b2) left s3),
        record { low = above total low'; high = below total high'; sequence = small },
      )
