-- ===== src/Cmpp/Command.antt =====
-- crates/rsms-codec-cmpp/src/datatypes/command_id.rs: command ids, statuses and versions.
use Prim.Native.String.{String}
use rsms.Common.{
  ℕ, ◌+◌, ◌^◌, ◌≡◌, refl, Bool, true, false, Option, none, some, ltb, leb, ◌==◌, if◌then◌else◌,
  Result, ok, err, arith,
}

pub data CommandId : Type 0 where
  connect connect_resp terminate terminate_resp submit submit_resp deliver deliver_resp : CommandId
  query query_resp cancel cancel_resp active_test active_test_resp : CommandId

-- `as u32`
unfoldable pub to_u32 : CommandId → ℕ
to_u32 connect = 0x00000001
to_u32 connect_resp = 0x80000001
to_u32 terminate = 0x00000002
to_u32 terminate_resp = 0x80000002
to_u32 submit = 0x00000004
to_u32 submit_resp = 0x80000004
to_u32 deliver = 0x00000005
to_u32 deliver_resp = 0x80000005
to_u32 query = 0x00000006
to_u32 query_resp = 0x80000006
to_u32 cancel = 0x00000007
to_u32 cancel_resp = 0x80000007
to_u32 active_test = 0x00000008
to_u32 active_test_resp = 0x80000008

-- The derived `try_from`: the id with this value, if there is one.
unfoldable pub try_from : ℕ → Option CommandId
try_from n =
    if n == 0x00000001
    then some connect
    else if n == 0x80000001
    then some connect_resp
    else if n == 0x00000002
    then some terminate
    else if n == 0x80000002
    then some terminate_resp
    else if n == 0x00000004
    then some submit
    else if n == 0x80000004
    then some submit_resp
    else if n == 0x00000005
    then some deliver
    else if n == 0x80000005
    then some deliver_resp
    else if n == 0x00000006
    then some query
    else if n == 0x80000006
    then some query_resp
    else if n == 0x00000007
    then some cancel
    else if n == 0x80000007
    then some cancel_resp
    else if n == 0x00000008
    then some active_test
    else if n == 0x80000008
    then some active_test_resp
    else none

unfoldable pub is_response : CommandId → Bool
is_response connect_resp = true
is_response terminate_resp = true
is_response submit_resp = true
is_response deliver_resp = true
is_response query_resp = true
is_response cancel_resp = true
is_response active_test_resp = true
is_response _ = false

unfoldable pub to_response : CommandId → CommandId
to_response connect = connect_resp
to_response terminate = terminate_resp
to_response submit = submit_resp
to_response deliver = deliver_resp
to_response query = query_resp
to_response cancel = cancel_resp
to_response active_test = active_test_resp
to_response other = other

pub data CmppVersion : Type 0 where
  v20 v30 : CmppVersion

unfoldable pub to_u8 : CmppVersion → ℕ
to_u8 v20 = 0x20
to_u8 v30 = 0x30

unfoldable pub from_wire : ℕ → Result String CmppVersion
from_wire v =
    if v == 0x20
    then ok v20
    else if v == 0x00
    then ok v20
    else if v == 0x01
    then ok v20
    else if v == 0x30
    then ok v30
    else err "unknown CMPP version"

unfoldable pub is_compatible_with : CmppVersion → CmppVersion → Bool
is_compatible_with v20 v20 = true
is_compatible_with v20 v30 = false
is_compatible_with v30 v20 = false
is_compatible_with v30 v30 = true

unfoldable pub negotiate : CmppVersion → CmppVersion → CmppVersion
unfolding is_compatible_with to_u8
negotiate own peer =
    if is_compatible_with own peer then if ltb (to_u8 own) (to_u8 peer) then own else peer else own

pub try_from-to_u32 : (c : CommandId) → try_from (to_u32 c) ≡ some c
unfolding try_from to_u32
try_from-to_u32 connect = refl
try_from-to_u32 connect_resp = refl
try_from-to_u32 terminate = refl
try_from-to_u32 terminate_resp = refl
try_from-to_u32 submit = refl
try_from-to_u32 submit_resp = refl
try_from-to_u32 deliver = refl
try_from-to_u32 deliver_resp = refl
try_from-to_u32 query = refl
try_from-to_u32 query_resp = refl
try_from-to_u32 cancel = refl
try_from-to_u32 cancel_resp = refl
try_from-to_u32 active_test = refl
try_from-to_u32 active_test_resp = refl

pub to_u32-try_from : (n : ℕ) (c : CommandId) → try_from n ≡ some c → to_u32 c ≡ n
unfolding try_from to_u32
to_u32-try_from n c h = ground arith

-- The response to a request has the number of the request with bit 31 set, the response to a
-- response is itself, and exactly the numbers with that bit are responses.
pub to_u32-to_response :
    (c : CommandId)
    → (to_u32 (to_response c) ≡ (if is_response c then to_u32 c else to_u32 c + 2 ^ 31))
      × (is_response c ≡ leb (2 ^ 31) (to_u32 c))
unfolding to_u32 to_response is_response
to_u32-to_response connect = (refl, refl)
to_u32-to_response connect_resp = (refl, refl)
to_u32-to_response terminate = (refl, refl)
to_u32-to_response terminate_resp = (refl, refl)
to_u32-to_response submit = (refl, refl)
to_u32-to_response submit_resp = (refl, refl)
to_u32-to_response deliver = (refl, refl)
to_u32-to_response deliver_resp = (refl, refl)
to_u32-to_response query = (refl, refl)
to_u32-to_response query_resp = (refl, refl)
to_u32-to_response cancel = (refl, refl)
to_u32-to_response cancel_resp = (refl, refl)
to_u32-to_response active_test = (refl, refl)
to_u32-to_response active_test_resp = (refl, refl)

-- Whatever the version of the peer, negotiation keeps the own version, also where the peer has the
-- lower one.
pub negotiate-own : (own peer : CmppVersion) → negotiate own peer ≡ own
unfolding negotiate
negotiate-own v20 v20 = refl
negotiate-own v20 v30 = refl
negotiate-own v30 v20 = refl
negotiate-own v30 v30 = refl
