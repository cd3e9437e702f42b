-- ===== src/Sgip/Command.antt =====
-- crates/rsms-codec-sgip/src/datatypes/command_id.rs: the ids of commands.
use rsms.Common.{
  ℕ, ◌+◌, ◌^◌, ◌≡◌, ◌<◌, refl, Bool, true, false, Option, none, some, leb, ◌==◌, if◌then◌else◌,
  Result, ok, err, arith,
}
use rsms.Common.Bytes.{u32_mod}
use rsms.Wire.Error.{CodecError, invalid_command_id}

pub data CommandId : Type 0 where
  bind bind_resp unbind unbind_resp submit submit_resp deliver deliver_resp report report_resp trace
        trace_resp :
      CommandId

-- `as u32`
unfoldable pub to_u32 : CommandId → ℕ
to_u32 bind = 0x00000001
to_u32 bind_resp = 0x80000001
to_u32 unbind = 0x00000002
to_u32 unbind_resp = 0x80000002
to_u32 submit = 0x00000003
to_u32 submit_resp = 0x80000003
to_u32 deliver = 0x00000004
to_u32 deliver_resp = 0x80000004
to_u32 report = 0x00000005
to_u32 report_resp = 0x80000005
to_u32 trace = 0x00001000
to_u32 trace_resp = 0x80001000

-- The derived `try_from`: the id with this value, if there is one.
unfoldable pub try_from : ℕ → Option CommandId
try_from n =
    if n == 0x00000001
    then some bind
    else if n == 0x80000001
    then some bind_resp
    else if n == 0x00000002
    then some unbind
    else if n == 0x80000002
    then some unbind_resp
    else if n == 0x00000003
    then some submit
    else if n == 0x80000003
    then some submit_resp
    else if n == 0x00000004
    then some deliver
    else if n == 0x80000004
    then some deliver_resp
    else if n == 0x00000005
    then some report
    else if n == 0x80000005
    then some report_resp
    else if n == 0x00001000
    then some trace
    else if n == 0x80001000
    then some trace_resp
    else none

unfoldable pub is_response : CommandId → Bool
is_response bind_resp = true
is_response unbind_resp = true
is_response submit_resp = true
is_response deliver_resp = true
is_response report_resp = true
is_response trace_resp = true
is_response _ = false

unfoldable pub to_response : CommandId → CommandId
to_response bind = bind_resp
to_response unbind = unbind_resp
to_response submit = submit_resp
to_response deliver = deliver_resp
to_response report = report_resp
to_response trace = trace_resp
to_response other = other

pub try_from-to_u32 : (c : CommandId) → try_from (to_u32 c) ≡ some c
unfolding try_from to_u32
try_from-to_u32 bind = refl
try_from-to_u32 bind_resp = refl
try_from-to_u32 unbind = refl
try_from-to_u32 unbind_resp = refl
try_from-to_u32 submit = refl
try_from-to_u32 submit_resp = refl
try_from-to_u32 deliver = refl
try_from-to_u32 deliver_resp = refl
try_from-to_u32 report = refl
try_from-to_u32 report_resp = refl
try_from-to_u32 trace = refl
try_from-to_u32 trace_resp = refl

pub to_u32-bounded : (c : CommandId) → to_u32 c < u32_mod
unfolding to_u32
to_u32-bounded c = ground arith

pub to_u32-try_from : (n : ℕ) (c : CommandId) → try_from n ≡ some c → to_u32 c ≡ n
unfolding try_from to_u32
to_u32-try_from n c h = ground arith

-- `CommandId::try_from(raw).map_err(…)`
unfoldable pub get_command_id : ℕ → Result CodecError CommandId
get_command_id raw = elim (try_from raw) [ none ↦ err (invalid_command_id raw) | some c ↦ ok c ]

pub get_command_id-to_u32 : (c : CommandId) → get_command_id (to_u32 c) ≡ ok c
unfolding get_command_id
get_command_id-to_u32 c = rw (try_from-to_u32 c, get_command_id) refl

-- The number of a response is that of its request with bit 31 set, a response is its own response, and
-- exactly the numbers with that bit are responses.
pub to_u32-to_response :
    (c : CommandId)
    → (to_u32 (to_response c) ≡ (if is_response c then to_u32 c else to_u32 c + 2 ^ 31))
      × (is_response c ≡ leb (2 ^ 31) (to_u32 c))
unfolding to_u32 to_response is_response
to_u32-to_response bind = (refl, refl)
to_u32-to_response bind_resp = (refl, refl)
to_u32-to_response unbind = (refl, refl)
to_u32-to_response unbind_resp = (refl, refl)
to_u32-to_response submit = (refl, refl)
to_u32-to_response submit_resp = (refl, refl)
to_u32-to_response deliver = (refl, refl)
to_u32-to_response deliver_resp = (refl, refl)
to_u32-to_response report = (refl, refl)
to_u32-to_response report_resp = (refl, refl)
to_u32-to_response trace = (refl, refl)
to_u32-to_response trace_resp = (refl, refl)
