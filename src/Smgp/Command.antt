-- ===== src/Smgp/Command.antt =====
-- crates/rsms-codec-smgp/src/datatypes/command_id.rs: the ids of commands.
use rsms.Common.{
  ℕ, ◌≡◌, ◌<◌, refl, Bool, true, false, Option, none, some, ◌==◌, if◌then◌else◌, Result, ok, err,
  arith,
}
use rsms.Common.Bytes.{u32_mod}
use rsms.Wire.Error.{CodecError, invalid_command_id}

pub data CommandId : Type 0 where
  login login_resp submit submit_resp deliver deliver_resp active_test active_test_resp exit
        exit_resp query query_resp :
      CommandId

-- `as u32`
unfoldable pub to_u32 : CommandId → ℕ
to_u32 login = 0x00000001
to_u32 login_resp = 0x80000001
to_u32 submit = 0x00000002
to_u32 submit_resp = 0x80000002
to_u32 deliver = 0x00000003
to_u32 deliver_resp = 0x80000003
to_u32 active_test = 0x00000004
to_u32 active_test_resp = 0x80000004
to_u32 exit = 0x00000006
to_u32 exit_resp = 0x80000006
to_u32 query = 0x00000008
to_u32 query_resp = 0x80000008

-- The derived `try_from`: the id with this value, if there is one.
unfoldable pub try_from : ℕ → Option CommandId
try_from n =
    if n == 0x00000001
    then some login
    else if n == 0x80000001
    then some login_resp
    else if n == 0x00000002
    then some submit
    else if n == 0x80000002
    then some submit_resp
    else if n == 0x00000003
    then some deliver
    else if n == 0x80000003
    then some deliver_resp
    else if n == 0x00000004
    then some active_test
    else if n == 0x80000004
    then some active_test_resp
    else if n == 0x00000006
    then some exit
    else if n == 0x80000006
    then some exit_resp
    else if n == 0x00000008
    then some query
    else if n == 0x80000008
    then some query_resp
    else none

unfoldable pub is_response : CommandId → Bool
is_response login_resp = true
is_response submit_resp = true
is_response deliver_resp = true
is_response active_test_resp = true
is_response exit_resp = true
is_response query_resp = true
is_response _ = false

pub try_from-to_u32 : (c : CommandId) → try_from (to_u32 c) ≡ some c
unfolding try_from to_u32
try_from-to_u32 login = refl
try_from-to_u32 login_resp = refl
try_from-to_u32 submit = refl
try_from-to_u32 submit_resp = refl
try_from-to_u32 deliver = refl
try_from-to_u32 deliver_resp = refl
try_from-to_u32 active_test = refl
try_from-to_u32 active_test_resp = refl
try_from-to_u32 exit = refl
try_from-to_u32 exit_resp = refl
try_from-to_u32 query = refl
try_from-to_u32 query_resp = refl

pub to_u32-bounded : (c : CommandId) → to_u32 c < u32_mod
unfolding to_u32
to_u32-bounded c = ground arith

pub to_u32-try_from : (n : ℕ) (c : CommandId) → try_from n ≡ some c → to_u32 c ≡ n
unfolding try_from to_u32
to_u32-try_from n c h = ground arith

-- `CommandId::try_from(raw).map_err(…)`
unfoldable pub get_command_id : ℕ → Result CodecError CommandId
get_command_id raw = elim (try_from raw) [ none ↦ err (invalid_command_id raw) | some c ↦ ok c ]

pub get_command_id-to_u32 : (c : CommandId) → get_command_id (to_u32 c) ≡ ok c
unfolding get_command_id
get_command_id-to_u32 c = rw (try_from-to_u32 c, get_command_id) refl
