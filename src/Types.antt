-- ===== src/Types.antt =====
-- include/error.h, include/const.h, and the sizes of the structures that the code copies as bytes.
use c4irp.Prelude.{ℕ, Bool, true, false, if◌then◌else◌, ◌||◌}
use c4irp.Prelude.Int.{ℤ, pos, is_zero, eq_ℤ}

-- ch_error_t
pub data ErrorCode : Type 0 where
  success value_error uv_error protocol_error eaddrinuse fatal tls_error uninit in_progress
        timeout :
      ErrorCode

pub ErrorCode-discrete : Discrete ErrorCode
ErrorCode-discrete = hlevel

-- ch_ip_protocol_t, as the fields of type uint8_t hold it.
abbrev pub ipv4 : ℕ
ipv4 = 0

abbrev pub ipv6 : ℕ
ipv6 = 1

-- Sizes on a 64-bit little-endian host: padding after message_type and after actor_len.
abbrev pub sizeof_handshake : ℕ
sizeof_handshake = 20

abbrev pub sizeof_ms_message : ℕ
sizeof_ms_message = 44

abbrev pub sizeof_message : ℕ
sizeof_message = 104

-- The libuv error numbers that the code names; they differ from platform to platform.
pub record UvCodes : Type 0 where
  pub uv_eof : ℤ
  pub uv_eaddrinuse : ℤ
  pub uv_enotconn : ℤ
  pub uv_einval : ℤ

-- ch_uv_error_map of src/util.h
unfoldable pub uv_error_map : UvCodes → ℤ → ErrorCode
uv_error_map codes e =
    if is_zero e
    then success
    else if eq_ℤ e codes.uv_eaddrinuse
    then eaddrinuse
    else if eq_ℤ e codes.uv_enotconn || eq_ℤ e codes.uv_einval
    then value_error
    else uv_error

-- `tmp_err == CH_SUCCESS`
abbrev pub is_success : ErrorCode → Bool
is_success success = true
is_success _ = false

-- The values of the enumeration.
abbrev pub number : ErrorCode → ℤ
number success = pos 0
number value_error = pos 1
number uv_error = pos 2
number protocol_error = pos 3
number eaddrinuse = pos 4
number fatal = pos 5
number tls_error = pos 6
number uninit = pos 7
number in_progress = pos 8
number timeout = pos 9
