-- ===== src/Message.antt =====
-- src/message.c: ch_msg_init, ch_msg_set_address and ch_msg_get_address. libuv's conversions of
-- addresses and the random bytes are parameters.
pub mod Address
pub mod Tests
use c4irp.Prelude.{
  ℕ, List, [], ◌++◌, Option, none, some, ◌==◌, if◌then◌else◌, drop, length, replicate,
}
use c4irp.Prelude.Int.{ℤ, pos}
use c4irp.Types.{ErrorCode, success, value_error, protocol_error, ipv4, ipv6}
use c4irp.World.{Message}

-- AF_INET and AF_INET6
pub data Family : Type 0 where
  af_inet af_inet6 : Family

-- uv_inet_pton and uv_inet_ntop: the bytes of a text and the text of the bytes at a pointer; `none`
-- is a result other than 0. uv_inet_ntop reads as many bytes as the family has.
pub record Inet : Type 0 where
  pub pton : Family → List ℕ → Option (List ℕ)
  pub ntop : Family → List ℕ → Option (List ℕ)

-- The `switch` on the protocol.
unfoldable pub family : ℕ → Option Family
family p = if p == ipv4 then some af_inet else if p == ipv6 then some af_inet6 else none

-- ch_msg_init: zeros everywhere but in the identity.
unfoldable pub init : List ℕ → Message
init random = record {
  wire = record {
    identity = random;
    serial = replicate 16 0;
    message_type = 0;
    header_len = 0;
    actor_len = 0;
    data_len = 0;
  };
  header = [];
  actor = [];
  payload = [];
  ip_protocol = 0;
  address = replicate 16 0;
  port = pos 0;
}

-- What ch_msg_set_address does with the result of uv_inet_pton: the bytes that it wrote stand
-- before the rest of the old address.
written : Message → ℤ → Option (List ℕ) → Message × ErrorCode
written m port none = (m, value_error)
written m port (some bytes) =
    (record m { address = bytes ++ drop (length bytes) m.address; port = port }, success)

-- What follows the `switch` of ch_msg_set_address.
convert : Inet → Message → List ℕ → ℤ → Option Family → Message × ErrorCode
unfolding written
convert inet m address port none = (m, value_error)
convert inet m address port (some af) = written m port (inet.pton af address)

-- ch_msg_set_address
unfoldable pub set_address : Inet → Message → ℕ → List ℕ → ℤ → Message × ErrorCode
unfolding convert
set_address inet message ip_protocol address port =
    convert inet (record message { ip_protocol = ip_protocol }) address port (family ip_protocol)

text_result : Option (List ℕ) → Option (List ℕ) × ErrorCode
text_result none = (none, protocol_error)
text_result (some text) = (some text, success)

-- What follows the `switch` of ch_msg_get_address.
print : Inet → Message → Option Family → Option (List ℕ) × ErrorCode
unfolding text_result
print inet m none = (none, protocol_error)
print inet m (some af) = text_result (inet.ntop af m.address)

-- ch_msg_get_address: the text, or none with the error.
unfoldable pub get_address : Inet → Message → Option (List ℕ) × ErrorCode
unfolding print
get_address inet message = print inet message (family message.ip_protocol)
