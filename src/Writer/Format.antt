-- ===== src/Writer/Format.antt =====
-- The wire format: what the writer puts on the wire is what the reader takes off it.
use c4irp.Prelude.{
  ℕ, ◌+◌, ◌^◌, ◌<◌, ◌≡◌, refl, List, [], ◌∷◌, ◌++◌, arith, ap, sym, ◌∙◌, length, length-append, ltb,
  leb, true, false, Option, some, take, drop, take-append, drop-append,
}
use mathlib.Core.List.{append_assoc, append-nil}
use c4irp.Prelude.Bytes.{
  from_le, le16, le32, swap16-swap16, swap32-swap32, from_le-le16, from_le-le32,
}
use c4irp.Prelude.Outcome.{done}
use c4irp.Types.{ErrorCode}
use c4irp.World.{Env, State, WireMessage, Message, Callback, rd_wait}
use c4irp.World.Monad.{M}
use c4irp.Reader.{wire_of, switch, after_wait}
use c4irp.Writer.{wire_bytes, net_msg_of}

-- A header whose fields have the sizes of ch_ms_message_t.
pub record IsWire (m : WireMessage) : Type 0 where
  pub identity16 : length m.identity ≡ 16
  pub serial16 : length m.serial ≡ 16
  pub type8 : m.message_type < 2 ^ 8
  pub header16 : m.header_len < 2 ^ 16
  pub actor16 : m.actor_len < 2 ^ 16
  pub data32 : m.data_len < 2 ^ 32

-- What follows the two byte strings of a header.
abbrev numbers : WireMessage → List ℕ → List ℕ
numbers m rest =
    m.message_type
    ∷ 0
    ∷ (le16 m.header_len ++ (le16 m.actor_len ++ (0 ∷ 0 ∷ (le32 m.data_len ++ rest))))

wire_bytes-append :
    (m : WireMessage) (rest : List ℕ)
    → wire_bytes m ++ rest ≡ m.identity ++ (m.serial ++ numbers m rest)
unfolding wire_bytes
wire_bytes-append m rest = simp append_assoc

from_le_one : (b : ℕ) → from_le (b ∷ []) ≡ b
from_le_one b = omega arith

module _ (m : WireMessage) (rest : List ℕ) (v : IsWire m) where
  in_serial :
      (n : ℕ)
      → drop (16 + n) (m.identity ++ (m.serial ++ numbers m rest))
        ≡ drop n (m.serial ++ numbers m rest)
  in_serial n = drop-append 16 n m.identity _ v.identity16

  in_numbers :
      (n : ℕ)
      → drop (16 + (16 + n)) (m.identity ++ (m.serial ++ numbers m rest)) ≡ drop n (numbers m rest)
  in_numbers n = in_serial (16 + n) ∙ drop-append 16 n m.serial _ v.serial16

  -- For a header whose fields have their sizes, the header that the reader reads is the one whose
  -- bytes were written, whatever follows it.
  pub wire_of-wire_bytes : wire_of (wire_bytes m ++ rest) ≡ m
  unfolding wire_of
  wire_of-wire_bytes = rw (wire_bytes-append m rest) λ i. record {
    identity = take-append 16 m.identity (m.serial ++ numbers m rest) v.identity16 i;
    serial = (ap (take 16) (in_serial 0) ∙ take-append 16 m.serial (numbers m rest) v.serial16) i;
    message_type =
        (ap (λ (bs : List ℕ). from_le (take 1 bs)) (in_numbers 0) ∙ from_le_one m.message_type) i;
    header_len =
        (ap (λ (bs : List ℕ). from_le (take 2 bs)) (in_numbers 2) ∙ from_le-le16 m.header_len) i;
    actor_len =
        (ap (λ (bs : List ℕ). from_le (take 2 bs)) (in_numbers 4) ∙ from_le-le16 m.actor_len) i;
    data_len =
        (ap (λ (bs : List ℕ). from_le (take 4 bs)) (in_numbers 8) ∙ from_le-le32 m.data_len) i;
  }

length-wire_bytes : (m : WireMessage) → IsWire m → length (wire_bytes m) ≡ 44
unfolding wire_bytes
length-wire_bytes m v = omega (
  arith,
  length-append m.identity (m.serial ++ numbers m []),
  length-append m.serial (numbers m []),
  v.identity16,
  v.serial16,
)

swapped-IsWire :
    (old : WireMessage) (msg : Message) → IsWire old → IsWire msg.wire → IsWire (net_msg_of old msg)
swapped-IsWire old msg u v = omega (arith, u.type8, v)

-- The wire header of a message, with the type that the writer has left in place.
abbrev pub received : WireMessage → Message → WireMessage
received old msg = record (msg.wire) { message_type = old.message_type }

module _ (env : Env) (shutdown : M ErrorCode) (write : List ℕ → Option Callback → M (Unit {0}))
    (old : WireMessage) (msg : Message) (u : IsWire old) (v : IsWire msg.wire) (s : State) where
  -- The round trip of a message header whose fields have their sizes. A reader that waits for a
  -- message, and is given the bytes that the writer puts on the wire for the message's header,
  -- whatever bytes follow, takes off 44 bytes, holds the message's own identity, serial and
  -- lengths and the type that stood in the writer's buffer, and goes on to the first part of the
  -- message that is not empty.
  pub receive-send :
      (rest : List ℕ)
      → let buf = wire_bytes (net_msg_of old msg) ++ rest in
        switch env shutdown write rd_wait buf (length buf) 0 s
        ≡ done (
          some 44,
          record s {
            conn = record (s.conn) {
              reader = record (s.conn.reader) {
                msg = received old msg;
                bytes_read = 0;
                state = after_wait (received old msg);
              };
            };
          },
        )
  unfolding switch
  receive-send rest =
      let w = swapped-IsWire old msg u v in
      let m = net_msg_of old msg in
      let size = length-wire_bytes m w in
      let all : length (wire_bytes m ++ rest) ≡ 44 + length rest =
        omega (arith, length-append (wire_bytes m) rest, size) in
      let enough : ltb (length (wire_bytes m ++ rest) + 0) 44 ≡ false = ground (arith, all) in
      let inside : leb (0 + 44) (length (wire_bytes m ++ rest)) ≡ true = ground (arith, all) in
      let front : take 44 (wire_bytes m ++ rest) ≡ wire_bytes m =
        take-append 44 (wire_bytes m) rest size in
      let parsed : wire_of (wire_bytes m) ≡ m =
        ap wire_of (sym (append-nil (wire_bytes m))) ∙ wire_of-wire_bytes m [] w in
      rw
        (
          enough,
          inside,
          front,
          parsed,
          swap16-swap16 msg.header_len v.header16,
          swap16-swap16 msg.actor_len v.actor16,
          swap32-swap32 msg.data_len v.data32,
        )
        refl
