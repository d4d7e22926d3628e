-- ===== src/Reader/Fields.antt =====
-- What the reader makes of the 44 bytes of a message header.
use c4irp.Prelude.{
  ℕ, zero, suc, ◌+◌, ◌*◌, ◌≤◌, ◌<◌, ◌≡◌, refl, List, [], ◌∷◌, Option, some, ltb, arith, length,
  take, drop, if◌then◌else◌,
}
use c4irp.Prelude.Outcome.{done}
use c4irp.Prelude.Bytes.{from_le, slice, length-slice, swap16, swap32}
use c4irp.Types.{ErrorCode}
use c4irp.World.{Env, State, Callback, Reader, ReadState, rd_wait, rd_header, rd_actor, rd_data}
use c4irp.World.Monad.{M}
use c4irp.Reader.{wire_of, switch}
use c4irp.Reader.Loop.{switch_wait, with_header}

-- The bytes of a buffer.
abbrev pub AreBytes : List ℕ → Type 0
AreBytes [] = Unit {0}
AreBytes (b ∷ bs) = (b < 256) × AreBytes bs

AreBytes-take : (n : ℕ) (bs : List ℕ) → AreBytes bs → AreBytes (take n bs)
AreBytes-take zero bs h = tt
AreBytes-take (suc n) [] h = tt
AreBytes-take (suc n) (b ∷ bs) h = (h.0, AreBytes-take n bs h.1)

AreBytes-drop : (n : ℕ) (bs : List ℕ) → AreBytes bs → AreBytes (drop n bs)
AreBytes-drop zero bs h = h
AreBytes-drop (suc n) [] h = tt
AreBytes-drop (suc n) (b ∷ bs) h = AreBytes-drop n bs h.1

AreBytes-slice : (n k : ℕ) (bs : List ℕ) → AreBytes bs → AreBytes (slice n k bs)
AreBytes-slice n k bs h = AreBytes-take k (drop n bs) (AreBytes-drop n bs h)

-- A number in network order: the highest byte comes first.
abbrev from_be_onto : ℕ → List ℕ → ℕ
from_be_onto acc [] = acc
from_be_onto acc (b ∷ bs) = from_be_onto (acc * 256 + b) bs

abbrev pub from_be : List ℕ → ℕ
from_be bs = from_be_onto 0 bs

one_byte : (bs : List ℕ) → length bs ≡ 1 → from_le bs ≡ from_be bs
one_byte [] e = absurd (omega (arith, e))
one_byte (a ∷ []) e = omega arith
one_byte (a ∷ b ∷ bs) e = absurd (omega (arith, e))

two_bytes : (bs : List ℕ) → AreBytes bs → length bs ≡ 2 → swap16 (from_le bs) ≡ from_be bs
two_bytes [] h e = absurd (omega (arith, e))
two_bytes (a ∷ []) h e = absurd (omega (arith, e))
two_bytes (a ∷ b ∷ []) h e = omega (arith, h.0, h.1.0)
two_bytes (a ∷ b ∷ c ∷ bs) h e = absurd (omega (arith, e))

four_bytes : (bs : List ℕ) → AreBytes bs → length bs ≡ 4 → swap32 (from_le bs) ≡ from_be bs
four_bytes [] h e = absurd (omega (arith, e))
four_bytes (a ∷ []) h e = absurd (omega (arith, e))
four_bytes (a ∷ b ∷ []) h e = absurd (omega (arith, e))
four_bytes (a ∷ b ∷ c ∷ []) h e = absurd (omega (arith, e))
four_bytes (a ∷ b ∷ c ∷ d ∷ []) h e = omega (arith, h.0, h.1.0, h.1.1.0, h.1.1.1.0)
four_bytes (a ∷ b ∷ c ∷ d ∷ x ∷ bs) h e = absurd (omega (arith, e))

-- The state for the first part that is not empty, in the order header, actor, data.
abbrev pub first_part : ℕ → ℕ → ℕ → ReadState
first_part zero zero zero = rd_wait
first_part zero zero (suc data_len) = rd_data
first_part zero (suc actor_len) data_len = rd_actor
first_part (suc header_len) actor_len data_len = rd_header

-- What the reader holds of the 44 bytes of a message header: the identity, the serial, the type, one
-- byte of padding, the lengths of the header and of the actor, two bytes of padding and the length of
-- the data, each number in network order.
pub record IsReceived (bytes : List ℕ) (r : Reader) : Type 0 where
  pub identity_at : r.msg.identity ≡ slice 0 16 bytes
  pub serial_at : r.msg.serial ≡ slice 16 16 bytes
  pub type_at : r.msg.message_type ≡ from_be (slice 32 1 bytes)
  pub header_len_at : r.msg.header_len ≡ from_be (slice 34 2 bytes)
  pub actor_len_at : r.msg.actor_len ≡ from_be (slice 36 2 bytes)
  pub data_len_at : r.msg.data_len ≡ from_be (slice 40 4 bytes)
  pub part_next : r.state ≡ first_part r.msg.header_len r.msg.actor_len r.msg.data_len
  pub none_read : r.bytes_read ≡ 0

parts :
    (h a d : ℕ)
    → (if ltb 0 h
        then rd_header
        else if ltb 0 a
        then rd_actor
        else if ltb 0 d
        then rd_data
        else rd_wait)
      ≡ first_part h a d
parts zero zero zero = ground arith
parts zero zero (suc d) = ground arith
parts zero (suc a) d = ground arith
parts (suc h) a d = ground arith

-- For a buffer of bytes with 44 more behind the place where the reader stands, and a number of bytes
-- that lets it go on: a reader that waits for a message takes off these 44 bytes, holds each field
-- of the message header as it stands in them, the numbers in network order, and goes to the state for
-- the first part of the message that is not empty.
pub switch-IsReceived :
    (env : Env) (shutdown : M ErrorCode) (write : List ℕ → Option Callback → M (Unit {0}))
    (buf : List ℕ) (read handled : ℕ) (s : State)
    → AreBytes buf
    → handled + 44 ≤ length buf
    → 44 ≤ read + handled
    → (s' : State) × (switch env shutdown write rd_wait buf read handled s
        ≡ done (some (handled + 44), s'))
      × IsReceived (slice handled 44 buf) s'.conn.reader
unfolding wire_of
switch-IsReceived env shutdown write buf read handled s bytes inside enough =
    let header = slice handled 44 buf in
    let is = AreBytes-slice handled 44 buf bytes in
    let whole : length header ≡ 44 = length-slice handled 44 buf inside in
    let field : (n k : ℕ) → AreBytes (slice n k header) = λ n k. AreBytes-slice n k header is in
    let size : (n k : ℕ) → n + k ≤ 44 → length (slice n k header) ≡ k =
      λ n k le. length-slice n k header (omega (arith, whole, le)) in
    (
      with_header s buf handled,
      switch_wait env shutdown write buf read handled s enough inside,
      record {
        identity_at = refl;
        serial_at = refl;
        type_at = one_byte _ (size 32 1 (omega arith));
        header_len_at = two_bytes _ (field 34 2) (size 34 2 (omega arith));
        actor_len_at = two_bytes _ (field 36 2) (size 36 2 (omega arith));
        data_len_at = four_bytes _ (field 40 4) (size 40 4 (omega arith));
        part_next = parts _ _ _;
        none_read = refl;
      },
    )
