-- ===== src/Reader/Loop.antt =====
-- When ch_rd_read ends. The parts of a message are not read yet (_ch_rd_read_buffer always says that
-- there is nothing), so the loop is left only where no part is due.
use c4irp.Prelude.{
  ℕ, zero, suc, ◌+◌, ◌≤◌, ◌<◌, ◌≡◌, ◌≢◌, refl, ap, ◌∙◌, ◌⊎◌, true, false, List, Option, some, arith,
  ltb, leb, lt→ltb, length,
}
use c4irp.Prelude.Outcome.{done, unfinished}
use c4irp.Prelude.Bytes.{slice, swap16, swap32}
use c4irp.Types.{ErrorCode}
use c4irp.World.{
  Env, State, Callback, WireMessage, ReadState, rd_start, rd_handshake, rd_wait, rd_header,
  rd_actor, rd_data,
}
use c4irp.World.Monad.{M}
use c4irp.Reader.{wire_of, switch, continue, read_loop, read_data, after_wait}

-- The states in which a part of a message is due.
abbrev pub IsPart : ReadState → Type 0
IsPart st = (st ≡ rd_header) ⊎ (st ≡ rd_actor) ⊎ (st ≡ rd_data)

-- The header that stands at `at` in a buffer, in host order.
abbrev pub header_at : List ℕ → ℕ → WireMessage
header_at buf at =
    let m = wire_of (slice at 44 buf) in
    record m {
      header_len = swap16 m.header_len;
      actor_len = swap16 m.actor_len;
      data_len = swap32 m.data_len;
    }

-- The state with the header at `at` taken off.
abbrev pub with_header : State → List ℕ → ℕ → State
with_header s buf at = record s {
  conn = record (s.conn) {
    reader = record (s.conn.reader) {
      msg = header_at buf at;
      bytes_read = 0;
      state = after_wait (header_at buf at);
    };
  };
}

after_wait-IsPart : (m : WireMessage) → after_wait m ≢ rd_wait → IsPart (after_wait m)
after_wait-IsPart m h = ground arith

module _ (env : Env) (shutdown : M ErrorCode)
    (write : List ℕ → Option Callback → M (Unit {0})) where
  switch_part :
      (st : ReadState) (buf : List ℕ) (read handled : ℕ) (s : State)
      → IsPart st
      → switch env shutdown write st buf read handled s ≡ done (some handled, s)
  unfolding switch
  switch_part rd_start buf read handled s h = ground arith
  switch_part rd_handshake buf read handled s h = ground arith
  switch_part rd_wait buf read handled s h = ground arith
  switch_part rd_header buf read handled s h = refl
  switch_part rd_actor buf read handled s h = refl
  switch_part rd_data buf read handled s h = refl

  loop_part :
      (fuel : ℕ) (buf : List ℕ) (read handled : ℕ) (s : State)
      → IsPart s.conn.reader.state
      → handled < read
      → read_loop env shutdown write fuel buf read handled s ≡ unfinished
  unfolding read_loop continue
  loop_part zero buf read handled s h lt = refl
  loop_part (suc fuel) buf read handled s h lt =
      rw (switch_part s.conn.reader.state buf read handled s h, lt→ltb handled read lt)
        (loop_part fuel buf read handled s h lt)

  -- While a header, an actor or data is due, ch_rd_read does not return on any bytes at all: no
  -- number of rounds is enough, and no round changes anything.
  pub read_part_unfinished :
      (fuel : ℕ) (buf : List ℕ) (read : ℕ) (s : State)
      → IsPart s.conn.reader.state
      → 0 < read
      → read_data env shutdown write fuel buf read s ≡ unfinished
  unfolding read_data
  read_part_unfinished fuel buf read s h lt = loop_part fuel buf read 0 s h lt

  -- A header is taken off as soon as `read + bytes_handled` is 44, though only `read - bytes_handled`
  -- of its bytes can have arrived: behind a handshake (20 bytes handled) 24 bytes in all are enough,
  -- and the rest of the header is whatever the buffer held before.
  pub switch_wait :
      (buf : List ℕ) (read handled : ℕ) (s : State)
      → 44 ≤ read + handled
      → handled + 44 ≤ length buf
      → switch env shutdown write rd_wait buf read handled s
        ≡ done (some (handled + 44), with_header s buf handled)
  unfolding switch
  switch_wait buf read handled s h inside =
      let enough : ltb (read + handled) 44 ≡ false = ground arith in
      let whole : leb (handled + 44) (length buf) ≡ true = ground arith in rw (enough, whole) refl

  -- A message header alone: ch_rd_read takes it off and returns after one round, and the state is
  -- the one in which the first part that is not empty is due, or the next message.
  pub read_header_alone :
      (fuel : ℕ) (buf : List ℕ) (s : State)
      → s.conn.reader.state ≡ rd_wait
      → 44 ≤ length buf
      → read_data env shutdown write (suc fuel) buf 44 s ≡ done (tt, with_header s buf 0)
  unfolding read_data read_loop continue
  read_header_alone fuel buf s h size =
      let round =
        ap (λ (st : ReadState). switch env shutdown write st buf 44 0 s) h
        ∙ switch_wait buf 44 0 s (omega arith) (omega arith) in
      rw round refl

  -- A message header with at least one byte behind it: if any part of the message is not empty,
  -- ch_rd_read does not return.
  pub read_message_unfinished :
      (fuel : ℕ) (buf : List ℕ) (read : ℕ) (s : State)
      → s.conn.reader.state ≡ rd_wait
      → 44 < read
      → 44 ≤ length buf
      → after_wait (header_at buf 0) ≢ rd_wait
      → read_data env shutdown write fuel buf read s ≡ unfinished
  unfolding read_data read_loop continue
  read_message_unfinished zero buf read s h lt size part = refl
  read_message_unfinished (suc fuel) buf read s h lt size part =
      let round =
        ap (λ (st : ReadState). switch env shutdown write st buf read 0 s) h
        ∙ switch_wait buf read 0 s (omega arith) (omega arith) in
      rw (round, lt→ltb 44 read lt)
        (loop_part fuel buf read 44 (with_header s buf 0) (after_wait-IsPart (header_at buf 0) part)
          lt)
