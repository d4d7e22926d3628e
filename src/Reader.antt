-- ===== src/Reader.antt =====
-- src/reader.c and src/reader.h: the wire protocol's receiving side.
--
-- `shutdown` is ch_cn_shutdown and `write` is ch_cn_write, which this code calls and which may come
-- back to it. A buffer is all the bytes that are allocated for it; the first `read` of them have
-- arrived.
pub mod Agrees
pub mod Loop
pub mod Frame
pub mod Fields
pub mod Greeting
pub mod Tests
use c4irp.Prelude.{
  ℕ, zero, suc, ◌+◌, ◌-◌, ◌*◌, ◌/◌, ◌^◌, Bool, true, false, not, List, ◌++◌, Option, none, some,
  ltb, leb, ◌==◌, if◌then◌else◌, length, take, drop,
}
use c4irp.Prelude.Outcome.{Outcome, unfinished}
use c4irp.Prelude.Outcome
use c4irp.Prelude.Int.{pos, is_zero}
use c4irp.Prelude.Bytes.{le16, from_le, swap16, swap32, slice}
use c4irp.Types.{ErrorCode, sizeof_handshake, sizeof_ms_message, ipv4, ipv6}
use c4irp.Buffer
use c4irp.World.{
  Env, Chirp, Reader, ReadState, rd_start, rd_handshake, rd_wait, rd_header, rd_actor, rd_data,
  Handshake, WireMessage, Callback, uv_tcp_getpeername, connections_find, connections_add,
  connections_delete, old_connections_add,
}
use c4irp.World.Monad.{
  M, ◌>>=◌, ◌>>◌, skip, pure, assert, deref, get_conn, get_chirp, set_conn, set_reader, call, ask,
}

-- The bytes of a ch_rd_handshake_t.
unfoldable pub handshake_bytes : Handshake → List ℕ
handshake_bytes hs = le16 hs.port ++ (le16 hs.max_timeout ++ hs.identity)

-- The ch_rd_handshake_t that stands in the first 20 bytes of a buffer.
unfoldable pub handshake_of : List ℕ → Handshake
handshake_of bs = record {
  port = from_le (slice 0 2 bs);
  max_timeout = from_le (slice 2 2 bs);
  identity = slice 4 16 bs;
}

-- The ch_ms_message_t that stands in the first 44 bytes of a buffer.
unfoldable pub wire_of : List ℕ → WireMessage
wire_of bs = record {
  identity = slice 0 16 bs;
  serial = slice 16 16 bs;
  message_type = from_le (slice 32 1 bs);
  header_len = from_le (slice 34 2 bs);
  actor_len = from_le (slice 36 2 bs);
  data_len = from_le (slice 40 4 bs);
}

-- memcpy from `buf + at`, which must not run past the end of the buffer.
abbrev pub copy : List ℕ → ℕ → ℕ → Option (List ℕ)
copy buf at n = if leb (at + n) (length buf) then some (slice at n buf) else none

-- The handshake that is sent, for the time `t`.
abbrev pub own_handshake : Chirp → ℕ → Handshake
own_handshake chirp t = record {
  port = swap16 chirp.public_port;
  max_timeout = swap16 t;
  identity = chirp.identity;
}

-- ch_rd_init
unfoldable pub init : Reader → ℕ → Outcome Reader
init reader max_buffers =
    Outcome.◌>>=◌ (Buffer.init max_buffers)
      (λ pool. Outcome.done (record reader { state = rd_start; pool = pool }))

-- (RETRIES + 2) * TIMEOUT, in whole seconds, as the conversion of a float to uint16_t cuts it.
abbrev pub retry_time : Chirp → ℕ
retry_time chirp = (chirp.config.retries + 2) * chirp.config.timeout / 1000

-- The conversion of a float to uint16_t, which C leaves undefined out of range.
abbrev pub to_uint16 : ℕ → Option ℕ
to_uint16 x = if ltb x (2 ^ 16) then some x else none

-- _ch_rd_read_buffer, which is not written yet.
abbrev pub read_buffer : ℕ
read_buffer = 1

-- The state after a message header and after each part of a message.
abbrev pub after_data : ReadState
after_data = rd_wait

abbrev pub after_actor : WireMessage → ReadState
after_actor msg = if ltb 0 msg.data_len then rd_data else rd_wait

abbrev pub after_header : WireMessage → ReadState
after_header msg = if ltb 0 msg.actor_len then rd_actor else after_actor msg

abbrev pub after_wait : WireMessage → ReadState
after_wait msg = if ltb 0 msg.header_len then rd_header else after_header msg

abbrev to_state : ReadState → M (Unit {0})
to_state st = set_reader (λ r. record r { state = st })

module _ (env : Env) (shutdown : M ErrorCode) where
  set_aside : Option ℕ → M (Unit {0})
  set_aside none = skip
  set_aside (some old) = call (connections_delete old) >> call (old_connections_add old)

  -- The part of _ch_rd_handshake that puts the connection into the tree.
  replace_old : M (Unit {0})
  unfolding set_aside
  replace_old = do
    c ← get_conn
    old ← ask env.find_of connections_find
    set_aside old
    call connections_add

  -- _ch_rd_handshake
  unfoldable pub handshake : List ℕ → ℕ → ℕ → M (Unit {0})
  unfolding replace_old
  handshake buf at read =
      if ltb read sizeof_handshake
      then (shutdown >>= λ _. skip)
      else (deref (copy buf at sizeof_handshake) >>= λ bytes.
          let hs = handshake_of bytes in
          do
            chirp ← get_chirp
            set_reader (λ r. record r { hs = hs })
            set_conn (λ c. record c { port = pos (swap16 hs.port) })
            t ← deref (to_uint16 (hs.max_timeout + retry_time chirp))
            set_conn (λ c. record c { max_timeout = swap16 t; remote_identity = hs.identity })
            peer ← ask env.peer_of uv_tcp_getpeername
            if is_zero peer.0
                then (set_conn (λ c. record c {
                  ip_protocol = if peer.1 then ipv6 else ipv4;
                  address = if peer.1 then take 16 peer.2 else take 4 peer.2 ++ drop 4 c.address;
                })
                    >> replace_old)
                else (shutdown >>= λ _. skip))

  module _ (write : List ℕ → Option Callback → M (Unit {0})) where
    -- The case CH_RD_START.
    send_handshake : M (Unit {0})
    send_handshake = do
      chirp ← get_chirp
      t ← deref (to_uint16 (retry_time chirp))
      let hs = own_handshake chirp t
      set_reader (λ r. record r { hs = hs })
      write (handshake_bytes hs) none
      to_state rd_handshake

    -- The case CH_RD_WAIT; `none` is the early return.
    receive_header : List ℕ → ℕ → ℕ → M (Option ℕ)
    receive_header buf read handled =
        if ltb (read + handled) sizeof_ms_message
        then (shutdown >>= λ _. pure none)
        else (deref (copy buf handled sizeof_ms_message) >>= λ bytes.
            let m = wire_of bytes in
            let msg = record m {
              header_len = swap16 m.header_len;
              actor_len = swap16 m.actor_len;
              data_len = swap32 m.data_len;
            } in
            set_reader (λ r. record r { msg = msg; bytes_read = 0; state = after_wait msg })
            >> pure (some (handled + sizeof_ms_message)))

    -- The cases CH_RD_HEADER, CH_RD_ACTOR and CH_RD_DATA; the last falls through to `default`.
    receive_part : (WireMessage → ReadState) → Bool → ℕ → M (Option ℕ)
    receive_part next falls_through handled =
        if not (read_buffer == 0)
        then pure (some handled)
        else (get_conn >>= λ c.
            set_reader (λ r. record r { bytes_read = 0; state = next c.reader.msg })
            >> assert (not falls_through)
            >> pure (some handled))

    -- The `switch` of ch_rd_read: `bytes_handled` after it, or `none` for a return.
    unfoldable pub switch : ReadState → List ℕ → ℕ → ℕ → M (Option ℕ)
    unfolding send_handshake receive_header receive_part
    switch rd_start buf read handled = send_handshake >> pure (some handled)
    switch rd_handshake buf read handled =
        handshake buf handled (read - handled)
        >> to_state rd_wait
        >> pure (some (handled + sizeof_handshake))
    switch rd_wait buf read handled = receive_header buf read handled
    switch rd_header buf read handled = receive_part after_header false handled
    switch rd_actor buf read handled = receive_part after_actor false handled
    switch rd_data buf read handled = receive_part (λ _. after_data) true handled

    -- `while (bytes_handled < read)`, unless the round returned.
    unfoldable pub continue : (ℕ → M (Unit {0})) → ℕ → Option ℕ → M (Unit {0})
    continue again read none = skip
    continue again read (some handled) = if ltb handled read then again handled else skip

    -- The do-while loop of ch_rd_read, on fuel.
    read_loop : ℕ → List ℕ → ℕ → ℕ → M (Unit {0})
    read_loop zero buf read handled = λ s. unfinished
    read_loop (suc fuel) buf read handled =
        let again = read_loop fuel buf read in
        do c ← get_conn; r ← switch c.reader.state buf read handled; continue again read r

    -- ch_rd_read
    unfoldable pub read_data : ℕ → List ℕ → ℕ → M (Unit {0})
    unfolding read_loop continue
    read_data fuel buf read = read_loop fuel buf read 0
