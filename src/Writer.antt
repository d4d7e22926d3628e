-- ===== src/Writer.antt =====
-- src/writer.c: a message goes out as the wire header, the header, the actor and the data, each
-- written when the one before it has been sent. The parts are handed on by the callbacks below.
--
-- `shutdown` is ch_cn_shutdown and `write` is ch_cn_write.
pub mod Format
pub mod Order
pub mod Failure
pub mod Frame
pub mod Tests
use c4irp.Prelude.{
  ℕ, Bool, true, false, List, ◌∷◌, ◌++◌, Option, none, some, ltb, leb, ◌==◌, if◌then◌else◌, length,
  take,
}
use c4irp.Prelude.Outcome.{blocked}
use c4irp.Prelude.Int.{ℤ, is_zero}
use c4irp.Prelude.Bytes.{le16, le32, swap16, swap32}
use c4irp.Types.{ErrorCode, protocol_error, timeout}
use c4irp.World.{
  Env, Message, WireMessage, Callback, send_msg_header_cb, send_chirp_header_cb, send_actor_cb,
  send_data_cb, send_pending_cb, write_cb, send_callback, send_timer_start, send_timer_stop,
}
use c4irp.World.Monad.{M, ◌>>=◌, ◌>>◌, skip, deref, get_conn, get_chirp, set_writer, call, ask}

-- The bytes of a ch_ms_message_t; ch_cn_init has cleared its padding.
unfoldable pub wire_bytes : WireMessage → List ℕ
wire_bytes m =
    m.identity
    ++ (m.serial
        ++ (m.message_type
            ∷ 0
            ∷ (le16 m.header_len ++ (le16 m.actor_len ++ (0 ∷ 0 ∷ le32 m.data_len)))))

-- uv_mutex_lock waits for ever where this thread holds the mutex; to unlock a mutex that is not
-- locked is undefined.
lock : M (Unit {0})
lock s = if s.conn.writer.locked then blocked else set_writer (λ w. record w { locked = true }) s

unlock : M (Unit {0})
unlock = do
  c ← get_conn
  deref (if c.writer.locked then some tt else none)
  set_writer (λ w. record w { locked = false })

-- `writer->send_cb(error, conn->load)`
report : ErrorCode → M (Unit {0})
report e = do
  c ← get_conn
  deref (if c.writer.send_cb then some tt else none)
  call (send_callback e)

-- uv_timer_stop, uv_mutex_unlock and the callback, as they follow one another in three places.
unfoldable pub release : ErrorCode → M (Unit {0})
unfolding unlock report
release e = do call send_timer_stop; unlock; report e

-- _ch_wr_send_finish
unfoldable pub send_finish : M (Unit {0})
unfolding release
send_finish = do
  chirp ← get_chirp
  if chirp.config.acknowledge == 0 then release protocol_error else skip

-- The header that is sent for a message; `message_type` is not copied.
abbrev pub net_msg_of : WireMessage → Message → WireMessage
net_msg_of old msg = record {
  identity = msg.identity;
  serial = msg.serial;
  message_type = old.message_type;
  header_len = swap16 msg.header_len;
  actor_len = swap16 msg.actor_len;
  data_len = swap32 msg.data_len;
}

module _ (env : Env) (shutdown : M ErrorCode) where
  -- _ch_wr_check_send_error and the `return` of its callers: `rest` runs if there was no error.
  unfoldable pub check_send_error : ℤ → M (Unit {0}) → M (Unit {0})
  unfolding release
  check_send_error status rest =
      if is_zero status then rest else (shutdown >>= λ _. release protocol_error)

  -- _ch_wr_send_timeout_cb
  unfoldable pub send_timeout_cb : M (Unit {0})
  unfolding release
  send_timeout_cb = shutdown >>= λ _. release timeout

  -- _ch_wr_send_data_cb
  unfoldable pub data_sent : ℤ → M (Unit {0})
  unfolding check_send_error send_finish
  data_sent status = check_send_error status send_finish

  module _ (write : List ℕ → Option Callback → M (Unit {0})) where
    -- `ch_cn_write(conn, part, len, callback)`, for a part that has its length.
    send_part : List ℕ → ℕ → Callback → M (Unit {0})
    send_part bytes n cb =
        deref (if leb n (length bytes) then some (take n bytes) else none) >>= λ part.
        write part (some cb)

    send_data : Message → M (Unit {0})
    unfolding send_part
    send_data msg =
        if ltb 0 msg.data_len then send_part msg.payload msg.data_len send_data_cb else send_finish

    send_actor : Message → M (Unit {0})
    unfolding send_part send_data
    send_actor msg =
        if ltb 0 msg.actor_len
        then send_part msg.actor msg.actor_len send_actor_cb
        else send_data msg

    send_header : Message → M (Unit {0})
    unfolding send_part send_actor
    send_header msg =
        if ltb 0 msg.header_len
        then send_part msg.header msg.header_len send_chirp_header_cb
        else send_actor msg

    -- A callback goes on with the message that the writer holds.
    go_on : ℤ → (Message → M (Unit {0})) → M (Unit {0})
    unfolding check_send_error
    go_on status next = check_send_error status do c ← get_conn; msg ← deref c.writer.msg; next msg

    -- _ch_wr_send_actor_cb
    unfoldable pub actor_sent : ℤ → M (Unit {0})
    unfolding go_on send_data
    actor_sent status = go_on status send_data

    -- _ch_wr_send_chirp_header_cb
    unfoldable pub chirp_header_sent : ℤ → M (Unit {0})
    unfolding go_on send_actor
    chirp_header_sent status = go_on status send_actor

    -- _ch_wr_send_msg_header_cb
    unfoldable pub msg_header_sent : ℤ → M (Unit {0})
    unfolding go_on send_header
    msg_header_sent status = go_on status send_header

    -- The callback that ch_cn_write was given. The last two are libuv's alone.
    unfoldable pub run_callback : Callback → ℤ → M (Unit {0})
    unfolding actor_sent chirp_header_sent msg_header_sent data_sent
    run_callback send_msg_header_cb status = msg_header_sent status
    run_callback send_chirp_header_cb status = chirp_header_sent status
    run_callback send_actor_cb status = actor_sent status
    run_callback send_data_cb status = data_sent status
    run_callback send_pending_cb status = skip
    run_callback write_cb status = skip

    -- _ch_wr_send
    unfoldable pub send : Message → Bool → M (Unit {0})
    unfolding lock wire_bytes
    send msg has_cb = do
      lock
      set_writer (λ w. record w { msg = some msg; send_cb = has_cb })
      chirp ← get_chirp
      started ← ask env.int_of (send_timer_start chirp.config.timeout)
      set_writer (λ w. record w { net_msg = net_msg_of w.net_msg msg })
      c ← get_conn
      write (wire_bytes c.writer.net_msg) (some send_msg_header_cb)
