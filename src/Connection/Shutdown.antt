-- ===== src/Connection/Shutdown.antt =====
-- src/connection.c: ch_cn_shutdown, ch_cn_send_if_pending and the callbacks of a shutdown.
--
-- ch_cn_shutdown calls ch_cn_send_if_pending, which may start the reader, which may write, and the
-- reader and the writer call ch_cn_shutdown again. `depth` counts these nested calls, and `fuel` is
-- for the loops.
pub mod Depth
pub mod WriteError
pub mod InFlight
pub mod Callbacks
pub mod Ownership
pub mod Wide
pub mod Frame
pub mod Returns
use c4irp.Prelude.{ℕ, zero, suc, true, false, not, [], none, some, if◌then◌else◌, take}
use c4irp.Prelude.Outcome.{unfinished}
use c4irp.Prelude.Int.{ℤ, pos, is_neg, is_pos, is_zero, ◌+ℤ◌, ◌-ℤ◌, pos_part, to_size}
use c4irp.Types.{ErrorCode, success, in_progress, uv_error_map}
use c4irp.World.{
  Env, send_pending_cb, client, shutdown_timeout, bio_read, bio_pending, ssl_shutdown,
  ssl_is_init_finished, ssl_get_verify_result, uv_write, uv_shutdown, uv_cancel, uv_is_closing,
  uv_close, shutdown_timer_start, shutdown_timer_stop, connections_delete_if_member,
}
use c4irp.World.Monad.{
  M, ◌>>=◌, ◌>>◌, skip, pure, assert, deref, get_conn, get_chirp, set_conn, set_chirp, set_flags,
  when, call, ask,
}
use c4irp.Connection.Write.{set_pending, write}
use c4irp.Reader.{read_data}

module _ (env : Env) (shutdown : M ErrorCode) (fuel : ℕ) where
  -- The part of ch_cn_send_if_pending that sends what BIO_read gives.
  send_handshake_bytes : M (Unit {0})
  send_handshake_bytes = do
    c ← get_conn
    assert (not c.flags.buf_wtls_used)
    set_pending true
    r ← ask env.bytes_of (bio_read 0 c.buffer_size)
    set_conn (λ c. record c { buffer_wtls_len = to_size r.0 })
    bytes ← deref (if is_neg r.0 then none else some (take (pos_part r.0) r.1))
    call (uv_write bytes send_pending_cb)

  -- ch_cn_send_if_pending
  unfoldable pub send_if_pending : M (Unit {0})
  unfolding send_handshake_bytes
  send_if_pending = do
    c ← get_conn
    assert (not c.flags.write_pending)
    pending ← ask env.int_of bio_pending
    if is_pos pending
        then send_handshake_bytes
        else when (not c.flags.tls_handshake)
            (read_data env shutdown (write env shutdown fuel) fuel [] 0)

  -- The part of _ch_cn_shutdown_gen for an encrypted connection. The result of the verification is
  -- only logged.
  shutdown_tls : M (Unit {0})
  unfolding send_if_pending
  shutdown_tls = do
    verify ← ask env.int_of ssl_get_verify_result
    finished ← ask env.test_of ssl_is_init_finished
    when finished (ask env.int_of ssl_shutdown >>= λ r. if is_neg r then skip else send_if_pending)

  -- The part of _ch_cn_shutdown_gen from uv_shutdown on.
  pub shutdown_uv : M ErrorCode
  shutdown_uv = do
    err ← ask env.int_of uv_shutdown
    chirp ← get_chirp
    if is_zero err
        then (when chirp.closing
              (set_chirp (λ ch. record ch { closing_tasks = ch.closing_tasks +ℤ 1 }))
            >> ask env.int_of (shutdown_timer_start chirp.config.timeout)
            >>= λ started. pure success)
        else pure (uv_error_map env.codes err)

  -- The part of _ch_cn_shutdown_gen behind its guard: first the deletion and the flag, then the rest.
  shutdown_rest : M ErrorCode
  unfolding shutdown_tls shutdown_uv
  shutdown_rest = do c ← get_conn; when c.flags.encrypted shutdown_tls; shutdown_uv

  shutdown_first : M ErrorCode
  unfolding shutdown_rest
  shutdown_first = do
    call connections_delete_if_member
    set_flags (λ f. record f { shutting_down = true })
    shutdown_rest

  -- _ch_cn_shutdown_gen
  unfoldable pub shutdown_gen : M ErrorCode
  unfolding shutdown_first
  shutdown_gen s = (if s.conn.flags.shutting_down then pure in_progress else shutdown_first) s

-- ch_cn_shutdown
unfoldable pub shutdown : Env → ℕ → ℕ → M ErrorCode
shutdown env fuel zero = λ s. unfinished
shutdown env fuel (suc depth) = shutdown_gen env (shutdown env fuel depth) fuel

module _ (env : Env) (fuel depth : ℕ) where
  -- _ch_cn_send_pending_cb
  unfoldable pub pending_sent : ℤ → M (Unit {0})
  pending_sent status = do
    set_pending false
    if is_neg status
        then (shutdown env fuel depth >>= λ _. skip)
        else send_if_pending env (shutdown env fuel depth) fuel

-- _ch_cn_shutdown_gen_cb and _ch_cn_shutdown_cb
unfoldable pub shutdown_cb : Env → ℤ → M (Unit {0})
shutdown_cb env status = do
  stopped ← ask env.int_of shutdown_timer_stop
  chirp ← get_chirp
  closing ← ask env.test_of uv_is_closing
  if closing
      then when chirp.closing
          (set_chirp (λ ch. record ch { closing_tasks = ch.closing_tasks -ℤ 1 }))
      else (call (uv_close client)
          >> call (uv_close shutdown_timeout)
          >> when chirp.closing
              (set_chirp (λ ch. record ch { closing_tasks = ch.closing_tasks +ℤ 1 }))
          >> set_conn (λ c. record c { shutdown_tasks = c.shutdown_tasks +ℤ 2 }))

-- _ch_cn_shutdown_timeout_gen_cb and _ch_cn_shutdown_timeout_cb
unfoldable pub shutdown_timeout_cb : Env → M (Unit {0})
unfolding shutdown_cb
shutdown_timeout_cb env = do
  chirp ← get_chirp
  when chirp.closing (set_chirp (λ ch. record ch { closing_tasks = ch.closing_tasks -ℤ 1 }))
  shutdown_cb env (pos 1)
  cancelled ← ask env.int_of uv_cancel
  skip
