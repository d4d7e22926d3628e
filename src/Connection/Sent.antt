-- ===== src/Connection/Sent.antt =====
-- src/connection.c: _ch_cn_write_cb, which libuv calls when what was handed to it has been sent.
pub mod InFlight
pub mod Wide
pub mod Frame
use c4irp.Prelude.{ℕ, true, false, Option, none, some, ltb, if◌then◌else◌, take}
use c4irp.Prelude.Int.{ℤ, is_neg, is_pos, pos_part, to_size}
use c4irp.World.{Env, Callback, write_cb, bio_read, bio_pending, uv_write}
use c4irp.World.Monad.{M, ◌>>=◌, ◌>>◌, skip, deref, get_conn, set_conn, call, ask}
use c4irp.Connection.Write.{set_pending, partial_write, write}
use c4irp.Connection.Shutdown.{shutdown}
use c4irp.Writer.{run_callback}

module _ (env : Env) (fuel depth : ℕ) where
  pub callback : Callback → ℤ → M (Unit {0})
  callback cb status =
      run_callback env (shutdown env fuel depth) (write env (shutdown env fuel depth) fuel) cb
        status

  unfoldable pub callback_if_set : Option Callback → ℤ → M (Unit {0})
  unfolding callback
  callback_if_set none status = skip
  callback_if_set (some cb) status = callback cb status

  -- All is sent.
  pub all_sent : ℤ → M (Unit {0})
  unfolding callback_if_set
  all_sent status = do
    set_conn (λ c. record c { write_size = 0 })
    c ← get_conn
    callback_if_set c.write_callback status

  -- OpenSSL has more for the wire.
  send_rest : M (Unit {0})
  send_rest = do
    set_pending true
    c ← get_conn
    r ← ask env.bytes_of (bio_read 0 c.buffer_size)
    set_conn (λ c. record c { buffer_wtls_len = to_size r.0 })
    bytes ← deref (if is_neg r.0 then none else some (take (pos_part r.0) r.1))
    call (uv_write bytes write_cb)

  -- The status is an error. The callback is called without a look at whether it is NULL.
  write_failed : ℤ → M (Unit {0})
  unfolding callback
  write_failed status = do
    c ← get_conn
    cb ← deref c.write_callback
    callback cb status
    shutdown env fuel depth >>= λ _. skip

  -- The status is no error.
  write_succeeded : ℤ → M (Unit {0})
  unfolding all_sent send_rest
  write_succeeded status = do
    c ← get_conn
    if ltb c.write_size c.write_written
        then partial_write env (shutdown env fuel depth) fuel
        else (ask env.int_of bio_pending >>= λ pending.
            if is_pos pending then send_rest else all_sent status)

  -- _ch_cn_write_cb
  unfoldable pub write_sent : ℤ → M (Unit {0})
  unfolding write_failed write_succeeded
  write_sent status = do
    set_pending false
    if is_neg status then write_failed status else write_succeeded status
