-- ===== src/Protocol/Accept.antt =====
-- src/protocol.c: _ch_pr_new_connection_cb, which libuv calls when a peer connects.
pub mod InFlight
pub mod Outcomes
pub mod Owned
use c4irp.Prelude.{ℕ, true, not, [], if◌then◌else◌}
use c4irp.Prelude.Int.{ℤ, pos, is_neg, is_zero}
use c4irp.Types.{ErrorCode, is_success}
use c4irp.World.{
  Env, client, alloc_connection, free_connection, tcp_init, uv_accept, ssl_set_accept_state,
  uv_read_start, uv_close,
}
use c4irp.World.Monad.{M, ◌>>=◌, ◌>>◌, skip, get_conn, set_conn, set_flags, call, ask}
use c4irp.Connection.Init
use c4irp.Protocol.{reader_read}

module _ (env : Env) (fuel : ℕ) where
  -- What follows an accepted connection.
  serve : M (Unit {0})
  serve = do
    c ← get_conn
    if c.flags.encrypted
        then (call ssl_set_accept_state >> set_flags (λ f. record f { tls_handshake = true }))
        else reader_read env fuel [] 0
    call uv_read_start

  -- One that libuv does not accept.
  refuse : M (Unit {0})
  refuse = do set_conn (λ c. record c { shutdown_tasks = pos 1 }); call (uv_close client)

  after_init : ErrorCode → M (Unit {0})
  unfolding serve refuse
  after_init e =
      if not (is_success e)
      then call free_connection
      else (call tcp_init >> ask env.int_of uv_accept >>= λ accepted.
          if is_zero accepted then serve else refuse)

  -- _ch_pr_new_connection_cb
  unfoldable pub new_connection_cb : ℤ → M (Unit {0})
  unfolding after_init
  new_connection_cb status =
      if is_neg status then skip else (call alloc_connection >> Init.init env true >>= after_init)
