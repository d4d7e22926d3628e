-- ===== src/Protocol.antt =====
-- src/protocol.c: what happens with the bytes that libuv reads on a connection.
--
-- ch_cn_shutdown is called with a nesting of 2, which Connection/Shutdown/Depth shows to be enough.
pub mod Failure
pub mod Frame
pub mod Events
pub mod Life
pub mod Callbacks
pub mod Start
pub mod Accept
pub mod Tests
use c4irp.Prelude.{ℕ, zero, suc, ◌+◌, ◌-◌, false, List, ltb, if◌then◌else◌, take, drop}
use c4irp.Prelude.Outcome.{unfinished}
use c4irp.Prelude.Int.{ℤ, is_neg, is_pos, is_zero, eq_ℤ, pos_part}
use c4irp.World.{Env, ssl_do_handshake, ssl_is_init_finished, ssl_read, bio_write}
use c4irp.World.Monad.{M, ◌>>=◌, ◌>>◌, skip, get_conn, set_conn, set_flags, when, ask}
use c4irp.Connection.Write.{write}
use c4irp.Connection.Shutdown.{shutdown, send_if_pending}
use c4irp.Reader.{read_data}

module _ (env : Env) (fuel : ℕ) where
  -- A call of ch_cn_shutdown whose result is not used.
  unfoldable pub close : M (Unit {0})
  close = shutdown env fuel 2 >>= λ _. skip

  -- ch_rd_read
  unfoldable pub reader_read : List ℕ → ℕ → M (Unit {0})
  reader_read = read_data env (shutdown env fuel 2) (write env (shutdown env fuel 2) fuel) fuel

  -- _ch_pr_do_handshake
  unfoldable pub do_handshake : M (Unit {0})
  unfolding close
  do_handshake = do
    state ← ask env.int_of ssl_do_handshake
    set_conn (λ c. record c { tls_handshake_state = state })
    finished ← ask env.test_of ssl_is_init_finished
    when finished (set_flags (λ f. record f { tls_handshake = false }))
    if finished
        then (if is_zero state then close else send_if_pending env (shutdown env fuel 2) fuel)
        else send_if_pending env (shutdown env fuel 2) fuel

  -- _ch_pr_read
  unfoldable pub read : M (Unit {0})
  unfolding close reader_read
  read = do
    c ← get_conn
    r ← ask env.bytes_of (ssl_read c.buffer_size)
    if is_pos r.0 then reader_read (take (pos_part r.0) r.1) (pos_part r.0) else close

  -- What follows a BIO_write that took bytes.
  unfoldable pub decrypted : M (Unit {0})
  unfolding do_handshake read
  decrypted = do c ← get_conn; if c.flags.tls_handshake then do_handshake else read

  -- The do-while loop of _ch_pr_read_data_cb, on fuel: `handled` is `bytes_decrypted`.
  unfoldable pub decrypt_loop : ℕ → List ℕ → ℕ → ℕ → M (Unit {0})
  unfolding close decrypted
  decrypt_loop zero buf nread handled = λ s. unfinished
  decrypt_loop (suc rounds) buf nread handled =
      let again = decrypt_loop rounds buf nread in
      do
        taken ← ask env.int_of (bio_write (take (nread - handled) (drop handled buf)))
        if is_pos taken
            then (decrypted
                >> (if ltb (handled + pos_part taken) nread
                    then again (handled + pos_part taken)
                    else skip))
            else close

  -- _ch_pr_read_data_cb
  unfoldable pub read_data_cb : ℤ → List ℕ → M (Unit {0})
  unfolding close reader_read decrypt_loop
  read_data_cb nread buf = do
    set_flags (λ f. record f { buf_uv_used = false })
    c ← get_conn
    if eq_ℤ nread env.codes.uv_eof
        then close
        else if is_neg nread
        then close
        else if c.flags.encrypted
        then decrypt_loop (suc (pos_part nread)) buf (pos_part nread) 0
        else reader_read buf (pos_part nread)
