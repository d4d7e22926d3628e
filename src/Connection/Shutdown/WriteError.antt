-- ===== src/Connection/Shutdown/WriteError.antt =====
-- src/connection.c: _ch_cn_partial_write when SSL_write fails.
use c4irp.Prelude.{ℕ, suc, ◌≡◌, refl, true, false, List, ◌∷◌, some}
use c4irp.Prelude.Int.{is_neg}
use c4irp.Prelude.Outcome.{aborted}
use c4irp.World.{Env, State, Call, ssl_write, ssl_shutdown, ssl_is_init_finished}
use c4irp.Connection.Write.{encrypt, partial_write, unwritten}
use c4irp.Connection.Shutdown.{
  send_if_pending, shutdown_tls, shutdown_rest, shutdown_first, shutdown_gen, shutdown,
}

-- What the answers are where SSL_write refuses `rest` after the TLS handshake, and SSL_shutdown does
-- not fail.
pub record Refuses (env : Env) (rest : List ℕ) : Type 0 where
  pub refused : (t : List Call) → is_neg (env.int_of (ssl_write rest ∷ t)) ≡ true
  pub after_handshake : (t : List Call) → env.test_of (ssl_is_init_finished ∷ t) ≡ true
  pub shuts : (t : List Call) → is_neg (env.int_of (ssl_shutdown ∷ t)) ≡ false

-- On an encrypted connection that is not shutting down and has no write under way, with bytes `rest`
-- to write that SSL_write refuses, after the TLS handshake and with an SSL_shutdown that does not
-- fail, _ch_cn_partial_write stops the program: it has set `write_pending`, and the shutdown that it
-- calls asserts that the flag is not set.
pub partial_write-aborted :
    (env : Env) (fuel rounds depth : ℕ) (rest : List ℕ) (s : State)
    → Refuses env rest
    → unwritten s.conn 0 ≡ some rest
    → s.conn.flags.encrypted ≡ true
    → s.conn.flags.shutting_down ≡ false
    → s.conn.flags.write_pending ≡ false
    → s.conn.flags.buf_wtls_used ≡ false
    → partial_write env (shutdown env fuel (suc depth)) (suc rounds) s ≡ aborted
unfolding partial_write encrypt shutdown shutdown_gen shutdown_first shutdown_rest shutdown_tls
    send_if_pending
partial_write-aborted env fuel rounds depth rest s r left tls up free unused =
    rw (unused, free, left, r.refused, up, tls, r.after_handshake, r.shuts) refl
