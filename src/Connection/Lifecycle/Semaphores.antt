-- ===== src/Connection/Lifecycle/Semaphores.antt =====
-- The two semaphores over the life of a shutdown: `shutdown_tasks` of the connection counts the
-- handles that are being closed, `closing_tasks` of chirp the callbacks that are due while it closes.
use c4irp.Prelude.{ℕ, ◌≡◌, refl, true, false, List, [], ◌∷◌, ◌++◌, arith, if◌then◌else◌, ◌+◌}
use c4irp.Prelude.Outcome.{done}
use c4irp.Prelude.Int.{ℤ, pos, ◌+ℤ◌, ◌-ℤ◌}
use c4irp.World.{
  Env, State, Connection, client, shutdown_timeout, Call, uv_close, uv_is_closing,
  shutdown_timer_stop, free_buffer, free_pool, free_connection, mutex_destroy, ssl_free, bio_free,
}
use c4irp.World.Monad.{◌>>◌, M}
use c4irp.Connection.Shutdown.{shutdown_cb}
use c4irp.Connection.Lifecycle.{is_some, free_all, close_cb}

-- The calls that free a connection, the last one first.
abbrev pub freed : Connection → List Call
freed c =
    free_connection
    ∷ mutex_destroy
    ∷ free_pool
    ∷ ((if c.has_bio_app then bio_free ∷ [] else [])
        ++ ((if c.has_ssl then ssl_free ∷ [] else [])
            ++ (if is_some c.buffer_uv
                then (if c.flags.encrypted
                    then free_buffer ∷ free_buffer ∷ free_buffer ∷ []
                    else free_buffer ∷ [])
                else [])))

-- The state with both semaphores given anew and calls added.
abbrev pub counted : State → ℤ → ℤ → List Call → State
counted s shutdown_tasks closing_tasks calls = record s {
  conn = record (s.conn) { shutdown_tasks = shutdown_tasks };
  chirp = record (s.chirp) { closing_tasks = closing_tasks };
  trace = calls ++ s.trace;
}

pub free_all_lem :
    (s : State) → free_all s ≡ done (tt, record s { trace = freed s.conn ++ s.trace })
unfolding free_all
free_all_lem s = ground arith

-- The calls of the shutdown callback on handles that are open, the last one first.
abbrev pub closing_calls : List Call
closing_calls =
    uv_close shutdown_timeout ∷ uv_close client ∷ uv_is_closing ∷ shutdown_timer_stop ∷ []

module _ (env : Env) (status : ℤ) (s : State) (closing : s.chirp.closing ≡ true) where
  pub shutdown_cb_open :
      env.test_of (uv_is_closing ∷ shutdown_timer_stop ∷ s.trace) ≡ false
      → shutdown_cb env status s
        ≡ done
            (tt, counted s (s.conn.shutdown_tasks +ℤ 2) (s.chirp.closing_tasks +ℤ 1) closing_calls)
  unfolding shutdown_cb
  shutdown_cb_open is_open = rw (is_open, closing) refl

  shutdown_cb_closing :
      env.test_of (uv_is_closing ∷ shutdown_timer_stop ∷ s.trace) ≡ true
      → shutdown_cb env status s
        ≡ done (
          tt,
          counted s s.conn.shutdown_tasks
              (s.chirp.closing_tasks -ℤ 1)
              (uv_is_closing ∷ shutdown_timer_stop ∷ []),
        )
  unfolding shutdown_cb
  shutdown_cb_closing is_closing = rw (is_closing, closing) refl

  pub close_cb_first :
      s.conn.shutdown_tasks ≡ pos 2
      → close_cb s ≡ done (tt, counted s (pos 1) (s.chirp.closing_tasks -ℤ 1) [])
  unfolding close_cb
  close_cb_first two = rw (closing, two) refl

  pub close_cb_last :
      s.conn.shutdown_tasks ≡ pos 1
      → close_cb s ≡ done (tt, counted s (pos 0) (s.chirp.closing_tasks -ℤ 1) (freed s.conn))
  unfolding close_cb
  close_cb_last one = rw (closing, one) (free_all_lem _)

back : (n : ℕ) → pos (n + 1) +ℤ 1 -ℤ 1 -ℤ 1 ≡ pos n
back n = ground arith

-- uv_shutdown has called back, and then both handles have been closed.
pub closed_down : Env → ℤ → M (Unit {0})
closed_down env status = do shutdown_cb env status; close_cb; close_cb

module _ (env : Env) (status : ℤ) (s : State) (n : ℕ) (closing : s.chirp.closing ≡ true)
    (tasks : s.conn.shutdown_tasks ≡ pos 0) (due : s.chirp.closing_tasks ≡ pos (n + 1)) where
  -- A shutdown that libuv completes, while chirp is closing and the handles are open: both handles
  -- are closed, the connection's memory is freed once, after the second of them, and the semaphores
  -- balance: `shutdown_tasks` is 0 again and `closing_tasks` is without the one that ch_cn_shutdown
  -- had added.
  pub closed_down_balance :
      env.test_of (uv_is_closing ∷ shutdown_timer_stop ∷ s.trace) ≡ false
      → closed_down env status s
        ≡ done
            (tt, counted (counted s (pos 0) (pos n) closing_calls) (pos 0) (pos n) (freed s.conn))
  unfolding closed_down
  closed_down_balance is_open =
      rw
        (
          shutdown_cb_open env status s closing is_open,
          tasks,
          due,
          close_cb_first env status (counted s (pos 2) (pos (n + 1) +ℤ 1) closing_calls) closing
              refl,
          close_cb_last env status
              (counted (counted s (pos 2) (pos (n + 1) +ℤ 1) closing_calls) (pos 1)
                (pos (n + 1) +ℤ 1 -ℤ 1) [])
              closing refl,
          back n,
        )
        refl
