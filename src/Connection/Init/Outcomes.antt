-- ===== src/Connection/Init/Outcomes.antt =====
-- What ch_cn_init makes of the memory of a connection.
use c4irp.Prelude.{ℕ, ◌≤◌, ◌≡◌, refl, true, ◌∷◌}
use c4irp.World.{Env, State, Connection, timer_init, shutdown_timer, send_timer, mutex_init}
use c4irp.Reader
use c4irp.Buffer.Init.{init_pool, init_eq}
use c4irp.Connection.Init.{cleared, set_cleared, init_writer, rest_of_init, init_enc, init}

-- The connection for `n` handlers, before OpenSSL is called.
abbrev pub begun_connection : Connection → ℕ → Connection
begun_connection c n =
    let z = cleared c in
    record z {
      flags = record (z.flags) { encrypted = true };
      reader = record (z.reader) { pool = init_pool n };
    }

abbrev pub begun : State → State
begun s = record s {
  conn = begun_connection s.conn s.chirp.config.max_handlers;
  trace = timer_init shutdown_timer ∷ timer_init send_timer ∷ mutex_init ∷ s.trace;
}

pub init-begun :
    (env : Env) (s : State)
    → 1 ≤ s.chirp.config.max_handlers
    → s.chirp.config.max_handlers ≤ 32
    → init env true s ≡ init_enc env (begun s)
unfolding init set_cleared rest_of_init init_writer Reader.init
init-begun env s lo hi = rw (init_eq s.chirp.config.max_handlers lo hi) refl
