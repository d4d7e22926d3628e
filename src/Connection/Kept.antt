-- ===== src/Connection/Kept.antt =====
-- The interface behind which ch_cn_write, ch_cn_send_if_pending and SSL_read keep a predicate.
use c4irp.Prelude.{ℕ, List, Option}
use c4irp.Prelude.Int.{ℤ}
use c4irp.Types.{ErrorCode}
use c4irp.World.{Env, State, Callback, ssl_read}
use c4irp.World.Monad.{M, ◌>>=◌, get_conn, ask}
use c4irp.World.Keeps.{Keeps}
use c4irp.Connection.Frame.{Frame}
use c4irp.Connection.Write.{write}
use c4irp.Connection.Shutdown.{send_if_pending, shutdown_uv}

pub record Kept (env : Env) (fuel : ℕ) (P : State → Type 0) : Type 1 where
  pub framed : Frame P
  pub by_write :
      (shutdown : M ErrorCode)
      → Keeps P shutdown
      → (buf : List ℕ) (cb : Option Callback) → Keeps P (write env shutdown fuel buf cb)
  pub by_pending :
      (shutdown : M ErrorCode) → Keeps P shutdown → Keeps P (send_if_pending env shutdown fuel)
  pub by_decrypt :
      (f : ℤ × List ℕ → M (Unit {0}))
      → ((r : ℤ × List ℕ) → Keeps P (f r))
      → Keeps P (get_conn >>= λ c. ask env.bytes_of (ssl_read c.buffer_size) >>= f)
  pub by_uv : (shutdown : M ErrorCode) → Keeps P (shutdown_uv env shutdown fuel)
