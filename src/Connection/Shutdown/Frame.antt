-- ===== src/Connection/Shutdown/Frame.antt =====
-- ch_cn_shutdown keeps what ch_cn_send_if_pending and ch_cn_write keep.
use c4irp.Prelude.{ℕ, zero, suc}
use c4irp.Types.{ErrorCode}
use c4irp.World.{Env, State}
use c4irp.World.Monad.{M}
use c4irp.World.Keeps.{Keeps, Keeps-if}
use c4irp.Connection.Frame.{Frame, frame}
use c4irp.Connection.Kept.{Kept}
use c4irp.Connection.Shutdown.{
  send_if_pending, shutdown_tls, shutdown_uv, shutdown_rest, shutdown_first, shutdown_gen, shutdown,
}

module _ {P : State → Type 0} (fr : Frame P) (env : Env) (shutdown' : M ErrorCode) (fuel : ℕ)
    (h : Keeps P (send_if_pending env shutdown' fuel))
    (u : Keeps P (shutdown_uv env shutdown' fuel)) where
  shutdown_tls-Keeps : Keeps P (shutdown_tls env shutdown' fuel)
  unfolding shutdown_tls
  shutdown_tls-Keeps = search frame depth 12

  shutdown_rest-Keeps : Keeps P (shutdown_rest env shutdown' fuel)
  unfolding shutdown_rest
  shutdown_rest-Keeps = search (frame, shutdown_tls-Keeps) depth 9

  shutdown_first-Keeps : Keeps P (shutdown_first env shutdown' fuel)
  unfolding shutdown_first
  shutdown_first-Keeps = search (frame, shutdown_rest-Keeps) depth 9

  shutdown_gen-Keeps : Keeps P (shutdown_gen env shutdown' fuel)
  unfolding shutdown_gen
  shutdown_gen-Keeps = record {
    run = λ s. (Keeps-if s.conn.flags.shutting_down (search frame) shutdown_first-Keeps).run s;
  }

pub shutdown-Keeps :
    {P : State → Type 0} {env : Env} {fuel : ℕ} (k : Kept env fuel P) (depth : ℕ)
    → Keeps P (shutdown env fuel depth)
unfolding shutdown
shutdown-Keeps k zero = search frame
shutdown-Keeps {env} {fuel} k (suc depth) =
    shutdown_gen-Keeps k.framed env (shutdown env fuel depth) fuel
      (k.by_pending (shutdown env fuel depth) (shutdown-Keeps k depth))
      (k.by_uv (shutdown env fuel depth))
