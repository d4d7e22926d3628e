-- ===== src/Connection/Shutdown/Wide.antt =====
-- ch_cn_send_if_pending, and with it all of the code but uv_shutdown and the callbacks that close
-- handles, keeps what looks neither at the write request nor beyond what the connection owns.
use c4irp.Prelude.{ℕ}
use c4irp.Types.{ErrorCode}
use c4irp.World.{Env, State, Connection}
use c4irp.World.Monad.{M}
use c4irp.World.Keeps.{Keeps}
use c4irp.Connection.Frame.{Wide, wide, Wide-Frame}
use c4irp.Connection.Kept.{Kept}
use c4irp.Connection.Write.{write}
use c4irp.Connection.Write.Wide.{write-Keeps}
use c4irp.Reader.Frame.{read_data-Keeps}
use c4irp.Connection.Shutdown.{send_handshake_bytes, send_if_pending, shutdown_uv}

module _ {P : State → Type 0} {Room : Connection → Type 0} (w : Wide P Room) (env : Env)
    (fuel : ℕ) where
  module _ (shutdown : M ErrorCode) (h : Keeps P shutdown) where
    send_handshake_bytes-Keeps : Keeps P (send_handshake_bytes env shutdown fuel)
    unfolding send_handshake_bytes
    send_handshake_bytes-Keeps = search wide depth 12 fits 9000

    send_if_pending-Keeps : Keeps P (send_if_pending env shutdown fuel)
    unfolding send_if_pending
    send_if_pending-Keeps =
        search
          (
            wide,
            send_handshake_bytes-Keeps,
            read_data-Keeps (Wide-Frame w) env shutdown h (write env shutdown fuel)
                (write-Keeps w env shutdown h fuel),
          )
          depth 9

  pub Wide-Kept :
      ((shutdown : M ErrorCode) → Keeps P (shutdown_uv env shutdown fuel)) → Kept env fuel P
  Wide-Kept u = record {
    framed = Wide-Frame w;
    by_write = λ sh h. write-Keeps w env sh h fuel;
    by_pending = send_if_pending-Keeps;
    by_decrypt = λ f h. search (wide, h) depth 9;
    by_uv = u;
  }
