-- ===== src/Protocol/Frame.antt =====
-- What is read on a connection keeps what ch_cn_write, ch_cn_send_if_pending and SSL_read keep.
use c4irp.Prelude.{ℕ, Bool, zero, suc, List, take, if◌then◌else◌}
use c4irp.Prelude.Int.{ℤ, is_pos, pos_part}
use c4irp.World.{Env, State, Message}
use c4irp.World.Monad.{◌>>=◌, skip}
use c4irp.Writer.{send, send_timeout_cb}
use c4irp.Writer.Frame.{send-Keeps, send_timeout_cb-Keeps}
use c4irp.Connection.Frame.{Frame, frame}
use c4irp.Connection.Kept.{Kept}
use c4irp.Connection.Shutdown.Frame.{shutdown-Keeps}
use c4irp.World.Keeps.{Keeps}
use c4irp.Connection.Write.{write}
use c4irp.Connection.Shutdown.{shutdown, send_if_pending}
use c4irp.Reader.Frame.{read_data-Keeps}
use c4irp.Protocol.{close, reader_read, do_handshake, read, decrypted, decrypt_loop, read_data_cb}

module _ {P : State → Type 0} {env : Env} {fuel : ℕ} (k : Kept env fuel P) (fr : Frame P) where
  pending-Keeps : Keeps P (send_if_pending env (shutdown env fuel 2) fuel)
  pending-Keeps = k.by_pending (shutdown env fuel 2) (shutdown-Keeps k 2)

  close-Keeps : Keeps P (close env fuel)
  unfolding close
  close-Keeps = search (frame, shutdown-Keeps k 2) depth 9

  pub reader_read-Keeps : (buf : List ℕ) (m : ℕ) → Keeps P (reader_read env fuel buf m)
  unfolding reader_read
  reader_read-Keeps buf m =
      read_data-Keeps fr env (shutdown env fuel 2) (shutdown-Keeps k 2)
        (write env (shutdown env fuel 2) fuel)
        (k.by_write (shutdown env fuel 2) (shutdown-Keeps k 2)) fuel buf m

  do_handshake-Keeps : Keeps P (do_handshake env fuel)
  unfolding do_handshake
  do_handshake-Keeps = search (frame, close-Keeps, pending-Keeps) depth 12

  read-Keeps : Keeps P (read env fuel)
  unfolding read
  read-Keeps =
      k.by_decrypt
        (λ r.
          if is_pos r.0
          then reader_read env fuel (take (pos_part r.0) r.1) (pos_part r.0)
          else close env fuel)
        (λ r. search (frame, close-Keeps, reader_read-Keeps) depth 9)

  decrypted-Keeps : Keeps P (decrypted env fuel)
  unfolding decrypted
  decrypted-Keeps = search (frame, do_handshake-Keeps, read-Keeps) depth 9

  decrypt_loop-Keeps :
      (rounds : ℕ) (buf : List ℕ) (nread handled : ℕ)
      → Keeps P (decrypt_loop env fuel rounds buf nread handled)
  unfolding decrypt_loop
  decrypt_loop-Keeps zero buf nread handled = search frame
  decrypt_loop-Keeps (suc rounds) buf nread handled =
      search (frame, decrypted-Keeps, close-Keeps, decrypt_loop-Keeps rounds) depth 12

  pub read_data_cb-Keeps : (nread : ℤ) (buf : List ℕ) → Keeps P (read_data_cb env fuel nread buf)
  unfolding read_data_cb
  read_data_cb-Keeps nread buf =
      search (frame, close-Keeps, reader_read-Keeps, decrypt_loop-Keeps) depth 12

-- The calls that a user of a connection makes, and the timer of the writer.
module _ {P : State → Type 0} {env : Env} {fuel : ℕ} (k : Kept env fuel P) where
  pub received-Keeps : (nread : ℤ) (buf : List ℕ) → Keeps P (read_data_cb env fuel nread buf)
  received-Keeps nread buf = read_data_cb-Keeps k k.framed nread buf

  pub given-Keeps :
      (msg : Message) (has_cb : Bool)
      → Keeps P (send env (shutdown env fuel 2) (write env (shutdown env fuel 2) fuel) msg has_cb)
  given-Keeps msg has_cb =
      send-Keeps k.framed env (shutdown env fuel 2) (shutdown-Keeps k 2)
        (write env (shutdown env fuel 2) fuel)
        (k.by_write (shutdown env fuel 2) (shutdown-Keeps k 2)) msg has_cb

  pub timed_out-Keeps : Keeps P (send_timeout_cb env (shutdown env fuel 2))
  timed_out-Keeps = send_timeout_cb-Keeps k.framed env (shutdown env fuel 2) (shutdown-Keeps k 2)

  pub wanted-Keeps : Keeps P (shutdown env fuel 2 >>= λ _. skip)
  unfolding close
  wanted-Keeps = close-Keeps k k.framed
