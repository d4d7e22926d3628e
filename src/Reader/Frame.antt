-- ===== src/Reader/Frame.antt =====
-- The reader starts write requests only through ch_cn_write and ch_cn_shutdown, and keeps what they
-- keep.
use c4irp.Prelude.{ℕ, zero, suc, List, Option, none, some, Bool, true, false}
use c4irp.Types.{ErrorCode}
use c4irp.World.{
  State, Env, Callback, ReadState, rd_start, rd_handshake, rd_wait, rd_header, rd_actor, rd_data,
  WireMessage,
}
use c4irp.World.Monad.{M}
use c4irp.Connection.Frame.{Frame, frame}
use c4irp.World.Keeps.{Keeps}
use c4irp.Reader.{
  set_aside, replace_old, handshake, send_handshake, receive_header, receive_part, switch, continue,
  read_loop, read_data, after_header, after_actor, after_data,
}

module _ {P : State → Type 0} (fr : Frame P) (env : Env) (shutdown : M ErrorCode)
    (h : Keeps P shutdown) where
  set_aside-Keeps : (old : Option ℕ) → Keeps P (set_aside env shutdown old)
  unfolding set_aside
  set_aside-Keeps none = search frame
  set_aside-Keeps (some o) = search frame

  replace_old-Keeps : Keeps P (replace_old env shutdown)
  unfolding replace_old
  replace_old-Keeps = search (frame, set_aside-Keeps) depth 9

  handshake-Keeps : (buf : List ℕ) (at read : ℕ) → Keeps P (handshake env shutdown buf at read)
  unfolding handshake
  handshake-Keeps buf at read = search (frame, replace_old-Keeps) depth 15

  module _ (write : List ℕ → Option Callback → M (Unit {0}))
      (w : (buf : List ℕ) (cb : Option Callback) → Keeps P (write buf cb)) where
    send_handshake-Keeps : Keeps P (send_handshake env shutdown write)
    unfolding send_handshake
    send_handshake-Keeps = search (frame, w) depth 12

    receive_header-Keeps :
        (buf : List ℕ) (read handled : ℕ)
        → Keeps P (receive_header env shutdown write buf read handled)
    unfolding receive_header
    receive_header-Keeps buf read handled = search frame depth 9

    receive_part-Keeps :
        (next : WireMessage → ReadState) (b : Bool) (handled : ℕ)
        → Keeps P (receive_part env shutdown write next b handled)
    unfolding receive_part
    receive_part-Keeps next b handled = search frame depth 9

    switch-Keeps :
        (st : ReadState) (buf : List ℕ) (read handled : ℕ)
        → Keeps P (switch env shutdown write st buf read handled)
    unfolding switch
    switch-Keeps rd_start buf read handled = search (frame, send_handshake-Keeps) depth 9
    switch-Keeps rd_handshake buf read handled = search (frame, handshake-Keeps) depth 9
    switch-Keeps rd_wait buf read handled = receive_header-Keeps buf read handled
    switch-Keeps rd_header buf read handled = receive_part-Keeps after_header false handled
    switch-Keeps rd_actor buf read handled = receive_part-Keeps after_actor false handled
    switch-Keeps rd_data buf read handled = receive_part-Keeps (λ _. after_data) true handled

    continue-Keeps :
        (m : ℕ → M (Unit {0})) (read : ℕ) (r : Option ℕ)
        → ((k : ℕ) → Keeps P (m k))
        → Keeps P (continue env shutdown write m read r)
    unfolding continue
    continue-Keeps m read none k = search frame
    continue-Keeps m read (some handled) k = search (frame, k)

    read_loop-Keeps :
        (fuel : ℕ) (buf : List ℕ) (read handled : ℕ)
        → Keeps P (read_loop env shutdown write fuel buf read handled)
    unfolding read_loop
    read_loop-Keeps zero buf read handled = search frame
    read_loop-Keeps (suc fuel) buf read handled =
        search (frame, switch-Keeps, continue-Keeps, read_loop-Keeps fuel) depth 9

    pub read_data-Keeps :
        (fuel : ℕ) (buf : List ℕ) (read : ℕ) → Keeps P (read_data env shutdown write fuel buf read)
    unfolding read_data
    read_data-Keeps fuel buf read = read_loop-Keeps fuel buf read 0
