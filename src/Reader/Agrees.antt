-- ===== src/Reader/Agrees.antt =====
-- The reader calls ch_cn_shutdown only on a connection, and leaves the flag of a shutdown alone: two
-- versions of ch_cn_shutdown that agree while shutting down make no difference to it then.
use c4irp.Prelude.{ℕ, zero, suc, List, Option, none, some, Bool, true, false}
use c4irp.Types.{ErrorCode}
use c4irp.World.{
  Env, Callback, ReadState, rd_start, rd_handshake, rd_wait, rd_header, rd_actor, rd_data,
  WireMessage,
}
use c4irp.World.Monad.{M}
use c4irp.World.Agree.{Agree, agree}
use c4irp.Reader.{
  set_aside, replace_old, handshake, send_handshake, receive_header, receive_part, switch, continue,
  read_loop, read_data, after_header, after_actor, after_data,
}

module _ (env : Env) (f g : M ErrorCode) (h : Agree f g) where
  set_aside-Agree : (old : Option ℕ) → Agree (set_aside env f old) (set_aside env g old)
  unfolding set_aside
  set_aside-Agree none = search agree
  set_aside-Agree (some o) = search agree

  replace_old-Agree : Agree (replace_old env f) (replace_old env g)
  unfolding replace_old
  replace_old-Agree = search (agree, set_aside-Agree) depth 9

  handshake-Agree :
      (buf : List ℕ) (at read : ℕ)
      → Agree (handshake env f buf at read) (handshake env g buf at read)
  unfolding handshake
  handshake-Agree buf at read = search (agree, replace_old-Agree) depth 15

  module _ (write write' : List ℕ → Option Callback → M (Unit {0}))
      (w : (buf : List ℕ) (cb : Option Callback) → Agree (write buf cb) (write' buf cb)) where
    send_handshake-Agree : Agree (send_handshake env f write) (send_handshake env g write')
    unfolding send_handshake
    send_handshake-Agree = search (agree, w) depth 9

    receive_header-Agree :
        (buf : List ℕ) (read handled : ℕ)
        → Agree
            (receive_header env f write buf read handled)
            (receive_header env g write' buf read handled)
    unfolding receive_header
    receive_header-Agree buf read handled = search agree depth 9

    receive_part-Agree :
        (next : WireMessage → ReadState) (b : Bool) (handled : ℕ)
        → Agree (receive_part env f write next b handled) (receive_part env g write' next b handled)
    unfolding receive_part
    receive_part-Agree next b handled = search agree depth 9

    switch-Agree :
        (st : ReadState) (buf : List ℕ) (read handled : ℕ)
        → Agree (switch env f write st buf read handled) (switch env g write' st buf read handled)
    unfolding switch
    switch-Agree rd_start buf read handled = search (agree, send_handshake-Agree) depth 9
    switch-Agree rd_handshake buf read handled = search (agree, handshake-Agree) depth 9
    switch-Agree rd_wait buf read handled = receive_header-Agree buf read handled
    switch-Agree rd_header buf read handled = receive_part-Agree after_header false handled
    switch-Agree rd_actor buf read handled = receive_part-Agree after_actor false handled
    switch-Agree rd_data buf read handled = receive_part-Agree (λ _. after_data) true handled

    continue-Agree :
        (m n : ℕ → M (Unit {0})) (read : ℕ) (r : Option ℕ)
        → ((k : ℕ) → Agree (m k) (n k))
        → Agree (continue env f write m read r) (continue env g write' n read r)
    unfolding continue
    continue-Agree m n read none k = search agree
    continue-Agree m n read (some handled) k = search (agree, k)

    read_loop-Agree :
        (fuel : ℕ) (buf : List ℕ) (read handled : ℕ)
        → Agree
            (read_loop env f write fuel buf read handled)
            (read_loop env g write' fuel buf read handled)
    unfolding read_loop
    read_loop-Agree zero buf read handled = search agree
    read_loop-Agree (suc fuel) buf read handled =
        search (agree, switch-Agree, continue-Agree, read_loop-Agree fuel) depth 9

    pub read_data-Agree :
        (fuel : ℕ) (buf : List ℕ) (read : ℕ)
        → Agree (read_data env f write fuel buf read) (read_data env g write' fuel buf read)
    unfolding read_data
    read_data-Agree fuel buf read = read_loop-Agree fuel buf read 0
