-- ===== src/Connection/Shutdown/Depth.antt =====
-- How deep ch_cn_shutdown calls itself, and what a second call does.
use c4irp.Prelude.{ℕ, suc, Bool, true, false, ◌≡◌, refl, if◌then◌else◌}
use mathlib.Core.Path.{subst}
use c4irp.Prelude.Outcome.{done}
use c4irp.Types.{ErrorCode, in_progress}
use c4irp.World.{Env, State}
use c4irp.World.Monad.{M}
use c4irp.World.Agree.{Agree, agree, Keeps}
use c4irp.Connection.Write.{write}
use c4irp.Connection.Write.Agrees.{write-Agree}
use c4irp.Reader.Agrees.{read_data-Agree}
use c4irp.Connection.Shutdown.{
  send_handshake_bytes, send_if_pending, shutdown_tls, shutdown_uv, shutdown_rest, shutdown_first,
  shutdown_gen, shutdown,
}

-- A call of ch_cn_shutdown on a connection that is shutting down returns CH_IN_PRORESS, and neither
-- changes anything nor calls anything, at whatever depth it stands.
pub shutdown_again :
    (env : Env) (fuel depth : ℕ) (s : State)
    → s.conn.flags.shutting_down ≡ true
    → shutdown env fuel (suc depth) s ≡ done (in_progress, s)
unfolding shutdown shutdown_gen
shutdown_again env fuel depth s h = rw h refl

shutdown-Agree :
    (env : Env) (fuel d e : ℕ) → Agree (shutdown env fuel (suc d)) (shutdown env fuel (suc e))
shutdown-Agree env fuel d e = record {
  run = λ s i. rw (shutdown_again env fuel d s i, shutdown_again env fuel e s i) (refl, i);
}

module _ (env : Env) (f g : M ErrorCode) (h : Agree f g) (fuel : ℕ) where
  send_handshake_bytes-Agree :
      Agree (send_handshake_bytes env f fuel) (send_handshake_bytes env g fuel)
  unfolding send_handshake_bytes
  send_handshake_bytes-Agree = search agree depth 12

  pub send_if_pending-Agree : Agree (send_if_pending env f fuel) (send_if_pending env g fuel)
  unfolding send_if_pending
  send_if_pending-Agree =
      search
        (
          agree,
          send_handshake_bytes-Agree,
          read_data-Agree env f g h (write env f fuel) (write env g fuel)
              (write-Agree env f g h fuel),
        )
        depth 9

  shutdown_tls-Agree : Agree (shutdown_tls env f fuel) (shutdown_tls env g fuel)
  unfolding shutdown_tls
  shutdown_tls-Agree = search (agree, send_if_pending-Agree) depth 12

  shutdown_uv-Agree : Agree (shutdown_uv env f fuel) (shutdown_uv env g fuel)
  unfolding shutdown_uv
  shutdown_uv-Agree = search agree depth 12

  shutdown_rest-Agree : Agree (shutdown_rest env f fuel) (shutdown_rest env g fuel)
  unfolding shutdown_rest
  shutdown_rest-Agree = search (agree, shutdown_tls-Agree, shutdown_uv-Agree) depth 9

  shutdown_first_eq :
      (s : State)
      → (shutdown_first env f fuel s ≡ shutdown_first env g fuel s)
        × Keeps (shutdown_first env f fuel s)
  unfolding shutdown_first
  shutdown_first_eq s = shutdown_rest-Agree.run _ refl

-- A program that runs only where the guard lets it.
guarded :
    (b : Bool) (m n n' : M ErrorCode) (s : State)
    → n s ≡ n' s
    → (if b then m else n) s ≡ (if b then m else n') s
guarded true m n n' s e = refl
guarded false m n n' s e = e

Keeps-if :
    (b : Bool) (m n : M ErrorCode) (s : State)
    → (b ≡ true → Keeps (m s))
    → Keeps (n s)
    → Keeps ((if b then m else n) s)
Keeps-if true m n s h k = h refl
Keeps-if false m n s h k = k

-- ch_cn_shutdown comes back to itself at most once: a nesting of two is enough, whatever libuv and
-- OpenSSL answer and whatever the state is.
pub shutdown_depth :
    (env : Env) (fuel d : ℕ) (s : State) → shutdown env fuel (suc (suc d)) s ≡ shutdown env fuel 2 s
unfolding shutdown shutdown_gen
shutdown_depth env fuel d s =
    guarded s.conn.flags.shutting_down _ _ _ s
      (shutdown_first_eq env (shutdown env fuel (suc d)) (shutdown env fuel 1)
        (shutdown-Agree env fuel d 0) fuel s).0

-- The state after a call of ch_cn_shutdown that returns is shutting down.
pub shutdown-IsShutting :
    (env : Env) (fuel d : ℕ) (s s' : State) (e : ErrorCode)
    → shutdown env fuel (suc (suc d)) s ≡ done (e, s')
    → s'.conn.flags.shutting_down ≡ true
unfolding shutdown shutdown_gen
shutdown-IsShutting env fuel d s s' e h = subst Keeps h (
    Keeps-if s.conn.flags.shutting_down _ _ s (λ on. on)
      (shutdown_first_eq env (shutdown env fuel (suc d)) (shutdown env fuel (suc d))
        (shutdown-Agree env fuel d d) fuel s).1)
