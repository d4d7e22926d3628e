-- ===== src/Protocol/Accept/InFlight.antt =====
-- A new connection starts no write request.
use c4irp.Prelude.{ℕ, Bool, false, ◌≡◌, if◌then◌else◌}
use c4irp.Prelude.Int.{ℤ, is_neg}
use c4irp.Types.{ErrorCode}
use c4irp.World.{Env, State, alloc_connection}
use c4irp.World.Monad.{M, call}
use c4irp.World.Keeps.{Ends, Moves, Keeps, Moves-bind, Keeps-Moves}
use c4irp.Connection.InFlight.{AtMostOne, started, is_quiet}
use c4irp.Connection.InFlight.Rules.{in_flight}
use c4irp.Connection.Init.InFlight.{Untouched, init-Moves}
use c4irp.Connection.Shutdown.InFlight.{AtMostOne-Kept}
use c4irp.Protocol.Frame.{reader_read-Keeps}
use c4irp.Protocol.Accept.{serve, refuse, after_init, new_connection_cb}

module _ (env : Env) (fuel : ℕ) where
  serve-Keeps : Keeps (AtMostOne 0) (serve env fuel)
  unfolding serve
  serve-Keeps =
      search
        (in_flight, reader_read-Keeps (AtMostOne-Kept env fuel) (AtMostOne-Kept env fuel).framed)
        depth 12

  refuse-Keeps : Keeps (AtMostOne 0) (refuse env fuel)
  unfolding refuse
  refuse-Keeps = search in_flight depth 9

  after_init-Keeps : (e : ErrorCode) → Keeps (AtMostOne 0) (after_init env fuel e)
  unfolding after_init
  after_init-Keeps e = search (in_flight, serve-Keeps, refuse-Keeps) depth 12

  alloc-Untouched : Moves Untouched (call alloc_connection) (λ _. Untouched)
  unfolding started is_quiet
  alloc-Untouched = record {
    run = λ s p. record { none_started = p.none_started; none_overwritten = p.none_overwritten };
  }

  not_failed :
      (b : Bool) (m m' : M (Unit {0})) (s : State)
      → b ≡ false
      → Ends (λ _. AtMostOne 0) (m' s)
      → Ends (λ _. AtMostOne 0) ((if b then m else m') s)
  not_failed b m m' s e h = rw e h

  pub new_connection_cb-Ends :
      (status : ℤ) (s : State)
      → is_neg status ≡ false
      → Untouched s
      → Ends (λ _. AtMostOne 0) (new_connection_cb env fuel status s)
  unfolding new_connection_cb
  new_connection_cb-Ends status s ok p = not_failed (is_neg status) _ _ s ok (
      (Moves-bind (Moves-bind alloc-Untouched (λ _. init-Moves env))
          (λ e. Keeps-Moves (after_init-Keeps e))).run
        s p)
