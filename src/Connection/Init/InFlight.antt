-- ===== src/Connection/Init/InFlight.antt =====
-- A connection that is initialized for encryption has no write request under way.
use c4irp.Prelude.{◌≡◌, refl, Bool, true, arith}
use c4irp.Prelude.Outcome.{Outcome, done, aborted, undefined, blocked, unfinished}
use c4irp.World.{Env, State, Chirp}
use c4irp.World.Monad.{lift}
use c4irp.World.Keeps.{Moves, Keeps}
use c4irp.Connection.InFlight.{AtMostOne, started, is_quiet}
use c4irp.Connection.InFlight.Rules.{in_flight}
use c4irp.Connection.Init.{init_writer, init_enc, rest_of_init, set_cleared, init}

-- No write request was ever started, and the buffer never overwritten.
pub record Untouched (s : State) : Type 0 where
  pub none_started : started s.trace ≡ 0
  pub none_overwritten : is_quiet 0 s.trace ≡ true

Keeps-lift : {P : State → Type 0} {A : Type 0} (o : Outcome A) → Keeps P (lift o)
Keeps-lift (done a) = record { run = λ s p. p }
Keeps-lift aborted = record { run = λ s p. tt }
Keeps-lift undefined = record { run = λ s p. tt }
Keeps-lift blocked = record { run = λ s p. tt }
Keeps-lift unfinished = record { run = λ s p. tt }

module _ (env : Env) where
  init_enc-Keeps : Keeps (AtMostOne 0) (init_enc env)
  unfolding init_enc
  init_enc-Keeps = search in_flight depth 15

  init_writer-Keeps : Keeps (AtMostOne 0) (init_writer env)
  unfolding init_writer
  init_writer-Keeps = search in_flight depth 9

  rest_of_init-Keeps : (b : Bool) (chirp : Chirp) → Keeps (AtMostOne 0) (rest_of_init env b chirp)
  unfolding rest_of_init
  rest_of_init-Keeps b chirp =
      search (in_flight, Keeps-lift, init_writer-Keeps, init_enc-Keeps) depth 15

  pub init-Moves : Moves Untouched (init env true) (λ _. AtMostOne 0)
  unfolding init set_cleared
  init-Moves = record {
    run = λ s p. (rest_of_init-Keeps true s.chirp).run _ (record {
      tls = refl;
      lower = omega arith;
      upper = omega (arith, p.none_started);
      overwrites = p.none_overwritten;
    });
  }
