-- ===== src/Chirp/System/Tests.antt =====
-- A chirp object with one handle of its own and one connection, until all has called back.
use c4irp.Prelude.{◌+◌, ◌-◌, ◌≡◌, refl, true, [], ◌∷◌, ◌==◌, arith}
use c4irp.Prelude.Int.{pos}
use c4irp.Prelude.Outcome.{Outcome, done, aborted, undefined, blocked, unfinished}
use c4irp.World.{State}
use c4irp.Connection.Shutdown.{shutdown, shutdown_gen, shutdown_cb}
use c4irp.Connection.Lifecycle.{close_cb, free_all}
use c4irp.Connection.Callbacks.{shutdowns}
use c4irp.Connection.Memory.{tally}
use c4irp.Protocol.Events.{handle, shutdown_wanted, shutdown_done, handle_closed}
use c4irp.Chirp.{check_closing}
use c4irp.Chirp.System.{
  Link, System, all_owed, all_down, state_of, link_after, Run, here, next, happened, own_closed,
}
use c4irp.Chirp.System.Balance.{down, semaphore_exact}
use c4irp.Samples.{sample_env, sample_connection, sample_chirp}

abbrev only : Link
only = record { env = sample_env; conn = sample_connection; trace = []; down = 0 }

abbrev start : System
start = record {
  chirp = record sample_chirp { closing = true; closing_tasks = pos 1 };
  links = only ∷ [];
  closed = 0;
}

abbrev returned : State → Outcome (Unit {0} × State) → State
returned s (done r) = r.1
returned s aborted = s
returned s undefined = s
returned s blocked = s
returned s unfinished = s

asked : State
unfolding handle shutdown shutdown_gen
asked = returned (state_of start only) (handle sample_env 9 shutdown_wanted (state_of start only))

went_down : State
unfolding asked handle shutdown_cb
went_down = returned asked (handle sample_env 9 (shutdown_done (pos 0)) asked)

half : State
unfolding went_down handle close_cb
half = returned went_down (handle sample_env 9 handle_closed went_down)

gone : State
unfolding half handle close_cb free_all
gone = returned half (handle sample_env 9 handle_closed half)

abbrev finish : System
finish = record {
  chirp = c4irp.Chirp.close_cb gone.chirp;
  links = record { env = sample_env; conn = gone.conn; trace = gone.trace; down = 3 } ∷ [];
  closed = 1;
}

finish-Run : Run 9 start finish
unfolding gone
finish-Run =
    next
      (next
        (next
          (next (next here (happened [] [] only shutdown_wanted asked refl refl refl)) (
            happened [] [] (link_after only 0 asked) (shutdown_done (pos 0)) went_down refl refl
              refl))
          (happened [] [] (link_after (link_after only 0 asked) 1 went_down) handle_closed half refl
            refl refl))
        (happened [] [] (link_after (link_after (link_after only 0 asked) 1 went_down) 1 half)
          handle_closed gone refl refl refl))
      own_closed

semaphore_exact_example :
    (finish.chirp.closing_tasks ≡ pos (1 + all_owed finish.links - down finish))
    × (check_closing finish.chirp ≡ done (down finish == 1 + all_owed finish.links))
unfolding gone all_owed all_down shutdowns tally
semaphore_exact_example = semaphore_exact 9 1 1 start finish refl refl refl finish-Run (omega arith)

-- Nothing is due any more.
finish_down : down finish ≡ 1 + all_owed finish.links
unfolding gone all_owed all_down shutdowns tally
finish_down = refl
