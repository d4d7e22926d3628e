-- ===== src/Chirp/Tests.antt =====
-- A chirp object that closes with one connection, and two objects that get a signal.
use c4irp.Prelude.{ℕ, ◌+◌, List, arith, ◌≡◌, ◌≢◌, refl, true, false, [], ◌∷◌, some}
use c4irp.Prelude.Outcome.{done}
use c4irp.Prelude.Int.{ℤ, pos, ◌+ℤ◌}
use c4irp.Types.{success, in_progress, fatal}
use c4irp.World.{Connection, Chirp, Call}
use c4irp.Chirp.{Instance, Process, Visits, stop, close_async_cb, close_ts, closing_down}
use c4irp.Connection.Shutdown.Returns.{Unfinished}
use c4irp.Connection.Callbacks.{owed}
use c4irp.Chirp.Stop.{Visited, AreThere, is_visited, stop-Visited, stop_returns}
use c4irp.Chirp.Stop.Begins.{close_async_cb-owed}
use c4irp.Chirp.Once.{IsOpen, close_ts_twice, closing_down_ends, is_member}
use c4irp.Samples.{sample_env, sample_connection, sample_chirp}

abbrev closing_chirp : Chirp
closing_chirp = record sample_chirp { closing = true }

-- Two encrypted connections in their handshake, of which an iterator gives the first only.
abbrev greeting : Connection
greeting = record sample_connection {
  flags = record (sample_connection.flags) { encrypted = true; tls_handshake = true };
}

abbrev first_only : Visits
first_only = record { in_use = 0 ∷ []; set_aside = [] }

abbrev two_greeting : List Connection
two_greeting = greeting ∷ greeting ∷ []

sample-Unfinished : Unfinished sample_env
sample-Unfinished = record { not_yet = λ t. refl }

first_there : AreThere (0 ∷ []) two_greeting
unfolding is_visited
first_there = record { in_range = λ i h. ground (arith, h) }

none_there : AreThere [] []
unfolding is_visited
none_there = record { in_range = λ i h. ground (arith, h) }

stop_returns_example :
    (r : (List Connection × List Connection) × Chirp × List Call) × (stop sample_env 9 first_only
        two_greeting [] closing_chirp []
      ≡ done r)
    × Visited (0 ∷ []) two_greeting r.0.0
    × Visited [] [] r.0.1
stop_returns_example =
    stop_returns sample_env 9 first_only two_greeting [] closing_chirp [] refl sample-Unfinished
      first_there none_there

abbrev stopped : (List Connection × List Connection) × Chirp × List Call
stopped = stop_returns_example.0

stop-Visited_example :
    Visited (0 ∷ []) two_greeting stopped.0.0
    × Visited [] [] stopped.0.1
    × (stopped.1.closing_tasks +ℤ owed sample_env []
        ≡ closing_chirp.closing_tasks +ℤ (owed sample_env stopped.2 + 2))
stop-Visited_example =
    stop-Visited sample_env 9 first_only two_greeting [] closing_chirp [] stopped refl
      stop_returns_example.1

abbrev begun : (List Connection × List Connection) × Chirp × List Call
begun = (stopped.0, record (stopped.1) { closing_tasks = stopped.1.closing_tasks +ℤ 1 }, stopped.2)

begun_lem : close_async_cb sample_env 9 first_only two_greeting [] closing_chirp [] ≡ done begun
unfolding close_async_cb
begun_lem = rw stop_returns_example.1 refl

close_async_cb-owed_example : begun.1.closing_tasks ≡ pos (owed sample_env begun.2 + 3)
close_async_cb-owed_example =
    close_async_cb-owed sample_env 9 first_only two_greeting [] closing_chirp begun refl refl refl
      begun_lem

abbrev open_instance : Instance
open_instance = record { self = 5; initialized = true; internal = some sample_chirp }

open_instance-IsOpen : IsOpen open_instance sample_chirp
open_instance-IsOpen = record {
  has_magic = refl;
  has_data = refl;
  not_closed = refl;
  not_closing = refl;
}

close_ts_twice_example :
    (close_ts (pos 0) open_instance
      ≡ (record open_instance { internal = some closing_chirp }, success))
    × (close_ts (pos 0) (close_ts (pos 0) open_instance).0
        ≡ ((close_ts (pos 0) open_instance).0, in_progress))
close_ts_twice_example =
    close_ts_twice open_instance sample_chirp open_instance-IsOpen (pos 0) (pos 0)

abbrev two_running : Process
two_running = record { instances = 5 ∷ 6 ∷ []; ref_count = pos 2; stopped = [] }

closing_down_ends_example :
    (r : Instance × Process) × (closing_down open_instance two_running ≡ done r)
    × ((sent : ℤ) → close_ts sent r.0 ≡ (r.0, fatal))
    × (is_member 5 r.1.instances ≡ false)
    × ((c : ℕ) → c ≢ 5 → is_member c r.1.instances ≡ is_member c two_running.instances)
    × (r.1.ref_count ≡ pos 1)
closing_down_ends_example = closing_down_ends open_instance sample_chirp two_running refl refl
