-- ===== src/Chirp/System.antt =====
-- A closing chirp object with all of its connections, encrypted ones too: the closing semaphore over
-- their events, interleaved in any order (src/chirp.c, src/connection.c, src/protocol.c).
pub mod Balance
pub mod Tests
use c4irp.Prelude.{
  ℕ, suc, ◌+◌, ◌-◌, ◌*◌, ◌≤◌, ◌≡◌, refl, ap, sym, ◌∙◌, Bool, true, false, List, [], ◌∷◌, ◌++◌, ◌==◌,
  arith,
}
use c4irp.Prelude.Int.{ℤ, pos, negsuc, ◌+ℤ◌, ◌-ℤ◌}
use c4irp.Prelude.Outcome.{Outcome, done}
use mathlib.Core.Path.{subst}
use c4irp.World.{Env, State, Connection, Chirp, Call}
use c4irp.World.Keeps.{Ends}
use c4irp.Connection.Callbacks.{shutdowns, owed, Counts}
use c4irp.Connection.Callbacks.Rules.{plus_plus, move_down}
use c4irp.Protocol.Events.{Completion, Event, complete, handle}
use c4irp.Protocol.Callbacks.{
  calls_back, times_out, is_inside, lowered, lowered_eq, complete-Keeps, handle-Ends,
}
use c4irp.Chirp.{check_closing}

-- A connection with what the outside answers it, the calls made on it, and by how much its callbacks
-- have lowered the semaphore: by one each, and by two for a timeout.
pub record Link : Type 0 where
  pub env : Env
  pub conn : Connection
  pub trace : List Call
  pub down : ℕ

-- What is owed for all connections, and by how much the semaphore was lowered for them.
unfoldable pub all_owed : List Link → ℕ
all_owed [] = 0
all_owed (k ∷ ks) = owed k.env k.trace + all_owed ks

unfoldable pub all_down : List Link → ℕ
all_down [] = 0
all_down (k ∷ ks) = k.down + all_down ks

-- A chirp object, its connections, and how many of its own handles, the servers and the one that
-- closes it, have called back.
pub record System : Type 0 where
  pub chirp : Chirp
  pub links : List Link
  pub closed : ℕ

abbrev pub state_of : System → Link → State
state_of y k = record { conn = k.conn; chirp = y.chirp; trace = k.trace }

-- The link and the system after something has happened on a connection.
abbrev pub link_after : Link → ℕ → State → Link
link_after k n s = record { env = k.env; conn = s.conn; trace = s.trace; down = n + k.down }

abbrev pub system_after : System → List Link → State → System
system_after y ks s = record { chirp = s.chirp; links = ks; closed = y.closed }

module _ (fuel : ℕ) where
  pub data Step (y : System) : System → Type 0 where
    completed :
        (before after : List Link) (k : Link) (e : Completion) (s : State)
        → y.links ≡ before ++ k ∷ after
        → complete k.env fuel e (state_of y k) ≡ done (tt, s)
        → Step y (system_after y (before ++ link_after k 0 s ∷ after) s)
    happened :
        (before after : List Link) (k : Link) (e : Event) (s : State)
        → y.links ≡ before ++ k ∷ after
        → is_inside e ≡ true
        → handle k.env fuel e (state_of y k) ≡ done (tt, s)
        → Step y
            (system_after y (before ++ link_after k (calls_back e + 2 * times_out e) s ∷ after) s)
    own_closed : Step y (record y { chirp = c4irp.Chirp.close_cb y.chirp; closed = suc y.closed })

  pub data Run (y : System) : System → Type 0 where
    here : Run y y
    next : {z w : System} → Run y z → Step z w → Run y w
