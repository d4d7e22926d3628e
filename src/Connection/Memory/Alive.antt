-- ===== src/Connection/Memory/Alive.antt =====
-- What holds of a connection from its acceptance on, as long as libuv may call for it.
use c4irp.Prelude.{ℕ, ◌≡◌, refl, ap, true, List}
use c4irp.Prelude.Outcome.{Outcome, done, aborted, undefined, blocked, unfinished}
use c4irp.World.{State, Call}
use c4irp.World.Monad.{M}
use c4irp.World.Keeps.{Ends, Keeps}
use c4irp.Connection.Memory.{Owned, owned, life, all_fit, Steady}
use c4irp.Connection.Memory.Owns.{Owns}

-- It owns what it should with `n` of the handles' callbacks done, and no call wrote past a buffer.
pub record Alive (n : ℕ) (s : State) : Type 0 where
  pub owns : Owns n (owned s.conn) (life s.trace)
  pub room : all_fit s.conn.buffer_size s.trace ≡ true

pub steady_now : {n : ℕ} (s : State) → Alive n s → Steady (owned s.conn) (life s.trace) s
steady_now s a = record { same = refl; lived = refl; room = a.room }

module _ {n : ℕ} {v : Owned} {l : List Call} (o : Owns n v l) where
  pub settled : (s : State) → Steady v l s → Alive n s
  settled s p = record {
    owns = rw (p.same, p.lived) o;
    room = rw (ap (λ (w : Owned). w.size) p.same) p.room;
  }

  pub settled_Ends :
      {A : Type 0} (r : Outcome (A × State)) → Ends (λ _. Steady v l) r → Ends (λ _. Alive n) r
  settled_Ends (done r) h = settled r.1 h
  settled_Ends aborted h = tt
  settled_Ends undefined h = tt
  settled_Ends blocked h = tt
  settled_Ends unfinished h = tt

-- A program that leaves alone what is owned keeps a connection alive.
pub left_alone :
    {A : Type 0} {n : ℕ} (m : M A) (s : State)
    → Keeps (Steady (owned s.conn) (life s.trace)) m
    → Alive n s
    → Ends (λ _. Alive n) (m s)
left_alone m s h a = settled_Ends a.owns (m s) (h.run s (steady_now s a))
