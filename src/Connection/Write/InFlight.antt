-- ===== src/Connection/Write/InFlight.antt =====
-- ch_cn_write and _ch_cn_partial_write keep at most one request under way: they take the flag
-- first.
use c4irp.Prelude.{
  ℕ, zero, suc, Bool, true, false, ◌≡◌, ◌==◌, if◌then◌else◌, List, Option, none, some, arith,
}
use c4irp.Types.{ErrorCode}
use c4irp.World.{Env, State, Callback}
use c4irp.World.Monad.{M, ◌>>◌, assert}
use c4irp.World.Keeps.{Ends, Moves, Keeps, Moves-bind, Moves-Keeps}
use c4irp.Connection.InFlight.{AtMostOne, Held}
use c4irp.Connection.InFlight.Rules.{in_flight, check_flags, take_flag}
use c4irp.Connection.Write.{
  Progress, encrypt, send_encrypted, finish, partial_write, write_encrypted, write,
}

-- After the loop the request can start, unless it returned early.
abbrev After : ℕ → Option Progress → State → Type 0
After n none = AtMostOne n
After n (some p) = Held n

module _ {n : ℕ} (env : Env) (shutdown : M ErrorCode) (h : Keeps (AtMostOne n) shutdown) where
  encrypt-Moves : (fuel : ℕ) (p : Progress) → Moves (Held n) (encrypt env shutdown fuel p) (After n)
  unfolding encrypt
  encrypt-Moves zero p = search in_flight
  encrypt-Moves (suc fuel) p = search (in_flight, encrypt-Moves fuel) depth 12

  finish-Moves :
      (o : Option Progress) → Moves (After n o) (finish env shutdown o) (λ _. AtMostOne n)
  unfolding finish send_encrypted
  finish-Moves none = search in_flight
  finish-Moves (some p) = search in_flight depth 12

  pub partial_write-Keeps : (fuel : ℕ) → Keeps (AtMostOne n) (partial_write env shutdown fuel)
  unfolding partial_write
  partial_write-Keeps fuel =
      Moves-Keeps (check_flags (take_flag (Moves-bind (encrypt-Moves fuel _) finish-Moves)))

  write_encrypted-Keeps :
      (fuel : ℕ) (buf : List ℕ) (callback : Option Callback)
      → Keeps (AtMostOne n) (write_encrypted env shutdown fuel buf callback)
  unfolding write_encrypted
  write_encrypted-Keeps fuel buf callback = search (in_flight, partial_write-Keeps) depth 12

  -- On an encrypted connection the test whether it is encrypted holds.
  encrypted_branch :
      (m m' : M (Unit {0})) (b e : Bool) (s : State)
      → e ≡ true
      → AtMostOne n s
      → Keeps (AtMostOne n) m
      → Ends (λ _. AtMostOne n) ((assert b >> (if e then m else m')) s)
  encrypted_branch m m' true true s tls p h = h.run s p
  encrypted_branch m m' false e s tls p h = tt
  encrypted_branch m m' true false s tls p h = absurd (ground (arith, tls))

  pub write-Keeps :
      (fuel : ℕ) (buf : List ℕ) (callback : Option Callback)
      → Keeps (AtMostOne n) (write env shutdown fuel buf callback)
  unfolding write
  write-Keeps fuel buf callback = record {
    run = λ s p.
        encrypted_branch _ _ (s.conn.write_size == 0) s.conn.flags.encrypted s p.tls p
          (write_encrypted-Keeps fuel buf callback);
  }
