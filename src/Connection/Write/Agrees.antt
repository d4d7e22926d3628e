-- ===== src/Connection/Write/Agrees.antt =====
-- The write path calls ch_cn_shutdown only on a connection, and leaves the flag of a shutdown alone:
-- two versions of ch_cn_shutdown that agree while shutting down make no difference to it then.
use c4irp.Prelude.{ℕ, zero, suc, List, Option, none, some}
use c4irp.Types.{ErrorCode}
use c4irp.World.{Env, Callback}
use c4irp.World.Monad.{M}
use c4irp.World.Agree.{Agree, agree}
use c4irp.Connection.Write.{
  Progress, encrypt, send_encrypted, finish, partial_write, write_encrypted, write,
}

module _ (env : Env) (f g : M ErrorCode) (h : Agree f g) where
  encrypt-Agree : (fuel : ℕ) (p : Progress) → Agree (encrypt env f fuel p) (encrypt env g fuel p)
  unfolding encrypt
  encrypt-Agree zero p = search agree
  encrypt-Agree (suc fuel) p = search (agree, encrypt-Agree fuel) depth 9

  send_encrypted-Agree : (p : Progress) → Agree (send_encrypted env f p) (send_encrypted env g p)
  unfolding send_encrypted
  send_encrypted-Agree p = search agree depth 9

  finish-Agree : (p : Option Progress) → Agree (finish env f p) (finish env g p)
  unfolding finish
  finish-Agree none = search agree
  finish-Agree (some p) = send_encrypted-Agree p

  pub partial_write-Agree : (fuel : ℕ) → Agree (partial_write env f fuel) (partial_write env g fuel)
  unfolding partial_write
  partial_write-Agree fuel = search (agree, encrypt-Agree, finish-Agree) depth 9

  write_encrypted-Agree :
      (fuel : ℕ) (buf : List ℕ) (callback : Option Callback)
      → Agree (write_encrypted env f fuel buf callback) (write_encrypted env g fuel buf callback)
  unfolding write_encrypted
  write_encrypted-Agree fuel buf callback = search (agree, partial_write-Agree) depth 9

  pub write-Agree :
      (fuel : ℕ) (buf : List ℕ) (callback : Option Callback)
      → Agree (write env f fuel buf callback) (write env g fuel buf callback)
  unfolding write
  write-Agree fuel buf callback = search (agree, write_encrypted-Agree) depth 9
