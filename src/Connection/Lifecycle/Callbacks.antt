-- ===== src/Connection/Lifecycle/Callbacks.antt =====
-- The closing semaphore: ch_cn_close_cb takes off the callback of a closed handle.
use c4irp.Prelude.{ℕ, suc, ◌≡◌, refl, true, not, Option, none, some}
use c4irp.Prelude.Int.{ℤ, is_neg, is_pos, ◌-ℤ◌}
use c4irp.World.{Env, State, Connection}
use c4irp.World.Monad.{M, ◌>>=◌, ◌>>◌, set_conn, get_conn, assert, when}
use c4irp.World.Keeps.{Ends, Keeps}
use c4irp.Connection.Callbacks.{Counts}
use c4irp.Connection.Callbacks.Rules.{counts}
use c4irp.Connection.Shutdown.Callbacks.{less_one, less_one-Counts}
use c4irp.Connection.Lifecycle.{
  free_buffers, free_all, allocate, allocate_once, read_alloc_cb, close_cb,
}

rest : M (Unit {0})
rest = do
  set_conn (λ c. record c { shutdown_tasks = c.shutdown_tasks -ℤ 1 })
  c ← get_conn
  assert (not (is_neg c.shutdown_tasks))
  when (not (is_pos c.shutdown_tasks)) free_all

module _ {env : Env} {base : ℤ} {x : ℕ} where
  free_buffers-Keeps : (c : Connection) → Keeps (Counts env base x) (free_buffers c)
  unfolding free_buffers
  free_buffers-Keeps c = search counts depth 9

  free_all-Keeps : Keeps (Counts env base x) free_all
  unfolding free_all
  free_all-Keeps = search (counts, free_buffers-Keeps) depth 15

  rest-Keeps : Keeps (Counts env base x) rest
  unfolding rest
  rest-Keeps = search (counts, free_all-Keeps) depth 12

  allocate-Keeps : (size : ℕ) → Keeps (Counts env base x) (allocate size)
  unfolding allocate
  allocate-Keeps size = search counts depth 15

  allocate_once-Keeps : (o : Option ℕ) (size : ℕ) → Keeps (Counts env base x) (allocate_once o size)
  unfolding allocate_once
  allocate_once-Keeps none size = allocate-Keeps size
  allocate_once-Keeps (some k) size = search counts

  pub read_alloc_cb-Keeps : (size : ℕ) → Keeps (Counts env base x) (read_alloc_cb size)
  unfolding read_alloc_cb
  read_alloc_cb-Keeps size = search (counts, allocate_once-Keeps) depth 12

closed_first : (s : State) → s.chirp.closing ≡ true → close_cb s ≡ rest (less_one s)
unfolding close_cb rest
closed_first s closing = rw closing refl

pub close_cb-Ends :
    {env : Env} {base : ℤ} {x : ℕ} (s : State)
    → Counts env base x s
    → Ends (λ _. Counts env base (suc x)) (close_cb s)
close_cb-Ends s p =
    rw (closed_first s p.is_closing) (rest-Keeps.run (less_one s) (less_one-Counts s p))
