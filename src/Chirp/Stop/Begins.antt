-- ===== src/Chirp/Stop/Begins.antt =====
-- src/chirp.c: where _ch_chirp_close_async_cb leaves the closing semaphore, before any callback has
-- come.
use c4irp.Prelude.{ℕ, ◌+◌, ◌≡◌, ap, sym, ◌∙◌, false, true, Bool, List, [], arith, if◌then◌else◌}
use c4irp.Prelude.Outcome.{done}
use c4irp.Prelude.Outcome.Chains.{came_past, done_injective}
use c4irp.Prelude.Int.{ℤ, pos, negsuc, ◌+ℤ◌}
use c4irp.World.{Env, Connection, Chirp, Call}
use c4irp.Connection.Memory.{tally}
use c4irp.Connection.Callbacks.{shutdowns, owed}
use c4irp.Chirp.{Visits, close_async_cb}
use c4irp.Chirp.Stop.{stop-Visited}

otherwise : {A : Type 0} (b : Bool) (m n : A) → b ≡ false → (if b then m else n) ≡ n
otherwise b m n h = ground (arith, h)

add_none : (z : ℤ) → z +ℤ 0 ≡ z
add_none (pos n) = ground arith
add_none (negsuc n) = ground arith

from_zero : (n : ℕ) → pos 0 +ℤ (n + 2) +ℤ 1 ≡ pos (n + 3)
from_zero n = ground arith

-- On a chirp object that is closing and not closed, with a closing semaphore of 0, whatever
-- connections it has and whatever sglib's iterators, libuv and OpenSSL give: if
-- _ch_chirp_close_async_cb returns, the semaphore is the number of callbacks that libuv has come to
-- owe for the connections since then, and three for the two servers and the async handle.
pub close_async_cb-owed :
    (env : Env) (fuel : ℕ) (visits : Visits) (connections old : List Connection) (chirp : Chirp)
    (r : (List Connection × List Connection) × Chirp × List Call)
    → chirp.closed ≡ false
    → chirp.closing ≡ true
    → chirp.closing_tasks ≡ pos 0
    → close_async_cb env fuel visits connections old chirp [] ≡ done r
    → r.1.closing_tasks ≡ pos (owed env r.2 + 3)
unfolding close_async_cb shutdowns tally
close_async_cb-owed env fuel visits connections old chirp r open_ closing none_due h =
    let ((cs, ch, t), stopped, e) = came_past _ _ r (sym (otherwise chirp.closed _ _ open_) ∙ h) in
    let (v, w, tasks) =
      stop-Visited env fuel visits connections old chirp [] (cs, ch, t) closing stopped in
    let same = done_injective _ r e in
    ap (λ (q : (List Connection × List Connection) × Chirp × List Call). q.1.closing_tasks)
      (sym same)
    ∙ ap (λ (z : ℤ). z +ℤ 1)
        (sym (add_none ch.closing_tasks) ∙ tasks ∙ ap (λ (z : ℤ). z +ℤ (owed env t + 2)) none_due)
    ∙ from_zero (owed env t)
    ∙ ap (λ (q : (List Connection × List Connection) × Chirp × List Call). pos (owed env q.2 + 3))
        same
