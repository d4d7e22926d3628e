-- ===== src/Chirp.antt =====
-- src/chirp.c and the parts of src/protocol.c that it calls: how a chirp object is closed.
--
-- An object is its address, its `_init` and what its field `_` points to. The tree of the running
-- objects (_ch_chirp_instances) is the list of their addresses, in sglib's order.
pub mod Tests
pub mod Stop
pub mod Once
pub mod Init
pub mod Run
pub mod Send
pub mod Access
pub mod System
use c4irp.Prelude.{
  ℕ, Bool, true, not, ◌&&◌, List, [], ◌∷◌, Option, none, some, ◌==◌, if◌then◌else◌, get_elem?, set,
}
use c4irp.Prelude.Outcome.{Outcome, done, deref, assert, ◌>>=◌, ◌>>◌}
use c4irp.Prelude.Int.{ℤ, is_neg, is_pos, ◌+ℤ◌, ◌-ℤ◌}
use c4irp.Types.{ErrorCode, success, fatal, uninit, in_progress, uv_error}
use c4irp.World.{Env, Connection, Chirp, Call}
use c4irp.Connection.Shutdown.{shutdown}

-- ch_chirp_t; `initialized` tells whether `_init` is CH_CHIRP_MAGIC.
pub record Instance : Type 0 where
  pub self : ℕ
  pub initialized : Bool
  pub internal : Option Chirp

-- The part of ch_chirp_close_ts behind the test of `_init`; `sent` is what uv_async_send returns.
close_internal : ℤ → Instance → Option Chirp → Instance × ErrorCode
close_internal sent chirp none = (chirp, fatal)
close_internal sent chirp (some i) =
    if i.closed then (chirp, fatal) else if i.closing then (chirp, in_progress) else (
      record chirp { internal = some (record i { closing = true }) },
      if is_neg sent then uv_error else success,
    )

-- ch_chirp_close_ts on a pointer that is not NULL; NULL is refused like an object without `_init`.
unfoldable pub close_ts : ℤ → Instance → Instance × ErrorCode
unfolding close_internal
close_ts sent chirp =
    if chirp.initialized then close_internal sent chirp chirp.internal else (chirp, uninit)

-- SIGINT and SIGTERM
abbrev pub sigint : ℕ
sigint = 2

abbrev pub sigterm : ℕ
sigterm = 15

-- The loop of _ch_chirp_sig_handler; `sent` is what uv_async_send returns for each object.
unfoldable pub close_marked : (ℕ → ℤ) → List Instance → Outcome (List Instance)
close_marked sent [] = done []
close_marked sent (t ∷ ts) = do
  i ← deref t.internal
  rest ← close_marked sent ts
  done ((if i.config.close_on_sigint == 0 then t else (close_ts (sent t.self) t).0) ∷ rest)

-- _ch_chirp_sig_handler
unfoldable pub sig_handler : (ℕ → ℤ) → ℕ → List Instance → Outcome (List Instance)
unfolding close_marked
sig_handler sent signo ts =
    if not (signo == sigint) && not (signo == sigterm) then done ts else close_marked sent ts

-- ch_chirp_set_auto_stop
unfoldable pub set_auto_stop : Instance → Outcome Instance
set_auto_stop chirp = do
  assert chirp.initialized
  i ← deref chirp.internal
  done (record chirp { internal = some (record i { auto_stop = true }) })

-- ch_chirp_close_cb
unfoldable pub close_cb : Chirp → Chirp
close_cb i = record i { closing_tasks = i.closing_tasks -ℤ 1 }

-- _ch_chirp_check_closing_cb: whether the check is stopped and its handle closed.
unfoldable pub check_closing : Chirp → Outcome Bool
check_closing i = do assert (not (is_neg i.closing_tasks)); done (not (is_pos i.closing_tasks))

-- What the process shares: the tree of objects, _ch_chirp_ref_count, and the objects whose loop
-- was stopped.
pub record Process : Type 0 where
  pub instances : List ℕ
  pub ref_count : ℤ
  pub stopped : List ℕ

unfoldable pub delete : ℕ → List ℕ → List ℕ
delete a [] = []
delete a (b ∷ bs) = let rest = delete a bs in if a == b then rest else b ∷ rest

-- _ch_chirp_closing_down_cb. An object that is not in the tree is only logged.
unfoldable pub closing_down : Instance → Process → Outcome (Instance × Process)
unfolding delete
closing_down chirp p = do
  i ← deref chirp.internal
  done (
    record chirp { internal = none },
    record {
      instances = delete chirp.self p.instances;
      ref_count = p.ref_count -ℤ 1;
      stopped = if i.auto_stop then chirp.self ∷ p.stopped else p.stopped;
    },
  )

-- What the iterators of sglib give to the two loops of _ch_pr_close_free_connections, as positions:
-- the connections in use and the old ones. ch_cn_shutdown deletes from the tree that the first of
-- them walks, so they need not give every connection, nor each of them once.
pub record Visits : Type 0 where
  pub in_use : List ℕ
  pub set_aside : List ℕ

-- A loop of _ch_pr_close_free_connections: ch_cn_shutdown on each connection that the iterator
-- gives.
unfoldable pub close_connections :
    Env
    → ℕ
    → List ℕ
    → List Connection
    → Chirp
    → List Call
    → Outcome (List Connection × Chirp × List Call)
close_connections env fuel [] cs chirp trace = done (cs, chirp, trace)
close_connections env fuel (i ∷ is) cs chirp trace = do
  t ← deref (get_elem? cs i)
  r ← shutdown env fuel 2 (record { conn = t; chirp = chirp; trace = trace })
  close_connections env fuel is (set cs i r.1.conn) r.1.chirp r.1.trace

-- ch_pr_stop, on the connections in use and the old ones; the two servers are closed too.
unfoldable pub stop :
    Env
    → ℕ
    → Visits
    → List Connection
    → List Connection
    → Chirp
    → List Call
    → Outcome ((List Connection × List Connection) × Chirp × List Call)
unfolding close_connections
stop env fuel visits connections old chirp trace = do
  r ← close_connections env fuel visits.in_use connections chirp trace
  q ← close_connections env fuel visits.set_aside old r.1 r.2
  done ((r.0, q.0), record (q.1) { closing_tasks = q.1.closing_tasks +ℤ 2 }, q.2)

-- _ch_chirp_close_async_cb on an object whose field `_` is set, which is then closing: nothing
-- happens on a closed one.
unfoldable pub close_async_cb :
    Env
    → ℕ
    → Visits
    → List Connection
    → List Connection
    → Chirp
    → List Call
    → Outcome ((List Connection × List Connection) × Chirp × List Call)
close_async_cb env fuel visits connections old chirp trace =
    if chirp.closed
    then done ((connections, old), chirp, trace)
    else (stop env fuel visits connections old chirp trace >>= λ r.
        done (r.0, record (r.1) { closing_tasks = r.1.closing_tasks +ℤ 1 }, r.2))
