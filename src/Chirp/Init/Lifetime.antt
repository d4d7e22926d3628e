-- ===== src/Chirp/Init/Lifetime.antt =====
-- ch_chirp_init and the end of the object: what an object that is closed leaves, and what a failed
-- start leaves in the loop.
use c4irp.Prelude.{ℕ, Bool, true, false, ◌≡◌, refl, ap, ◌∙◌, List, [], ◌∷◌, some, length, arith}
use c4irp.Prelude.Int.{ℤ, pos, negsuc, is_neg, ◌+ℤ◌, ◌-ℤ◌}
use c4irp.Prelude.Outcome.{done}
use c4irp.Types.{success, is_success}
use c4irp.Config.{Config, verify_cfg}
use c4irp.World.{Chirp}
use c4irp.Chirp.{Instance, Process, closing_down, delete}
use c4irp.Chirp.Once.{is_member}
use c4irp.Protocol.Start
use c4irp.Protocol.Start.{server_v4, server_v6}
use c4irp.Protocol.Start.Serves.{Serves, start-success, start_listens}
use c4irp.Encryption
use c4irp.Chirp.Init.{
  Answers, Node, give_up, register, start_encryption, start_protocol, start_async, loaded,
  after_check, init,
}
use c4irp.Chirp.Init.Outcomes.{Works, after_check-accepted}

-- An accepted configuration comes to uv_async_init.
accepted_goes_on :
    (a : Answers) (config : Config) (has_log : Bool) (n : Node)
    → length config.identity ≡ 16
    → verify_cfg a.access has_log config ≡ done success
    → (identity : List ℕ) × (init a config has_log n
        ≡ done (start_async a (loaded config identity n)))
unfolding init
accepted_goes_on a config has_log n size accepted =
    let (identity, at) = after_check-accepted a config n size in
    let checked : init a config has_log n ≡ after_check a config n success = rw accepted refl in
    (identity, checked ∙ at)

-- What ch_chirp_init makes of the object where the encryption does not start.
dangling : Answers → Node → Node
dangling a n = give_up (record n {
  in_loop = true;
  protocol = (Start.start a.codes a.v4 a.v6 Start.init).0;
  library = (Encryption.start a.tls n.library).0;
})

start_async-dangling :
    (a : Answers) (n : Node)
    → is_neg a.async_init ≡ false
    → is_success (Start.start a.codes a.v4 a.v6 Start.init).1 ≡ true
    → is_success (Encryption.start a.tls n.library).1 ≡ false
    → start_async a n ≡ (dangling a n, (Encryption.start a.tls n.library).1)
unfolding start_async start_protocol start_encryption dangling
start_async-dangling a n async servers tls = rw (async, servers, tls) refl

-- What it makes of the object where everything works.
running : Answers → Node → Node
unfolding register
running a n = register a (record n {
  in_loop = true;
  protocol = (Start.start a.codes a.v4 a.v6 Start.init).0;
  library = (Encryption.start a.tls n.library).0;
})

start_async-running :
    (a : Answers) (n : Node)
    → is_neg a.async_init ≡ false
    → is_success (Start.start a.codes a.v4 a.v6 Start.init).1 ≡ true
    → is_success (Encryption.start a.tls n.library).1 ≡ true
    → start_async a n ≡ (running a n, success)
unfolding start_async start_protocol start_encryption running
start_async-running a n async servers tls = rw (async, servers, tls) refl

add_sub : (k : ℤ) (n : ℕ) → k +ℤ n -ℤ n ≡ k
add_sub (pos m) n = ground arith
add_sub (negsuc m) n = ground arith

delete_absent : (x : ℕ) (xs : List ℕ) → is_member x xs ≡ false → delete x xs ≡ xs
unfolding delete
delete_absent x [] h = refl
delete_absent x (y ∷ ys) h = ground (arith, h, delete_absent x ys)

delete_head : (x : ℕ) (xs : List ℕ) → is_member x xs ≡ false → delete x (x ∷ xs) ≡ xs
unfolding delete
delete_head x xs h = ground (arith, delete_absent x xs h)

module _ (a : Answers) (config : Config) (has_log : Bool) (n : Node)
    (size : length config.identity ≡ 16)
    (accepted : verify_cfg a.access has_log config ≡ done success) where
  -- For an accepted configuration with 16 bytes of identity, where uv_async_init and every call for
  -- the two servers succeed and the encryption does not start, ch_chirp_init returns its error and has
  -- freed the memory block of the object, while the handle `close` and the two servers that stand in
  -- the block belong to the loop and the servers listen.
  pub init_dangling :
      is_neg a.async_init ≡ false
      → Serves a.codes a.v4
      → Serves a.codes a.v6
      → is_success (Encryption.start a.tls n.library).1 ≡ false
      → (m : Node) × (init a config has_log n ≡ done (m, (Encryption.start a.tls n.library).1))
        × (m.freed ≡ true)
        × (m.in_loop ≡ true)
        × (m.protocol.listening ≡ server_v6 ∷ server_v4 ∷ [])
  unfolding dangling
  init_dangling async v4 v6 tls =
      let (identity, at) = accepted_goes_on a config has_log n size accepted in
      let servers = (start-success a.codes a.v4 a.v6).1 (v4, v6) in
      (
        dangling a (loaded config identity n),
        at ∙ ap done (start_async-dangling a (loaded config identity n) async servers tls),
        refl,
        refl,
        start_listens a.codes a.v4 a.v6 v4 v6,
      )

  -- For an accepted configuration with 16 bytes of identity, where everything that ch_chirp_init
  -- calls succeeds and the object is not in the tree of objects yet: after ch_chirp_init the object is
  -- in the tree, and _ch_chirp_closing_down_cb then brings back the tree and the reference count that
  -- were there before.
  pub init-closing_down :
      Works a n
      → is_member n.chirp.self n.process.instances ≡ false
      → (m : Node) × (init a config has_log n ≡ done (m, success))
        × (is_member n.chirp.self m.process.instances ≡ true)
        × ((r : Instance × Process) × (closing_down m.chirp m.process ≡ done r)
            × (r.1.instances ≡ n.process.instances)
            × (r.1.ref_count ≡ n.process.ref_count))
  unfolding running register closing_down
  init-closing_down w absent =
      let (identity, at) = accepted_goes_on a config has_log n size accepted in
      let servers = (start-success a.codes a.v4 a.v6).1 (w.v4_ok, w.v6_ok) in
      let self = n.chirp.self in
      (
        running a (loaded config identity n),
        at ∙ ap done (start_async-running a (loaded config identity n) w.async_ok servers w.tls_ok),
        ground arith,
        (_, refl, delete_head self n.process.instances absent, add_sub n.process.ref_count 1),
      )

  -- The object is initialized then, with its data.
  pub init-running :
      Works a n
      → (m : Node) × (init a config has_log n ≡ done (m, success))
        × (m.chirp.initialized ≡ true)
        × ((i : Chirp) × (m.chirp.internal ≡ some i))
  unfolding running register
  init-running w =
      let (identity, at) = accepted_goes_on a config has_log n size accepted in
      let servers = (start-success a.codes a.v4 a.v6).1 (w.v4_ok, w.v6_ok) in
      (
        running a (loaded config identity n),
        at ∙ ap done (start_async-running a (loaded config identity n) w.async_ok servers w.tls_ok),
        refl,
        (_, refl),
      )
