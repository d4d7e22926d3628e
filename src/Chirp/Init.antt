-- ===== src/Chirp/Init.antt =====
-- src/chirp.c: ch_chirp_init and ch_chirp_run, with what they need of include/wrappers.h.
--
-- What the C library, libuv and OpenSSL answer is a parameter. ch_chirp_init takes a memory block for
-- a ch_chirp_int_t that does not move: `freed` tells whether it has been given back.
pub mod Outcomes
pub mod Identity
pub mod Lifetime
pub mod Tests
use c4irp.Prelude.{
  ℕ, zero, suc, ◌+◌, Bool, true, false, List, ◌∷◌, none, some, ◌==◌, if◌then◌else◌, get_elem?,
  replicate,
}
use c4irp.Prelude.Int.{ℤ, pos, is_neg, ◌+ℤ◌}
use c4irp.Prelude.Outcome.{Outcome, done, deref, ◌>>=◌, ◌>>◌}
use c4irp.Types.{ErrorCode, success, uv_error, UvCodes, is_success}
use c4irp.Util.{random_ints_as_bytes}
use c4irp.Config.{CString, Config, verify_cfg}
use c4irp.World.{Chirp}
use c4irp.Chirp.{Instance, Process}
use c4irp.Protocol.Start
use c4irp.Protocol.Start.{Protocol, ServerAnswers}
use c4irp.Encryption
use c4irp.Encryption.{Library}

-- What the calls of ch_chirp_init return; `rand i` is the i-th call of rand.
pub record Answers : Type 0 where
  pub codes : UvCodes
  pub access : CString → ℤ
  pub rand : ℕ → ℕ
  pub async_init : ℤ
  pub v4 : ServerAnswers
  pub v6 : ServerAnswers
  pub tls : Encryption.Answers
  pub sigint_set : Bool
  pub sigterm_set : Bool

-- The object and what it shares with the process: `in_loop` tells whether the handle `close` belongs
-- to the loop, and `sig_init` is _ch_chirp_sig_init.
pub record Node : Type 0 where
  pub chirp : Instance
  pub freed : Bool
  pub in_loop : Bool
  pub protocol : Protocol
  pub process : Process
  pub library : Library
  pub sig_init : Bool

-- The loop over the identity of the configuration: it stops at the first byte that is set, or at
-- the end. `n` rounds are left.
unfoldable pub first_set : List ℕ → ℕ → ℕ → ℕ
first_set bytes zero i = i
first_set bytes (suc n) i =
    let further = first_set bytes n (i + 1) in
    elim (get_elem? bytes i) [ none ↦ i | some b ↦ if b == 0 then further else i ]

-- The identity of the object.
unfoldable pub choose_identity : (ℕ → ℕ) → List ℕ → Outcome (List ℕ)
unfolding first_set
choose_identity rand configured = do
  value ← deref (get_elem? configured (first_set configured 15 0))
  if value == 0
      then random_ints_as_bytes rand 16
      else (deref (get_elem? configured 0) >>= λ first. done (first ∷ replicate 15 0))

-- A ch_chirp_int_t after memset, with the configuration.
abbrev pub fresh_chirp : Config → Chirp
fresh_chirp config = record {
  config = config;
  closing_tasks = pos 0;
  auto_stop = false;
  closed = false;
  closing = false;
  identity = replicate 16 0;
  public_port = config.port;
}

-- `chirp->_init = 0`, and ch_free of what it points to.
abbrev give_up : Node → Node
give_up n = record n { chirp = record (n.chirp) { initialized = false }; freed = true }

-- The end of ch_chirp_init. SIGTERM alone does not count.
register : Answers → Node → Node
register a n = record n {
  sig_init = if n.sig_init then true else a.sigint_set;
  process = record (n.process) {
    ref_count = n.process.ref_count +ℤ 1;
    instances = n.chirp.self ∷ n.process.instances;
  };
}

-- From ch_en_start on.
start_encryption : Answers → Node → Node × ErrorCode
unfolding register
start_encryption a n =
    let (library, e) = Encryption.start a.tls n.library in
    let m = record n { library = library } in
    if is_success e then (register a m, success) else (give_up m, e)

-- From ch_pr_init on.
start_protocol : Answers → Node → Node × ErrorCode
unfolding start_encryption
start_protocol a n =
    let (protocol, e) = Start.start a.codes a.v4 a.v6 Start.init in
    let m = record n { protocol = protocol } in
    if is_success e then start_encryption a m else (give_up m, e)

-- From uv_async_init on.
pub start_async : Answers → Node → Node × ErrorCode
unfolding start_protocol
start_async a n =
    if is_neg a.async_init
    then (give_up n, uv_error)
    else start_protocol a (record n { in_loop = true })

-- The object before _ch_chirp_verify_cfg is called, with the identity that it will have.
abbrev pub loaded : Config → List ℕ → Node → Node
loaded config identity n = record n {
  chirp = record (n.chirp) {
    initialized = true;
    internal = some (record (fresh_chirp config) { identity = identity });
  };
  freed = false;
  in_loop = false;
  protocol = Start.init;
}

-- What follows _ch_chirp_verify_cfg. A refused configuration leaves the memory block allocated.
pub after_check : Answers → Config → Node → ErrorCode → Outcome (Node × ErrorCode)
unfolding start_async choose_identity
after_check a config n e =
    if is_success e
    then (choose_identity a.rand config.identity >>= λ identity.
        done (start_async a (loaded config identity n)))
    else (let m = loaded config (replicate 16 0) n in
        done (record m { chirp = record (m.chirp) { initialized = false } }, e))

-- ch_chirp_init. `has_log` tells whether there is a log callback.
unfoldable pub init : Answers → Config → Bool → Node → Outcome (Node × ErrorCode)
unfolding after_check
init a config has_log n = do e ← verify_cfg a.access has_log config; after_check a config n e
