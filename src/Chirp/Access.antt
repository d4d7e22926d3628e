-- ===== src/Chirp/Access.antt =====
-- src/chirp.c, include/chirp_obj.h: what a user reads from a chirp object and sets in it, and the
-- check of a closing object with the end of its encryption.
use c4irp.Prelude.{ℕ, ◌≡◌, refl, ◌==◌, Bool, true, false, List, Option, if◌then◌else◌, arith}
use c4irp.Prelude.Int.{pos}
use c4irp.Prelude.Outcome.{Outcome, done, deref, assert, ◌>>=◌, ◌>>◌}
use c4irp.Types.{is_success}
use c4irp.World.{Chirp}
use c4irp.Encryption
use c4irp.Encryption.{Library}
use c4irp.Chirp.{Instance, check_closing}

-- An object with its loop and its log callback, which are named by numbers; `none` is NULL.
pub record LoopObject : Type 0 where
  pub chirp : Instance
  pub loop : ℕ
  pub log : Option ℕ

-- ch_chirp_get_identity
unfoldable pub get_identity : LoopObject → Outcome (List ℕ)
get_identity o = do assert o.chirp.initialized; i ← deref o.chirp.internal; done i.identity

-- ch_chirp_get_loop
unfoldable pub get_loop : LoopObject → Outcome ℕ
get_loop o = do assert o.chirp.initialized; i ← deref o.chirp.internal; done o.loop

-- ch_chirp_register_log_cb
unfoldable pub register_log_cb : Option ℕ → LoopObject → LoopObject
register_log_cb cb o = record o { log = cb }

-- The body of the `if` of _ch_chirp_check_closing_cb. libuv stops a prepare handle without an error.
stop_encryption : Bool → Library → Outcome (Bool × Library)
stop_encryption false library = done (false, library)
stop_encryption true library = do
  assert (is_success (Encryption.stop library).1)
  done (true, (Encryption.stop library).0)

-- _ch_chirp_check_closing_cb: whether the handle of the check is closed, and OpenSSL afterwards.
unfoldable pub check_closing_cb : Chirp → Library → Outcome (Bool × Library)
unfolding stop_encryption
check_closing_cb i library = do down ← check_closing i; stop_encryption down library

check_counts :
    (chirp : Chirp) (due : ℕ)
    → chirp.closing_tasks ≡ pos due
    → check_closing chirp ≡ done (due == 0)
unfolding check_closing
check_counts chirp due h = rw h (ground arith)

stop-success : (library : Library) → is_success (Encryption.stop library).1 ≡ true
unfolding Encryption.stop Encryption.openssl_uninit
stop-success library = ground arith

stop_either :
    (b : Bool) (library : Library)
    → stop_encryption b library
      ≡ (if b then done (true, (Encryption.stop library).0) else done (false, library))
unfolding stop_encryption
stop_either true library = rw (stop-success library) refl
stop_either false library = refl

-- While `n` callbacks are due the check returns, leaves OpenSSL alone until none is, and then drops
-- the reference of the object once.
pub check_closing_cb-due :
    (i : Chirp) (library : Library) (n : ℕ)
    → i.closing_tasks ≡ pos n
    → check_closing_cb i library
      ≡ (if n == 0 then done (true, (Encryption.stop library).0) else done (false, library))
unfolding check_closing_cb
check_closing_cb-due i library n h = rw (check_counts i n h) (stop_either (n == 0) library)
