-- ===== src/Connection/InFlight.antt =====
-- src/connection.c, src/protocol.c, src/reader.c, src/writer.c: the one write request of an
-- encrypted connection and its buffer `buffer_wtls`, which libuv reads from until the request is
-- done.
--
-- `started` counts the requests that the code has handed to libuv; the events of libuv bring a count
-- of those that are done.
pub mod Rules
use c4irp.Prelude.{
  ℕ, suc, ◌+◌, ◌≤◌, ◌≡◌, refl, ◌&&◌, Bool, true, false, not, List, [], ◌∷◌, leb, if◌then◌else◌,
  arith,
}
use c4irp.World.{State, Connection, Call, bio_read, uv_write}

abbrev is_write : Call → Bool
is_write (uv_write bs cb) = true
is_write _ = false

abbrev is_overwrite : Call → Bool
is_overwrite (bio_read at n) = true
is_overwrite _ = false

-- A call that has nothing to do with the request.
abbrev pub is_apart : Call → Bool
is_apart c = not (is_write c) && not (is_overwrite c)

unfoldable pub started : List Call → ℕ
started [] = 0
started (c ∷ t) = if is_write c then suc (started t) else started t

-- Whenever the buffer was overwritten, no more than `n` requests had been started.
unfoldable pub is_quiet : ℕ → List Call → Bool
unfolding started
is_quiet n [] = true
is_quiet n (c ∷ t) = (if is_overwrite c then leb (started t) n else true) && is_quiet n t

-- How many requests may be under way.
abbrev pub allowed : Connection → ℕ
allowed c = if c.flags.write_pending then 1 else 0

-- With `n` requests done: one more may be under way, and then the flag says so.
pub record AtMostOne (n : ℕ) (s : State) : Type 0 where
  pub tls : s.conn.flags.encrypted ≡ true
  pub lower : n ≤ started s.trace
  pub upper : started s.trace ≤ n + allowed s.conn
  pub overwrites : is_quiet n s.trace ≡ true

-- None is under way.
pub record Free (n : ℕ) (s : State) : Type 0 where
  pub tls : s.conn.flags.encrypted ≡ true
  pub exact : started s.trace ≡ n
  pub overwrites : is_quiet n s.trace ≡ true

-- None is under way, and the flag keeps everyone else from starting one.
pub record Held (n : ℕ) (s : State) : Type 0 where
  pub tls : s.conn.flags.encrypted ≡ true
  pub pending : s.conn.flags.write_pending ≡ true
  pub exact : started s.trace ≡ n
  pub overwrites : is_quiet n s.trace ≡ true

started-apart : (c : Call) (t : List Call) → is_apart c ≡ true → started (c ∷ t) ≡ started t
unfolding started
started-apart c t h = ground arith

is_quiet-apart :
    (n : ℕ) (c : Call) (t : List Call) → is_apart c ≡ true → is_quiet n (c ∷ t) ≡ is_quiet n t
unfolding is_quiet
is_quiet-apart n c t h = ground arith

is_quiet-suc : (n : ℕ) (t : List Call) → is_quiet n t ≡ true → is_quiet (suc n) t ≡ true
unfolding is_quiet
is_quiet-suc n [] h = refl
is_quiet-suc n (c ∷ t) h = ground (arith, is_quiet-suc n t)
