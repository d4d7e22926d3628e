-- ===== src/Connection/Write.antt =====
-- src/connection.c: ch_cn_write and _ch_cn_partial_write.
--
-- _ch_cn_partial_write calls ch_cn_shutdown, which may come back to it; that call is the parameter
-- `shutdown`. Its loop runs on fuel.
pub mod Agrees
pub mod Encrypts
pub mod InFlight
pub mod Wide
use c4irp.Prelude.{
  ℕ, zero, suc, ◌+◌, ◌-◌, ◌%◌, ◌^◌, Bool, true, not, ◌&&◌, List, [], ◌++◌, Option, none, some, ltb,
  leb, ◌==◌, if◌then◌else◌, length, take,
}
use c4irp.Prelude.Outcome.{unfinished}
use c4irp.Prelude.Int.{ℤ, is_neg, is_zero, to_size, pos_part}
use c4irp.Prelude.Bytes.{slice}
use c4irp.Types.{ErrorCode}
use c4irp.World.{Env, Connection, Callback, write_cb, ssl_write, bio_read, bio_pending, uv_write}
use c4irp.World.Monad.{
  M, ◌>>=◌, ◌>>◌, skip, pure, assert, deref, get_conn, set_conn, set_flags, call, ask,
}

-- The variables of the loop of _ch_cn_partial_write: `bytes_encrypted`, `bytes_read`, and what
-- stands in `buffer_wtls`.
pub record Progress : Type 0 where
  pub bytes_encrypted : ℕ  -- size_t
  pub bytes_read : ℕ  -- size_t
  pub wtls : List ℕ

-- The bytes from `write_buffer + bytes_encrypted + write_written` to the end of what is to be
-- written; beyond that end the pointer is out of range.
abbrev pub unwritten : Connection → ℕ → Option (List ℕ)
unwritten c enc =
    if leb (enc + c.write_written) c.write_size
    then some (slice (enc + c.write_written) (c.write_size - enc - c.write_written) c.write_buffer)
    else none

-- What the loop's variables are after a round.
abbrev pub advance : Progress → ℤ → ℤ × List ℕ → Progress
advance p tmp_err (read, bytes) = record {
  bytes_encrypted = p.bytes_encrypted + to_size tmp_err;
  bytes_read = (p.bytes_read + to_size read) % 2 ^ 64;
  wtls = take p.bytes_read p.wtls ++ take (pos_part read) bytes;
}

-- Both flags of a write that runs.
abbrev pub set_pending : Bool → M (Unit {0})
set_pending b = set_flags (λ f. record f { write_pending = b; buf_wtls_used = b })

module _ (env : Env) (shutdown : M ErrorCode) where
  -- The do-while loop; `none` is the early return.
  unfoldable pub encrypt : ℕ → Progress → M (Option Progress)
  encrypt zero p = λ s. unfinished
  encrypt (suc fuel) p =
      let again = encrypt fuel in
      do
        c ← get_conn
        rest ← deref (unwritten c p.bytes_encrypted)
        tmp_err ← ask env.int_of (ssl_write rest)
        if is_neg tmp_err
            then (shutdown >>= λ _. pure none)
            else (ask env.bytes_of (bio_read p.bytes_read (c.buffer_size - p.bytes_read)) >>= λ r.
                let q = advance p tmp_err r in
                if ltb (q.bytes_encrypted + c.write_written) c.write_size
                  && ltb q.bytes_read c.buffer_size
                then again q
                else pure (some q))

  -- What follows the loop.
  send_encrypted : Progress → M (Unit {0})
  send_encrypted p = do
    set_conn (λ c. record c { buffer_wtls_len = p.bytes_read })
    bytes ←
        deref (if leb p.bytes_read (length p.wtls) then some (take p.bytes_read p.wtls) else none)
    call (uv_write bytes write_cb)
    set_conn (λ c. record c { write_written = c.write_written + p.bytes_encrypted })

  finish : Option Progress → M (Unit {0})
  unfolding send_encrypted
  finish none = skip
  finish (some p) = send_encrypted p

  -- _ch_cn_partial_write
  unfoldable pub partial_write : ℕ → M (Unit {0})
  unfolding encrypt finish
  partial_write fuel = do
    c ← get_conn
    assert (not c.flags.buf_wtls_used)
    assert (not c.flags.write_pending)
    set_pending true
    p ← encrypt fuel (record { bytes_encrypted = 0; bytes_read = 0; wtls = [] })
    finish p

  write_encrypted : ℕ → List ℕ → Option Callback → M (Unit {0})
  write_encrypted fuel buf callback = do
    set_conn (λ c. record c {
      write_callback = callback;
      write_buffer = buf;
      write_size = length buf;
      write_written = 0;
    })
    pending ← ask env.int_of bio_pending
    assert (is_zero pending)
    partial_write fuel

  -- ch_cn_write. `size` is the length of `buf`.
  unfoldable pub write : ℕ → List ℕ → Option Callback → M (Unit {0})
  unfolding write_encrypted
  write fuel buf callback = do
    c ← get_conn
    assert (c.write_size == 0)
    if c.flags.encrypted then write_encrypted fuel buf callback else call (uv_write buf write_cb)
