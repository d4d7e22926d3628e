-- ===== src/Connection/Write/Wide.antt =====
-- ch_cn_write and _ch_cn_partial_write leave alone what the connection owns, and read from OpenSSL
-- no more than their buffer has room for.
use c4irp.Prelude.{ℕ, zero, suc, List, Option, none, some, refl, ltb, ◌+◌}
use c4irp.Prelude.Int.{is_neg}
use c4irp.Types.{ErrorCode}
use c4irp.World.{Env, State, Connection, Callback, ssl_write}
use c4irp.World.Monad.{M}
use c4irp.World.Keeps.{Keeps, Keeps-bind, Keeps-deref, Keeps-if, Keeps-pure}
use c4irp.Connection.Frame.{Wide, wide, Wide-get_conn, Wide-ask, Wide-bio_read_rest, Wide-again}
use c4irp.Connection.Write.{
  Progress, unwritten, advance, encrypt, send_encrypted, finish, partial_write, write_encrypted,
  write,
}

module _ {P : State → Type 0} {Room : Connection → Type 0} (w : Wide P Room) (env : Env)
    (shutdown : M ErrorCode) (h : Keeps P shutdown) where
  -- The loop reads from where its counter stands, which is inside the buffer as long as it goes on.
  encrypt-Keeps :
      (fuel : ℕ) (p : Progress) → w.Within p.bytes_read → Keeps P (encrypt env shutdown fuel p)
  unfolding encrypt
  encrypt-Keeps zero p inside = search wide
  encrypt-Keeps (suc fuel) p inside = Wide-get_conn w (λ c r.
      Keeps-bind (Keeps-deref (unwritten c p.bytes_encrypted)) (λ rest.
        Keeps-bind (Wide-ask w env.int_of (ssl_write rest) refl) (λ tmp_err.
          Keeps-if (is_neg tmp_err) (Keeps-bind h (λ e. Keeps-pure none)) (
            Keeps-bind (Wide-bio_read_rest w c env.bytes_of p.bytes_read r inside) (λ a.
              let q = advance p tmp_err a in
              Wide-again w c (ltb (q.bytes_encrypted + c.write_written) c.write_size) q.bytes_read r
                (encrypt-Keeps fuel q) (Keeps-pure (some q)))))))

  finish-Keeps : (o : Option Progress) → Keeps P (finish env shutdown o)
  unfolding finish send_encrypted
  finish-Keeps none = search wide
  finish-Keeps (some p) = search wide depth 12

  pub partial_write-Keeps : (fuel : ℕ) → Keeps P (partial_write env shutdown fuel)
  unfolding partial_write
  partial_write-Keeps fuel = search (wide, w.wide_start, encrypt-Keeps, finish-Keeps) depth 12

  write_encrypted-Keeps :
      (fuel : ℕ) (buf : List ℕ) (callback : Option Callback)
      → Keeps P (write_encrypted env shutdown fuel buf callback)
  unfolding write_encrypted
  write_encrypted-Keeps fuel buf callback = search (wide, partial_write-Keeps) depth 12

  pub write-Keeps :
      (fuel : ℕ) (buf : List ℕ) (callback : Option Callback)
      → Keeps P (write env shutdown fuel buf callback)
  unfolding write
  write-Keeps fuel buf callback = search (wide, write_encrypted-Keeps) depth 9
