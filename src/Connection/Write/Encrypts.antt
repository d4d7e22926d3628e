-- ===== src/Connection/Write/Encrypts.antt =====
-- The loop of _ch_cn_partial_write ends.
use c4irp.Prelude.{
  ℕ, zero, suc, ◌+◌, ◌-◌, ◌≤◌, ◌<◌, ◌≡◌, refl, ap, sym, ◌∙◌, ◌⊎◌, inl, inr, true, ◌&&◌, List, [],
  ◌∷◌, ◌++◌, Option, some, none, arith, ltb, leb, Bool-cases, length,
}
use mathlib.Core.List.{append_assoc}
use c4irp.Prelude.Outcome.{done}
use c4irp.Prelude.Int.{ℤ, pos, negsuc}
use c4irp.Prelude.Bytes.{slice, length-slice}
use c4irp.Types.{ErrorCode}
use c4irp.World.{Env, State, Connection, Call, ssl_write, bio_read}
use c4irp.World.Monad.{M, ◌>>=◌, pure}
use c4irp.Connection.Write.{Progress, advance, encrypt}

-- What OpenSSL documents of SSL_write: a positive result is a number of the bytes that it is given.
-- It may fail, with 0 or a negative result, and BIO_read may give anything.
pub record Writes (env : Env) : Type 0 where
  pub at_most :
      (t : List Call) (bs : List ℕ) (k : ℕ) → env.int_of (ssl_write bs ∷ t) ≡ pos k → k ≤ length bs

-- The connection has bytes left to encrypt.
pub record IsWriting (c : Connection) (p : Progress) : Type 0 where
  pub whole : length c.write_buffer ≡ c.write_size
  pub left : p.bytes_encrypted + c.write_written < c.write_size

-- How the loop ends, from the state `s` on.
pub data Ends (env : Env) (shutdown : M ErrorCode) (s : State) (m : M (Option Progress))
    : Type 0 where
  -- Nothing is left to encrypt, or the buffer is full.
  finished :
      (q : Progress) (t : List Call)
      → m s ≡ done (some q, record s { trace = t })
      → q.bytes_encrypted + s.conn.write_written ≤ s.conn.write_size
      → (q.bytes_encrypted + s.conn.write_written ≡ s.conn.write_size)
        ⊎ (s.conn.buffer_size ≤ q.bytes_read)
      → Ends env shutdown s m
  -- SSL_write failed with a negative result, and the connection is shut down.
  gave_up :
      (bs : List ℕ) (t : List Call) (k : ℕ)
      → env.int_of (ssl_write bs ∷ t) ≡ negsuc k
      → m s ≡ (shutdown >>= λ _. pure none) (record s { trace = ssl_write bs ∷ t })
      → Ends env shutdown s m
  -- SSL_write, after the calls `us` of the loop, took none of the bytes that it was given.
  stuck :
      (bs : List ℕ) (us t : List Call)
      → t ≡ us ++ s.trace
      → 0 < length bs
      → env.int_of (ssl_write bs ∷ t) ≡ pos 0
      → Ends env shutdown s m

int_cases : (z : ℤ) → ((k : ℕ) × (z ≡ negsuc k)) ⊎ (z ≡ pos 0) ⊎ ((k : ℕ) × (z ≡ pos (suc k)))
int_cases (negsuc k) = inl (k, refl)
int_cases (pos zero) = inr (inl refl)
int_cases (pos (suc k)) = inr (inr (k, refl))

module _ (env : Env) (shutdown : M ErrorCode) (s : State) where
  -- A round that leaves the connection alone, before the rest of the loop.
  further :
      {m n : M (Option Progress)} (c d : Call) (now : List Call)
      → now ≡ c ∷ d ∷ s.trace
      → m s ≡ n (record s { trace = now })
      → Ends env shutdown (record s { trace = now }) n
      → Ends env shutdown s m
  further c d now at e (finished q t r le over) = finished q t (e ∙ r) le over
  further c d now at e (gave_up bs t k failed r) = gave_up bs t k failed (e ∙ r)
  further c d now at e (stuck bs us t where_ some_left none_taken) =
      stuck bs (us ++ c ∷ d ∷ []) t
        (where_ ∙ ap (λ ts. us ++ ts) at ∙ sym (append_assoc us (c ∷ d ∷ []) s.trace)) some_left
        none_taken

module _ (env : Env) (shutdown : M ErrorCode) (w : Writes env) where
  -- With an SSL_write that takes no more bytes than it is given, for a connection with bytes left,
  -- and with more rounds than bytes, whatever BIO_read gives: the loop of _ch_cn_partial_write ends
  -- with nothing left to encrypt or a full buffer and the connection as it was, or it ends with the
  -- shutdown of the connection, after a negative result of SSL_write, unless SSL_write returns 0
  -- for bytes that it is given.
  pub encrypt-Ends :
      (fuel : ℕ) (p : Progress) (s : State)
      → IsWriting s.conn p
      → s.conn.write_size < fuel + (p.bytes_encrypted + s.conn.write_written)
      → Ends env shutdown s (encrypt env shutdown fuel p)
  unfolding encrypt
  encrypt-Ends zero p s v enough = absurd (omega (arith, v.left))
  encrypt-Ends (suc fuel) p s v enough =
      let c = s.conn in
      let at = p.bytes_encrypted + c.write_written in
      let rest = slice at (c.write_size - p.bytes_encrypted - c.write_written) c.write_buffer in
      let size : length rest ≡ c.write_size - p.bytes_encrypted - c.write_written =
        length-slice at _ c.write_buffer (omega (arith, v.whole, v.left)) in
      let some_left : 0 < length rest = omega (arith, size, v.left) in
      let inside : leb at c.write_size ≡ true = ground (arith, v.left) in
      elim (int_cases (env.int_of (ssl_write rest ∷ s.trace))) [
        | inl (k, failed) ↦ gave_up rest s.trace k failed (rw (inside, failed) refl)
        | inr (inl none_taken) ↦ stuck rest [] s.trace refl some_left none_taken
        | inr (inr (k, took)) ↦
            let le = w.at_most s.trace rest (suc k) took in
            let now =
              bio_read p.bytes_read (c.buffer_size - p.bytes_read) ∷ ssl_write rest ∷ s.trace in
            let q = advance p (pos (suc k)) (env.bytes_of now) in
            elim (Bool-cases (
              ltb (q.bytes_encrypted + c.write_written) c.write_size
              && ltb q.bytes_read c.buffer_size)) [
                | inl more ↦ further env shutdown s _ _ now refl (rw (inside, took, more) refl) (
                    encrypt-Ends fuel q (record s { trace = now })
                      (ground (arith, v, size, le, more)) (omega arith))
                | inr over ↦
                    finished q now (rw (inside, took, over) refl) (omega (arith, size, le, v.left))
                      (ground (arith, over, size, le, v.left))
              ]
      ]
