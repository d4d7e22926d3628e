-- ===== src/Protocol/Failure.antt =====
-- When reading fails: which answers shut the connection down, and how the decryption loop ends.
use c4irp.Prelude.{
  ℕ, zero, suc, ◌+◌, ◌-◌, ◌<◌, Bool, true, false, ◌||◌, List, take, drop, ◌∷◌, ◌≡◌, refl, ap, ltb,
  if◌then◌else◌, arith,
}
use c4irp.Prelude.Outcome.{Outcome, done, aborted, undefined, blocked, unfinished}
use c4irp.Prelude.Int.{ℤ, pos, negsuc, is_neg, is_pos, eq_ℤ, pos_part}
use c4irp.World.{Env, State, Call, bio_write}
use c4irp.World.Monad.{M, resume}
use c4irp.Protocol.{close, decrypted, decrypt_loop, read_data_cb}

-- The state in which the buffer of libuv is not in use.
abbrev pub released_uv : State → State
released_uv s = record s {
  conn = record (s.conn) { flags = record (s.conn.flags) { buf_uv_used = false } };
}

-- A state after one more call.
abbrev pub called : Call → State → State
called c s = record s { trace = c ∷ s.trace }

split_failed :
    {A : Type 0} (b c : Bool) (m n : A)
    → (b || c) ≡ true
    → (if b then m else if c then m else n) ≡ m
split_failed b c m n h = grind arith

-- The end of the stream and every other negative result of libuv's read release libuv's buffer and
-- shut the connection down, whether it is encrypted or not: nothing is decrypted or read.
pub read_data_cb-failed :
    (env : Env) (fuel : ℕ) (nread : ℤ) (buf : List ℕ) (s : State)
    → (eq_ℤ nread env.codes.uv_eof || is_neg nread) ≡ true
    → read_data_cb env fuel nread buf s ≡ close env fuel (released_uv s)
unfolding read_data_cb
read_data_cb-failed env fuel nread buf s failed =
    ap (λ (m : M (Unit {0})). m (released_uv s))
      (split_failed (eq_ℤ nread env.codes.uv_eof) (is_neg nread) (close env fuel) _ failed)

minus_zero : (n : ℕ) → n - 0 ≡ n
minus_zero n = omega arith

refuse : (b : Bool) (m n : M (Unit {0})) (s : State) → b ≡ false → (if b then m else n) s ≡ n s
refuse b m n s h = rw h refl

-- On an encrypted connection, bytes of which BIO_write takes none shut the connection down without
-- being decrypted, the ones that libuv gave as 0 included.
pub read_data_cb-refused :
    (env : Env) (fuel n : ℕ) (buf : List ℕ) (s : State)
    → eq_ℤ (pos n) env.codes.uv_eof ≡ false
    → s.conn.flags.encrypted ≡ true
    → is_pos (env.int_of (bio_write (take n buf) ∷ s.trace)) ≡ false
    → read_data_cb env fuel (pos n) buf s
      ≡ close env fuel (called (bio_write (take n buf)) (released_uv s))
unfolding read_data_cb decrypt_loop
read_data_cb-refused env fuel n buf s not_eof encrypted none_taken =
    rw (not_eof, encrypted, minus_zero n) (refuse _ _ _ _ none_taken)

resume_eq :
    (o : Outcome (Unit {0} × State)) (f g : Unit {0} → M (Unit {0}))
    → ((u : Unit {0}) (s : State) → f u s ≡ g u s)
    → resume o f ≡ resume o g
resume_eq (done r) f g h = h r.0 r.1
resume_eq aborted f g h = refl
resume_eq undefined f g h = refl
resume_eq blocked f g h = refl
resume_eq unfinished f g h = refl

-- Two programs behind the same test.
if_run :
    (b : Bool) (m n k : M (Unit {0})) (s : State)
    → (b ≡ true → m s ≡ n s)
    → (if b then m else k) s ≡ (if b then n else k) s
if_run true m n k s h = h refl
if_run false m n k s h = refl

remaining :
    (nread handled m : ℕ) (taken : ℤ)
    → nread - handled < suc m
    → is_pos taken ≡ true
    → ltb (handled + pos_part taken) nread ≡ true
    → nread - (handled + pos_part taken) < m
remaining nread handled m (pos t) h p l = ground arith
remaining nread handled m (negsuc t) h p l = ground arith

module _ (env : Env) (fuel : ℕ) (buf : List ℕ) (nread : ℕ) where
  rounds_eq :
      (m n handled : ℕ) (s : State)
      → nread - handled < m
      → nread - handled < n
      → decrypt_loop env fuel m buf nread handled s ≡ decrypt_loop env fuel n buf nread handled s
  unfolding decrypt_loop
  rounds_eq zero n handled s h k = grind arith
  rounds_eq (suc m) zero handled s h k = grind arith
  rounds_eq (suc m) (suc n) handled s h k =
      let c = bio_write (take (nread - handled) (drop handled buf)) in
      let taken = env.int_of (c ∷ s.trace) in
      if_run (is_pos taken) _ _ _ (called c s) (λ some_taken.
        resume_eq (decrypted env fuel (called c s)) _ _ (λ u s'.
          if_run (ltb (handled + pos_part taken) nread) _ _ _ s' (λ more.
            rounds_eq m n (handled + pos_part taken) s'
              (remaining nread handled m taken h some_taken more)
              (remaining nread handled n taken k some_taken more))))

  -- The decryption loop ends: each round that goes on has taken a byte, so that one round more than
  -- there are bytes left is enough, whatever OpenSSL answers, and more rounds change nothing.
  pub decrypt_loop-enough :
      (rounds handled : ℕ) (s : State)
      → nread - handled < rounds
      → decrypt_loop env fuel rounds buf nread handled s
        ≡ decrypt_loop env fuel (nread - handled + 1) buf nread handled s
  decrypt_loop-enough rounds handled s h = rounds_eq rounds _ handled s h (omega arith)
