-- ===== src/Connection/Memory/Closes.antt =====
-- How closing the handles, and the callbacks of the closed ones, change what a connection owns.
use c4irp.Prelude.{
  ℕ, suc, ◌+◌, ◌-◌, ◌≤◌, ◌<◌, ◌≡◌, ◌≢◌, refl, ap, ◌∙◌, true, false, Option, none, some, List, ◌∷◌,
  ◌++◌, if◌then◌else◌, arith,
}
use c4irp.Prelude.Int.{pos, ◌-ℤ◌}
use c4irp.World.{Call, uv_close, client, shutdown_timeout}
use c4irp.Connection.Memory.{
  Owned, tally, Resource, buffers, tls_engine, tls_pipe, lock, memory, takes, gives_back, closing,
  is_over,
}
use c4irp.Connection.Memory.Owns.{Owns, amount, frees_pool, with_two_due, with_one_done, released}

not_over : (l : List Call) (n : ℕ) → closing l ≢ n → is_over l n ≡ false
not_over l n h = ground arith

pub minus_one : (k : ℕ) → pos (suc k) -ℤ 1 ≡ pos k
minus_one k = ground arith

less_one : (a n : ℕ) → n < a → a - n ≡ suc (a - suc n)
less_one a n h = omega arith

zero_of : (a n : ℕ) → n ≤ a → a ≡ 0 → n ≡ 0
zero_of a n h e = omega arith

-- Both handles are closed, where none was.
module _ {n : ℕ} {v : Owned} {l : List Call} (o : Owns n v l) (unclosed : closing l ≡ 0) where
  both : List Call
  both = uv_close shutdown_timeout ∷ uv_close client ∷ l

  none_done : n ≡ 0
  none_done = zero_of (closing l) n o.some_due unclosed

  pub Owns-with_two_due : Owns n (with_two_due v) (uv_close shutdown_timeout ∷ uv_close client ∷ l)
  unfolding tally both
  Owns-with_two_due = record {
    tls = o.tls;
    ssl = o.ssl;
    bio = o.bio;
    wtls = o.wtls;
    rtls = o.rtls;
    sized = o.sized;
    some_due = omega (arith, o.some_due);
    few = omega (arith, unclosed);
    due = rw (o.due, unclosed, none_done) refl;
    taken = taken;
    back = back;
    pool = rw (o.pool, none_done) refl;
  }
    where
      taken : (r : Resource) → tally (takes r) both ≡ amount r v.uv
      taken buffers = o.taken buffers
      taken tls_engine = o.taken tls_engine
      taken tls_pipe = o.taken tls_pipe
      taken lock = o.taken lock
      taken memory = o.taken memory

      back :
          (r : Resource) → tally (gives_back r) both ≡ (if is_over both n then amount r v.uv else 0)
      back buffers = rw (o.back buffers, none_done) refl
      back tls_engine = rw (o.back tls_engine, none_done) refl
      back tls_pipe = rw (o.back tls_pipe, none_done) refl
      back lock = rw (o.back lock, none_done) refl
      back memory = rw (o.back memory, none_done) refl

-- The callback of a closed handle.
module _ {n : ℕ} {v : Owned} {l : List Call} (o : Owns n v l) (under_way : n < closing l) where
  pub due_suc : v.tasks ≡ pos (suc (closing l - suc n))
  due_suc = o.due ∙ ap pos (less_one (closing l) n under_way)

  pub due_left : v.tasks -ℤ 1 ≡ pos (closing l - suc n)
  due_left = rw due_suc (minus_one _)

  going : is_over l n ≡ false
  going = not_over l n (λ e. omega (arith, e))

  -- Until then nothing is given back.
  pub nothing_back : (r : Resource) → tally (gives_back r) l ≡ 0
  nothing_back r = rw (o.back r, going) refl

  -- Another handle is still closing.
  pub Owns-with_one_done : closing l ≢ suc n → Owns (suc n) (with_one_done v) l
  Owns-with_one_done more = record {
    tls = o.tls;
    ssl = o.ssl;
    bio = o.bio;
    wtls = o.wtls;
    rtls = o.rtls;
    sized = o.sized;
    some_due = omega arith;
    few = o.few;
    due = due_left;
    taken = o.taken;
    back = λ r. rw (o.back r, going, not_over l (suc n) more) refl;
    pool = rw (o.pool, going, not_over l (suc n) more) refl;
  }

  module _ (last : closing l ≡ suc n) where
    over : is_over l (suc n) ≡ true
    over = ground (arith, last)

    taken_still :
        (o' : Option ℕ) (r : Resource) → tally (takes r) (released o' ++ l) ≡ tally (takes r) l
    unfolding tally
    taken_still none buffers = refl
    taken_still none tls_engine = refl
    taken_still none tls_pipe = refl
    taken_still none lock = refl
    taken_still none memory = refl
    taken_still (some k) buffers = refl
    taken_still (some k) tls_engine = refl
    taken_still (some k) tls_pipe = refl
    taken_still (some k) lock = refl
    taken_still (some k) memory = refl

    given :
        (o' : Option ℕ) (r : Resource)
        → tally (gives_back r) (released o' ++ l) ≡ amount r o' + tally (gives_back r) l
    unfolding tally
    given none buffers = omega arith
    given none tls_engine = omega arith
    given none tls_pipe = omega arith
    given none lock = omega arith
    given none memory = omega arith
    given (some k) buffers = omega arith
    given (some k) tls_engine = omega arith
    given (some k) tls_pipe = omega arith
    given (some k) lock = omega arith
    given (some k) memory = omega arith

    pub closing_still : (o' : Option ℕ) → closing (released o' ++ l) ≡ closing l
    unfolding tally
    closing_still none = refl
    closing_still (some k) = refl

    pool_given : (o' : Option ℕ) → tally frees_pool (released o' ++ l) ≡ suc (tally frees_pool l)
    unfolding tally
    pool_given none = refl
    pool_given (some k) = refl

    -- It was the last: everything is given back.
    pub Owns-released : Owns (suc n) (with_one_done v) (released v.uv ++ l)
    Owns-released = record {
      tls = o.tls;
      ssl = o.ssl;
      bio = o.bio;
      wtls = o.wtls;
      rtls = o.rtls;
      sized = o.sized;
      some_due = rw (closing_still v.uv) (omega arith);
      few = rw (closing_still v.uv) o.few;
      due = rw (closing_still v.uv) due_left;
      taken = λ r. taken_still v.uv r ∙ o.taken r;
      back = λ r. rw (given v.uv r, closing_still v.uv, o.back r, going, over) (omega arith);
      pool = rw (pool_given v.uv, closing_still v.uv, o.pool, going, over) refl;
    }
