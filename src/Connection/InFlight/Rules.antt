-- ===== src/Connection/InFlight/Rules.antt =====
-- The rules by which a program keeps at most one write request under way: what does not concern the
-- request leaves the predicates alone, and the flag is tested, taken and dropped in pairs with it.
use c4irp.Prelude.{ℕ, suc, ◌<◌, ◌≡◌, refl, Bool, true, false, not, List, arith}
use c4irp.World.{State, Connection, Chirp, Callback, Call, bio_read, uv_write}
use c4irp.World.Monad.{M, ◌>>=◌, ◌>>◌, get_conn, set_conn, set_chirp, assert, call, ask}
use c4irp.World.Keeps.{keeps, moves, Ends, Moves, Keeps, Moves-bind, Keeps-Moves}
use c4irp.Connection.Write.{set_pending}
use c4irp.Connection.InFlight.{
  is_apart, started, is_quiet, AtMostOne, Free, Held, started-apart, is_quiet-apart, is_quiet-suc,
}

-- The rules of the three predicates for what does not concern the request.
module _ {n : ℕ} where
  module _ (f : Connection → Connection)
      (tls : (c : Connection) → (f c).flags.encrypted ≡ c.flags.encrypted)
      (pending : (c : Connection) → (f c).flags.write_pending ≡ c.flags.write_pending) where
    pub AtMostOne-set_conn : Keeps (AtMostOne n) (set_conn f)
    AtMostOne-set_conn = record {
      run = λ s p. record {
        tls = rw (tls s.conn) p.tls;
        lower = p.lower;
        upper = rw (pending s.conn) p.upper;
        overwrites = p.overwrites;
      };
    }

    pub Held-set_conn : Keeps (Held n) (set_conn f)
    Held-set_conn = record {
      run = λ s p. record {
        tls = rw (tls s.conn) p.tls;
        pending = rw (pending s.conn) p.pending;
        exact = p.exact;
        overwrites = p.overwrites;
      };
    }

  pub AtMostOne-set_chirp : (f : Chirp → Chirp) → Keeps (AtMostOne n) (set_chirp f)
  AtMostOne-set_chirp f = record {
    run =
        λ s p. record { tls = p.tls; lower = p.lower; upper = p.upper; overwrites = p.overwrites };
  }

  module _ {A : Type 0} (answer : List Call → A) (c : Call) (apart : is_apart c ≡ true) where
    pub AtMostOne-ask : Keeps (AtMostOne n) (ask answer c)
    AtMostOne-ask = record {
      run = λ s p. record {
        tls = p.tls;
        lower = rw (started-apart c s.trace apart) p.lower;
        upper = rw (started-apart c s.trace apart) p.upper;
        overwrites = rw (is_quiet-apart n c s.trace apart) p.overwrites;
      };
    }

    pub Held-ask : Keeps (Held n) (ask answer c)
    Held-ask = record {
      run = λ s p. record {
        tls = p.tls;
        pending = p.pending;
        exact = rw (started-apart c s.trace apart) p.exact;
        overwrites = rw (is_quiet-apart n c s.trace apart) p.overwrites;
      };
    }

    pub Free-ask : Keeps (Free n) (ask answer c)
    Free-ask = record {
      run = λ s p. record {
        tls = p.tls;
        exact = rw (started-apart c s.trace apart) p.exact;
        overwrites = rw (is_quiet-apart n c s.trace apart) p.overwrites;
      };
    }

  pub AtMostOne-call : (c : Call) → is_apart c ≡ true → Keeps (AtMostOne n) (call c)
  AtMostOne-call c apart = record {
    run = λ s p. record {
      tls = p.tls;
      lower = rw (started-apart c s.trace apart) p.lower;
      upper = rw (started-apart c s.trace apart) p.upper;
      overwrites = rw (is_quiet-apart n c s.trace apart) p.overwrites;
    };
  }

module _ {n : ℕ} where
  pub Held-AtMostOne : (s : State) → Held n s → AtMostOne n s
  Held-AtMostOne s p = record {
    tls = p.tls;
    lower = omega (arith, p.exact);
    upper = rw (p.pending) (omega (arith, p.exact));
    overwrites = p.overwrites;
  }

  pub Free-AtMostOne : (s : State) → Free n s → AtMostOne n s
  Free-AtMostOne s p = record {
    tls = p.tls;
    lower = omega (arith, p.exact);
    upper = omega (arith, p.exact);
    overwrites = p.overwrites;
  }

  -- Where the flag is down, no request is under way.
  none_under_way : (s : State) → AtMostOne n s → s.conn.flags.write_pending ≡ false → Free n s
  none_under_way s p down = record {
    tls = p.tls;
    exact = ground (arith, p.lower, p.upper);
    overwrites = p.overwrites;
  }

  -- The assertion that the flag is down, as the code writes it.
  assert_down :
      {A : Type 0} (k : M A) (Q : A → State → Type 0) (b : Bool) (s : State)
      → s.conn.flags.write_pending ≡ b
      → AtMostOne n s
      → Moves (Free n) k Q
      → Ends Q ((assert (not b) >> k) s)
  assert_down k Q true s e p h = tt
  assert_down k Q false s e p h = h.run s (none_under_way s p e)

  assert_both :
      {A : Type 0} (k : M A) (Q : A → State → Type 0) (used : Bool) (s : State)
      → AtMostOne n s
      → Moves (Free n) k Q
      → Ends Q ((assert (not used) >> (assert (not s.conn.flags.write_pending) >> k)) s)
  assert_both k Q true s p h = tt
  assert_both k Q false s p h = assert_down k Q s.conn.flags.write_pending s refl p h

  module _ {A : Type 0} {Q : A → State → Type 0} where
    pub check_flag :
        {k : Connection → M A}
        → ((c : Connection) → Moves (Free n) (k c) Q)
        → Moves (AtMostOne n) (get_conn >>= λ c. assert (not c.flags.write_pending) >> k c) Q
    check_flag {k} h = record {
      run = λ s p. assert_down (k s.conn) Q s.conn.flags.write_pending s refl p (h s.conn);
    }

    pub check_flags :
        {k : M A}
        → Moves (Free n) k Q
        → Moves
            (AtMostOne n)
            (get_conn >>= λ c.
              assert (not c.flags.buf_wtls_used) >> (assert (not c.flags.write_pending) >> k))
            Q
    check_flags {k} h = record { run = λ s p. assert_both k Q s.conn.flags.buf_wtls_used s p h }

    pub take_flag : {k : M A} → Moves (Held n) k Q → Moves (Free n) (set_pending true >> k) Q
    take_flag h = record {
      run = λ s p.
          h.run _
            (record { tls = p.tls; pending = refl; exact = p.exact; overwrites = p.overwrites });
    }

    -- A program that needs no flag, while it is held or while no request is under way.
    pub wait_with_flag : {m : M A} → Moves (AtMostOne n) m Q → Moves (Held n) m Q
    wait_with_flag h = record { run = λ s p. h.run s (Held-AtMostOne s p) }

    pub wait_without_flag : {m : M A} → Moves (AtMostOne n) m Q → Moves (Free n) m Q
    wait_without_flag h = record { run = λ s p. h.run s (Free-AtMostOne s p) }

  -- The buffer is overwritten while no request is under way.
  pub overwrite :
      {A : Type 0} (answer : List Call → A) (at k : ℕ) → Keeps (Held n) (ask answer (bio_read at k))
  unfolding is_quiet started
  overwrite answer at k = record {
    run = λ s p. record {
      tls = p.tls;
      pending = p.pending;
      exact = p.exact;
      overwrites = ground (arith, p.exact, p.overwrites);
    };
  }

  pub submit :
      (bs : List ℕ) (cb : Callback) → Moves (Held n) (call (uv_write bs cb)) (λ _. AtMostOne n)
  unfolding is_quiet started
  submit bs cb = record {
    run = λ s p. record {
      tls = p.tls;
      lower = omega (arith, p.exact);
      upper = rw (p.pending) (omega (arith, p.exact));
      overwrites = p.overwrites;
    };
  }

  pub submit_then :
      {bs : List ℕ} {cb : Callback} {k : M (Unit {0})}
      → Keeps (AtMostOne n) k
      → Moves (Held n) (call (uv_write bs cb) >> k) (λ _. AtMostOne n)
  submit_then {bs} {cb} h = Moves-bind (submit bs cb) (λ _. Keeps-Moves h)

  -- A request is done: the flag goes down, and the count up.
  pub drop_flag :
      (s : State)
      → AtMostOne n s
      → n < started s.trace
      → Ends (λ _. Free (suc n)) (set_pending false s)
  drop_flag s p under_way = record {
    tls = p.tls;
    exact = ground (arith, p.upper);
    overwrites = is_quiet-suc n s.trace p.overwrites;
  }

pub ruleset in_flight = (
  keeps, moves, AtMostOne-set_conn, AtMostOne-set_chirp, AtMostOne-ask, AtMostOne-call,
  Held-set_conn, Held-ask, Free-ask, overwrite, submit, submit_then, wait_with_flag,
  wait_without_flag, take_flag,
)
