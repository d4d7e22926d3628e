-- ===== src/Connection/Memory/Rules.antt =====
-- The rules by which a program leaves alone, takes and gives back what a connection owns.
use c4irp.Prelude.{ℕ, ◌+◌, ◌≤◌, ◌≡◌, refl, ap, ◌∙◌, true, List, [], ◌∷◌, arith}
use c4irp.World.{State, Connection, Chirp, Call, bio_read, ssl_read}
use c4irp.World.Monad.{M, ◌>>=◌, get_conn, set_conn, set_chirp, call, ask}
use c4irp.World.Keeps.{keeps, moves, Moves, Keeps, Moves-bind, Ends}
use c4irp.Connection.Memory.{Owned, owned, is_life, life, fits, all_fit, is_idle, Steady}
use c4irp.Connection.Frame.{Wide, is_light}

life-idle : (c : Call) (t : List Call) → is_idle c ≡ true → life (c ∷ t) ≡ life t
unfolding life
life-idle c t h = ground arith

fits_mono : (c : Call) (m n : ℕ) → m ≤ n → fits m c ≡ true → fits n c ≡ true
fits_mono c m n le h = ground arith

pub all_fit_mono : (t : List Call) (m n : ℕ) → m ≤ n → all_fit m t ≡ true → all_fit n t ≡ true
unfolding all_fit
all_fit_mono [] m n le h = refl
all_fit_mono (c ∷ t) m n le h = ground (arith, fits_mono c m n le, all_fit_mono t m n le)

idle_fits : (c : Call) (n : ℕ) → is_idle c ≡ true → fits n c ≡ true
idle_fits c n h = ground arith

life_fits : (c : Call) (n : ℕ) → is_life c ≡ true → fits n c ≡ true
life_fits c n h = ground arith

light-is_idle : (c : Call) → is_light c ≡ true → is_idle c ≡ true
light-is_idle c h = ground arith

within : (c : Connection) (v : Owned) (n : ℕ) → owned c ≡ v → n ≤ c.buffer_size → n ≤ v.size
within c v n h le = omega (arith, ap (λ (v : Owned). v.size) h)

module _ {v : Owned} {l : List Call} where
  pub Steady-set_conn :
      (f : Connection → Connection)
      → ((c : Connection) → owned (f c) ≡ owned c)
      → Keeps (Steady v l) (set_conn f)
  Steady-set_conn f h = record {
    run = λ s p. record { same = h s.conn ∙ p.same; lived = p.lived; room = p.room };
  }

  pub Steady-set_chirp : (f : Chirp → Chirp) → Keeps (Steady v l) (set_chirp f)
  Steady-set_chirp f = record {
    run = λ s p. record { same = p.same; lived = p.lived; room = p.room };
  }

  pub idle_step :
      (c : Call) (s : State)
      → is_idle c ≡ true
      → Steady v l s
      → Steady v l (record s { trace = c ∷ s.trace })
  unfolding all_fit
  idle_step c s h p = record {
    same = p.same;
    lived = life-idle c s.trace h ∙ p.lived;
    room = rw (idle_fits c v.size h, p.room) refl;
  }

  pub Steady-ask :
      {A : Type 0} (answer : List Call → A) (c : Call)
      → is_idle c ≡ true
      → Keeps (Steady v l) (ask answer c)
  Steady-ask answer c h = record { run = λ s p. idle_step c s h p }

  pub Steady-call : (c : Call) → is_idle c ≡ true → Keeps (Steady v l) (call c)
  Steady-call c h = record { run = λ s p. idle_step c s h p }

  -- A call that writes into a buffer.
  filled :
      (c : Call) (s : State)
      → life (c ∷ s.trace) ≡ life s.trace
      → fits v.size c ≡ true
      → Steady v l s
      → Steady v l (record s { trace = c ∷ s.trace })
  unfolding all_fit
  filled c s apart room p = record {
    same = p.same;
    lived = apart ∙ p.lived;
    room = rw (room, p.room) refl;
  }

  pub Steady-bio_read :
      {A : Type 0} (answer : List Call → A) (at n : ℕ)
      → at + n ≤ v.size
      → Keeps (Steady v l) (ask answer (bio_read at n))
  unfolding life
  Steady-bio_read answer at n le = record {
    run = λ s p. filled (bio_read at n) s refl (ground arith) p;
  }

  pub Steady-ssl_read :
      {A : Type 0} (answer : List Call → A) (n : ℕ)
      → n ≤ v.size
      → Keeps (Steady v l) (ask answer (ssl_read n))
  unfolding life
  Steady-ssl_read answer n le = record { run = λ s p. filled (ssl_read n) s refl (ground arith) p }

  -- A connection that is read has what is owned.
  pub Steady-get_conn :
      {A : Type 0} {f : Connection → M A}
      → ((c : Connection) → owned c ≡ v → Keeps (Steady v l) (f c))
      → Keeps (Steady v l) (get_conn >>= f)
  Steady-get_conn h = record { run = λ s p. (h s.conn p.same).run s p }

  pub Moves-get_conn :
      {A : Type 0} {f : Connection → M A} {Q : A → State → Type 0}
      → ((c : Connection) → owned c ≡ v → Moves (Steady v l) (f c) Q)
      → Moves (Steady v l) (get_conn >>= f) Q
  Moves-get_conn h = record { run = λ s p. (h s.conn p.same).run s p }

  -- A call of the connection's life, and what comes after it.
  pub life_call :
      (c : Call) → is_life c ≡ true → Moves (Steady v l) (call c) (λ _. Steady v (c ∷ l))
  unfolding life all_fit
  life_call c h = record {
    run = λ s p. record {
      same = p.same;
      lived = rw (h, p.lived) refl;
      room = rw (life_fits c v.size h, p.room) refl;
    };
  }

  -- A change of what is owned, by `g`.
  pub own :
      (f : Connection → Connection) (g : Owned → Owned)
      → ((c : Connection) → owned (f c) ≡ g (owned c))
      → v.size ≤ (g v).size
      → Moves (Steady v l) (set_conn f) (λ _. Steady (g v) l)
  own f g h le = record {
    run = λ s p. record {
      same = h s.conn ∙ ap g p.same;
      lived = p.lived;
      room = all_fit_mono s.trace v.size (g v).size le p.room;
    };
  }

  pub Steady-Wide : Wide (Steady v l) (λ c. owned c ≡ v)
  Steady-Wide = record {
    wide_set = Steady-set_conn;
    wide_ask = λ answer c h. Steady-ask answer c (light-is_idle c h);
    wide_call = λ c h. Steady-call c (light-is_idle c h);
    wide_get = Steady-get_conn;
    Within = λ n. n ≤ v.size;
    wide_start = omega arith;
    wide_room = λ c n same le. within c v n same le;
    wide_bio_read = λ answer at n le. Steady-bio_read answer at n le;
    wide_ssl_read = λ c answer n same le. Steady-ssl_read answer n (within c v n same le);
  }

pub ruleset steady =
    (Steady-get_conn, keeps, Steady-set_conn, Steady-set_chirp, Steady-ask, Steady-call)
