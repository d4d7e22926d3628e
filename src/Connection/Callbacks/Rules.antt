-- ===== src/Connection/Callbacks/Rules.antt =====
-- Which programs leave the balance of the closing semaphore alone, and how the callbacks change it.
use c4irp.Prelude.{ℕ, suc, ◌+◌, ◌≡◌, refl, ap, sym, ◌∙◌, ◌&&◌, Bool, true, not, List, ◌∷◌, arith}
use c4irp.Prelude.Int.{ℤ, pos, negsuc, ◌+ℤ◌, ◌-ℤ◌}
use c4irp.World.{Env, State, Connection, Call, bio_read, ssl_read}
use c4irp.World.Monad.{M, ◌>>=◌, get_conn, set_conn, call, ask}
use c4irp.World.Keeps.{keeps, Ends, Moves, Keeps}
use c4irp.Connection.Memory.{tally, closes}
use c4irp.Connection.Frame.{is_shutdown, is_light, Wide}
use c4irp.Connection.Callbacks.{shutdowns, owed, Counts}

-- A call for which libuv owes nothing.
abbrev pub is_uncounted : Call → Bool
is_uncounted c = not (closes c) && not (is_shutdown c)

owed-uncounted :
    (env : Env) (c : Call) (t : List Call) → is_uncounted c ≡ true → owed env (c ∷ t) ≡ owed env t
unfolding shutdowns tally
owed-uncounted env c t h = ground arith

light-is_uncounted : (c : Call) → is_light c ≡ true → is_uncounted c ≡ true
light-is_uncounted c h = ground arith

pub plus_plus : (z : ℤ) (a b : ℕ) → z +ℤ a +ℤ b ≡ z +ℤ (a + b)
plus_plus (pos m) a b = ground arith
plus_plus (negsuc m) a b = ground arith

-- The semaphore goes up with what is owed, or down by one for a callback.
pub move_up : (z base : ℤ) (j x k m : ℕ) → m ≡ k + j → z +ℤ x ≡ base +ℤ k → z +ℤ j +ℤ x ≡ base +ℤ m
move_up z base j x k m e h =
    plus_plus z j x
    ∙ ap (λ (n : ℕ). z +ℤ n) (omega arith)
    ∙ sym (plus_plus z x j)
    ∙ ap (λ (w : ℤ). w +ℤ j) h
    ∙ plus_plus base k j
    ∙ ap (λ (n : ℕ). base +ℤ n) (sym e)

pub move_down : (z : ℤ) (x : ℕ) → z -ℤ 1 +ℤ suc x ≡ z +ℤ x
move_down (pos m) x = ground arith
move_down (negsuc m) x = ground arith

module _ {env : Env} {base : ℤ} {x : ℕ} where
  pub Counts-set_conn : (f : Connection → Connection) → Keeps (Counts env base x) (set_conn f)
  Counts-set_conn f = record {
    run = λ s p. record { is_closing = p.is_closing; balance = p.balance };
  }

  uncounted_step :
      (c : Call) (s : State)
      → is_uncounted c ≡ true
      → Counts env base x s
      → Counts env base x (record s { trace = c ∷ s.trace })
  uncounted_step c s h p = record {
    is_closing = p.is_closing;
    balance = p.balance ∙ ap (λ (k : ℕ). base +ℤ k) (sym (owed-uncounted env c s.trace h));
  }

  pub Counts-ask :
      {A : Type 0} (answer : List Call → A) (c : Call)
      → is_uncounted c ≡ true
      → Keeps (Counts env base x) (ask answer c)
  Counts-ask answer c h = record { run = λ s p. uncounted_step c s h p }

  pub Counts-call : (c : Call) → is_uncounted c ≡ true → Keeps (Counts env base x) (call c)
  Counts-call c h = record { run = λ s p. uncounted_step c s h p }

  Counts-get_conn :
      {A : Type 0} {f : Connection → M A}
      → ((c : Connection) → Unit {0} → Keeps (Counts env base x) (f c))
      → Keeps (Counts env base x) (get_conn >>= f)
  Counts-get_conn h = record { run = λ s p. (h s.conn tt).run s p }

  pub Counts-Wide : Wide (Counts env base x) (λ c. Unit {0})
  Counts-Wide = record {
    wide_set = λ f h. Counts-set_conn f;
    wide_ask = λ answer c h. Counts-ask answer c (light-is_uncounted c h);
    wide_call = λ c h. Counts-call c (light-is_uncounted c h);
    wide_get = Counts-get_conn;
    Within = λ n. Unit {0};
    wide_start = tt;
    wide_room = λ c n r le. tt;
    wide_bio_read = λ answer at n le. Counts-ask answer (bio_read at n) refl;
    wide_ssl_read = λ c answer n r le. Counts-ask answer (ssl_read n) refl;
  }

pub ruleset counts = (keeps, Counts-set_conn, Counts-ask, Counts-call)
