-- ===== src/World/Agree.antt =====
-- Two programs that agree, and keep the connection shutting down, wherever it is shutting down.
use c4irp.Prelude.{Bool, true, false, List, Option, none, some, ◌≡◌, refl, ◌∙◌, if◌then◌else◌}
use c4irp.Prelude.Outcome.{Outcome, done, aborted, undefined, blocked, unfinished}
use c4irp.World.{State, Connection, Chirp, Call}
use c4irp.World.Monad.{
  M, resume, ◌>>=◌, ◌>>◌, skip, pure, assert, deref, get_conn, get_chirp, set_conn, set_chirp, when,
  call, ask,
}

abbrev pub IsShutting : State → Type 0
IsShutting s = s.conn.flags.shutting_down ≡ true

abbrev pub Keeps : {A : Type 0} → Outcome (A × State) → Type 0
Keeps (done r) = IsShutting r.1
Keeps aborted = Unit {0}
Keeps undefined = Unit {0}
Keeps blocked = Unit {0}
Keeps unfinished = Unit {0}

pub record Agree {A : Type 0} (m n : M A) : Type 0 where
  pub run : (s : State) → IsShutting s → (m s ≡ n s) × Keeps (m s)

module _ {A B : Type 0} where
  resume-Agree :
      (r : Outcome (A × State)) (f g : A → M B)
      → ((a : A) → Agree (f a) (g a))
      → Keeps r
      → (resume r f ≡ resume r g) × Keeps (resume r f)
  resume-Agree (done r) f g h k = (h r.0).run r.1 k
  resume-Agree aborted f g h k = (refl, tt)
  resume-Agree undefined f g h k = (refl, tt)
  resume-Agree blocked f g h k = (refl, tt)
  resume-Agree unfinished f g h k = (refl, tt)

  pub Agree-bind :
      {m n : M A} {f g : A → M B}
      → Agree m n
      → ((a : A) → Agree (f a) (g a))
      → Agree (m >>= f) (n >>= g)
  Agree-bind {m} {n} {f} {g} h k = record {
    run = λ s i. let (same, kept) = h.run s i in rw (← same) (resume-Agree (m s) f g k kept);
  }

pub Agree-then :
    {B : Type 0} {m n : M (Unit {0})} {f g : M B} → Agree m n → Agree f g → Agree (m >> f) (n >> g)
Agree-then h k = Agree-bind h (λ _. k)

pub Agree-if :
    {A : Type 0} (b : Bool) {m n m' n' : M A}
    → Agree m n
    → Agree m' n'
    → Agree (if b then m else m') (if b then n else n')
Agree-if true h k = h
Agree-if false h k = k

pub Agree-when : (b : Bool) {m n : M (Unit {0})} → Agree m n → Agree (when b m) (when b n)
Agree-when true h = record { run = λ s i. h.run s i }
Agree-when false h = record { run = λ s i. (refl, i) }

pub Agree-option :
    {A B : Type 0} (o : Option A) {m n : M B} {f g : A → M B}
    → Agree m n
    → ((a : A) → Agree (f a) (g a))
    → Agree (elim o [ none ↦ m | some a ↦ f a ]) (elim o [ none ↦ n | some a ↦ g a ])
Agree-option none h k = h
Agree-option (some a) h k = k a

pub Agree-skip : Agree skip skip
Agree-skip = record { run = λ s i. (refl, i) }

pub Agree-pure : {A : Type 0} (a : A) → Agree (pure a) (pure a)
Agree-pure a = record { run = λ s i. (refl, i) }

pub Agree-unfinished : {A : Type 0} → Agree {A = A} (λ _. unfinished) (λ _. unfinished)
Agree-unfinished = record { run = λ s i. (refl, tt) }

pub Agree-assert : (b : Bool) → Agree (assert b) (assert b)
Agree-assert true = record { run = λ s i. (refl, i) }
Agree-assert false = record { run = λ s i. (refl, tt) }

pub Agree-deref : {A : Type 0} (o : Option A) → Agree (deref o) (deref o)
Agree-deref none = record { run = λ s i. (refl, tt) }
Agree-deref (some a) = record { run = λ s i. (refl, i) }

pub Agree-get_conn : Agree get_conn get_conn
Agree-get_conn = record { run = λ s i. (refl, i) }

pub Agree-get_chirp : Agree get_chirp get_chirp
Agree-get_chirp = record { run = λ s i. (refl, i) }

pub Agree-set_conn :
    (f : Connection → Connection)
    → ((c : Connection) → (f c).flags.shutting_down ≡ c.flags.shutting_down)
    → Agree (set_conn f) (set_conn f)
Agree-set_conn f h = record { run = λ s i. (refl, h s.conn ∙ i) }

pub Agree-set_chirp : (f : Chirp → Chirp) → Agree (set_chirp f) (set_chirp f)
Agree-set_chirp f = record { run = λ s i. (refl, i) }

pub Agree-call : (c : Call) → Agree (call c) (call c)
Agree-call c = record { run = λ s i. (refl, i) }

pub Agree-ask :
    {A : Type 0} (answer : List Call → A) (c : Call) → Agree (ask answer c) (ask answer c)
Agree-ask answer c = record { run = λ s i. (refl, i) }

pub ruleset agree = (
  Agree-bind, Agree-then, Agree-if, Agree-when, Agree-option, Agree-skip, Agree-pure,
  Agree-unfinished, Agree-assert, Agree-deref, Agree-get_conn, Agree-get_chirp, Agree-set_conn,
  Agree-set_chirp, Agree-call, Agree-ask,
)
