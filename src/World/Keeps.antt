-- ===== src/World/Keeps.antt =====
-- What holds of the state before a program and after it, wherever the program returns.
--
-- `Moves P m Q` is the general form; `Keeps P m` is an invariant, with a rule for each way to build
-- a program.
use c4irp.Prelude.{Bool, true, false, Option, none, some, if◌then◌else◌}
use c4irp.Prelude.Outcome.{Outcome, done, aborted, undefined, blocked, unfinished}
use c4irp.World.{State}
use c4irp.World.Monad.{M, resume, ◌>>=◌, ◌>>◌, skip, pure, assert, deref, get_conn, get_chirp, when}

abbrev pub Ends : {A : Type 0} → (A → State → Type 0) → Outcome (A × State) → Type 0
Ends Q (done r) = Q r.0 r.1
Ends Q aborted = Unit {0}
Ends Q undefined = Unit {0}
Ends Q blocked = Unit {0}
Ends Q unfinished = Unit {0}

pub record Moves {A : Type 0} (P : State → Type 0) (m : M A) (Q : A → State → Type 0) : Type 0 where
  pub run : (s : State) → P s → Ends Q (m s)

pub record Keeps {A : Type 0} (P : State → Type 0) (m : M A) : Type 0 where
  pub run : (s : State) → P s → Ends (λ _. P) (m s)

module _ {A B : Type 0} {Q : A → State → Type 0} {R : B → State → Type 0} where
  resume-Ends :
      (r : Outcome (A × State)) (f : A → M B)
      → ((a : A) → Moves (Q a) (f a) R)
      → Ends Q r
      → Ends R (resume r f)
  resume-Ends (done r) f h k = (h r.0).run r.1 k
  resume-Ends aborted f h k = tt
  resume-Ends undefined f h k = tt
  resume-Ends blocked f h k = tt
  resume-Ends unfinished f h k = tt

  pub Moves-bind :
      {P : State → Type 0} {m : M A} {f : A → M B}
      → Moves P m Q
      → ((a : A) → Moves (Q a) (f a) R)
      → Moves P (m >>= f) R
  Moves-bind {m} {f} h k = record { run = λ s p. resume-Ends (m s) f k (h.run s p) }

module _ {A : Type 0} {P : State → Type 0} where
  pub Keeps-Moves : {m : M A} → Keeps P m → Moves P m (λ _. P)
  Keeps-Moves h = record { run = λ s p. h.run s p }

  pub Moves-Keeps : {m : M A} → Moves P m (λ _. P) → Keeps P m
  Moves-Keeps h = record { run = λ s p. h.run s p }

  pub Keeps-if : (b : Bool) {m n : M A} → Keeps P m → Keeps P n → Keeps P (if b then m else n)
  Keeps-if true h k = h
  Keeps-if false h k = k

  pub Keeps-pure : (a : A) → Keeps P (pure a)
  Keeps-pure a = record { run = λ s p. p }

  pub Keeps-unfinished : Keeps {A = A} P (λ _. unfinished)
  Keeps-unfinished = record { run = λ s p. tt }

  pub Keeps-deref : (o : Option A) → Keeps P (deref o)
  Keeps-deref none = record { run = λ s p. tt }
  Keeps-deref (some a) = record { run = λ s p. p }

module _ {A : Type 0} {P : State → Type 0} {Q : A → State → Type 0} where
  pub Moves-if : (b : Bool) {m n : M A} → Moves P m Q → Moves P n Q → Moves P (if b then m else n) Q
  Moves-if true h k = h
  Moves-if false h k = k

pub Moves-unfinished :
    {A : Type 0} {P : State → Type 0} {Q : A → State → Type 0} → Moves P (λ _. unfinished) Q
Moves-unfinished = record { run = λ s p. tt }

pub Moves-pure : {A : Type 0} {Q : A → State → Type 0} (a : A) → Moves (Q a) (pure a) Q
Moves-pure a = record { run = λ s p. p }

module _ {A B : Type 0} {P : State → Type 0} where
  pub Keeps-bind :
      {m : M A} {f : A → M B} → Keeps P m → ((a : A) → Keeps P (f a)) → Keeps P (m >>= f)
  Keeps-bind h k = Moves-Keeps (Moves-bind (Keeps-Moves h) (λ a. Keeps-Moves (k a)))

  pub Keeps-option :
      (o : Option A) {m : M B} {f : A → M B}
      → Keeps P m
      → ((a : A) → Keeps P (f a))
      → Keeps P (elim o [ none ↦ m | some a ↦ f a ])
  Keeps-option none h k = h
  Keeps-option (some a) h k = k a

-- A program that keeps what holds before it, and then the rest.
module _ {A B : Type 0} {P : State → Type 0} {Q : B → State → Type 0} where
  pub Moves-after :
      {m : M A} {f : A → M B} → Keeps P m → ((a : A) → Moves P (f a) Q) → Moves P (m >>= f) Q
  Moves-after h k = Moves-bind (Keeps-Moves h) k

module _ {B : Type 0} {P : State → Type 0} {Q : B → State → Type 0} where
  pub Moves-then : {m : M (Unit {0})} {k : M B} → Keeps P m → Moves P k Q → Moves P (m >> k) Q
  Moves-then h k = Moves-bind (Keeps-Moves h) (λ _. k)

module _ {P : State → Type 0} where
  pub Keeps-then :
      {B : Type 0} {m : M (Unit {0})} {f : M B} → Keeps P m → Keeps P f → Keeps P (m >> f)
  Keeps-then h k = Keeps-bind h (λ _. k)

  pub Keeps-when : (b : Bool) {m : M (Unit {0})} → Keeps P m → Keeps P (when b m)
  Keeps-when true h = record { run = λ s p. h.run s p }
  Keeps-when false h = record { run = λ s p. p }

  pub Keeps-skip : Keeps P skip
  Keeps-skip = record { run = λ s p. p }

  pub Keeps-assert : (b : Bool) → Keeps P (assert b)
  Keeps-assert true = record { run = λ s p. p }
  Keeps-assert false = record { run = λ s p. tt }

  pub Keeps-get_conn : Keeps P get_conn
  Keeps-get_conn = record { run = λ s p. p }

  pub Keeps-get_chirp : Keeps P get_chirp
  Keeps-get_chirp = record { run = λ s p. p }

pub ruleset keeps = (
  Keeps-bind, Keeps-then, Keeps-if, Keeps-when, Keeps-option, Keeps-skip, Keeps-pure,
  Keeps-unfinished, Keeps-assert, Keeps-deref, Keeps-get_conn, Keeps-get_chirp,
)

-- The rules for a program after which something else holds.
pub ruleset moves =
    (keeps, Moves-after, Moves-then, Moves-if, Moves-pure, Keeps-Moves, Moves-unfinished)
