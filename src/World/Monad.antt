-- ===== src/World/Monad.antt =====
-- State passing with the outcomes of a call.
use c4irp.Prelude.{Bool, true, false, List, ◌∷◌, Option, none, some}
use c4irp.Prelude.Outcome.{Outcome, done, aborted, undefined, blocked, unfinished}
use c4irp.World.{State, Connection, Chirp, Call, Flags, Reader, Writer}

abbrev pub M : Type 0 → Type 0
M A = State → Outcome (A × State)

-- What comes after an outcome.
abbrev pub resume : {A B : Type 0} → Outcome (A × State) → (A → M B) → Outcome (B × State)
resume (done r) f = f r.0 r.1
resume aborted f = aborted
resume undefined f = undefined
resume blocked f = blocked
resume unfinished f = unfinished

infixl 5 ◌>>=◌ ◌>>◌
abbrev pub ◌>>=◌ : {A B : Type 0} → M A → (A → M B) → M B
◌>>=◌ m f s = resume (m s) f

abbrev pub ◌>>◌ : {B : Type 0} → M (Unit {0}) → M B → M B
m >> k = m >>= λ _. k

abbrev pub pure : {A : Type 0} → A → M A
pure a s = done (a, s)

abbrev pub skip : M (Unit {0})
skip s = done (tt, s)

-- The macro `A(condition, ...)`.
abbrev pub assert : Bool → M (Unit {0})
assert true s = done (tt, s)
assert false s = aborted

-- A read through a pointer or an index that must be in range.
abbrev pub deref : {A : Type 0} → Option A → M A
deref none s = undefined
deref (some a) s = done (a, s)

abbrev pub get : M State
get s = done (s, s)

abbrev pub get_conn : M Connection
get_conn s = done (s.conn, s)

abbrev pub get_chirp : M Chirp
get_chirp s = done (s.chirp, s)

abbrev pub set_conn : (Connection → Connection) → M (Unit {0})
set_conn f s = done (tt, record s { conn = f s.conn })

abbrev pub set_chirp : (Chirp → Chirp) → M (Unit {0})
set_chirp f s = done (tt, record s { chirp = f s.chirp })

abbrev pub set_flags : (Flags → Flags) → M (Unit {0})
set_flags f = set_conn (λ c. record c { flags = f c.flags })

abbrev pub set_reader : (Reader → Reader) → M (Unit {0})
set_reader f = set_conn (λ c. record c { reader = f c.reader })

abbrev pub set_writer : (Writer → Writer) → M (Unit {0})
set_writer f = set_conn (λ c. record c { writer = f c.writer })

abbrev pub when : Bool → M (Unit {0}) → M (Unit {0})
when true m s = m s
when false m s = done (tt, s)

-- A call of the outside, and one whose answer is used.
abbrev pub call : Call → M (Unit {0})
call c s = done (tt, record s { trace = c ∷ s.trace })

abbrev pub ask : {A : Type 0} → (List Call → A) → Call → M A
ask answer c s = done (answer (c ∷ s.trace), record s { trace = c ∷ s.trace })

-- A call that neither reads nor writes the state.
abbrev pub lift : {A : Type 0} → Outcome A → M A
lift (done a) s = done (a, s)
lift aborted s = aborted
lift undefined s = undefined
lift blocked s = blocked
lift unfinished s = unfinished
