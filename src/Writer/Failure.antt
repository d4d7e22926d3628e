-- ===== src/Writer/Failure.antt =====
-- What the writer tells its caller.
use c4irp.Prelude.{
  ℕ, suc, ◌≡◌, refl, Bool, true, false, List, ◌∷◌, Option, ◌==◌, if◌then◌else◌, Bool-cases, inl,
  inr,
}
use c4irp.Prelude.Outcome.{Outcome, done, aborted, undefined, blocked, unfinished}
use c4irp.Prelude.Int.{ℤ, pos, is_zero}
use c4irp.Types.{ErrorCode, protocol_error, timeout}
use c4irp.World.{Env, State, Message, Callback, send_callback, send_timer_stop}
use c4irp.World.Monad.{M, resume}
use c4irp.World.Agree.{IsShutting}
use c4irp.Connection.Shutdown.{shutdown}
use c4irp.Connection.Shutdown.Depth.{shutdown_again, shutdown-IsShutting}
use c4irp.Writer.{release, check_send_error, send_timeout_cb, data_sent, send}

-- After the timer has been stopped, the mutex unlocked and `error` reported.
abbrev pub released : State → ErrorCode → State
released s error = record s {
  conn = record (s.conn) { writer = record (s.conn.writer) { locked = false } };
  trace = send_callback error ∷ send_timer_stop ∷ s.trace;
}

-- The message of the writer is being sent: its mutex is held and it has a callback.
abbrev pub IsSending : State → Type 0
IsSending s = (s.conn.writer.locked ≡ true) × (s.conn.writer.send_cb ≡ true)

release_sending : (e : ErrorCode) (s : State) → IsSending s → release e s ≡ done (tt, released s e)
unfolding release
release_sending e s h = rw (h.0, h.1) refl

-- When the last write of a message has succeeded, while the mutex is held and a callback is set,
-- the callback is told CH_PROTOCOL_ERROR and the mutex is unlocked if acknowledge is 0; otherwise
-- nothing is called and the mutex stays locked.
pub data_sent_result :
    (env : Env) (shutdown : M ErrorCode) (s : State)
    → IsSending s
    → data_sent env shutdown (pos 0) s ≡ (
        if s.chirp.config.acknowledge == 0
        then done (tt, released s protocol_error)
        else done (tt, s))
unfolding data_sent
data_sent_result env shutdown s h = elim (Bool-cases (s.chirp.config.acknowledge == 0)) [
  | inl off ↦ rw off (release_sending protocol_error s h)
  | inr on ↦ rw on refl
]

-- A second release is undefined: it unlocks a mutex that is not locked.
release_twice : (e : ErrorCode) (s : State) → s.conn.writer.locked ≡ false → release e s ≡ undefined
unfolding release
release_twice e s h = rw h refl

release_no_callback :
    (e : ErrorCode) (s : State)
    → s.conn.writer.locked ≡ true
    → s.conn.writer.send_cb ≡ false
    → release e s ≡ undefined
unfolding release
release_no_callback e s on off = rw (on, off) refl

release_result : (e : ErrorCode) (s s' : State) → release e s ≡ done (tt, s') → s' ≡ released s e
release_result e s s' h = elim (Bool-cases s.conn.writer.locked) [
  | inl on ↦ elim (Bool-cases s.conn.writer.send_cb) [
    | inl cb ↦ cc (release_sending e s (on, cb))
    | inr no_cb ↦ cc (release_no_callback e s on no_cb)
  ]
  | inr off ↦ cc (release_twice e s off)
]

-- What a send timeout leaves behind, if it returns.
timeout_result :
    (env : Env) (fuel d : ℕ) (s s1 : State)
    → send_timeout_cb env (shutdown env fuel (suc (suc d))) s ≡ done (tt, s1)
    → IsShutting s1 × (s1.conn.writer.locked ≡ false)
unfolding send_timeout_cb
timeout_result env fuel d s s1 h = go (shutdown env fuel (suc (suc d)) s) refl h
  where
    go :
        (o : Outcome (ErrorCode × State))
        → shutdown env fuel (suc (suc d)) s ≡ o
        → resume o (λ _. release timeout) ≡ done (tt, s1)
        → IsShutting s1 × (s1.conn.writer.locked ≡ false)
    go (done (e, s')) called rest =
        let same = release_result timeout s' s1 rest in
        rw same (shutdown-IsShutting env fuel d s s' e called, refl)
    go aborted called rest = cc
    go undefined called rest = cc
    go blocked called rest = cc
    go unfinished called rest = cc

-- After a send timeout that returned, the callback of the write that the shutdown then cancels is
-- undefined, for every error status and whatever it would go on to do: it unlocks the mutex, which
-- the timeout has unlocked, a second time.
pub cancelled_after_timeout :
    (env : Env) (fuel d : ℕ) (status : ℤ) (rest : M (Unit {0})) (s s1 : State)
    → send_timeout_cb env (shutdown env fuel (suc (suc d))) s ≡ done (tt, s1)
    → is_zero status ≡ false
    → check_send_error env (shutdown env fuel (suc (suc d))) status rest s1 ≡ undefined
unfolding check_send_error
cancelled_after_timeout env fuel d status rest s s1 h bad =
    let (shutting, unlocked) = timeout_result env fuel d s s1 h in
    rw (bad, shutdown_again env fuel (suc d) s1 shutting) (release_twice protocol_error s1 unlocked)

-- A message that is sent while another is being sent on the same connection waits for a mutex that
-- its own thread holds.
pub send_blocked :
    (env : Env) (shutdown : M ErrorCode) (write : List ℕ → Option Callback → M (Unit {0}))
    (msg : Message) (cb : Bool) (s : State)
    → s.conn.writer.locked ≡ true
    → send env shutdown write msg cb s ≡ blocked
unfolding send
send_blocked env shutdown write msg cb s h = rw h refl
