-- ===== src/Connection/Shutdown/InFlight.antt =====
-- ch_cn_send_if_pending, the callbacks of a shutdown, and with them all of the code keep at most one
-- write request under way.
use c4irp.Prelude.{ℕ, ◌≡◌, ap, ◌&&◌, refl, Bool, true, false}
use c4irp.Prelude.Int.{ℤ}
use c4irp.Types.{ErrorCode}
use c4irp.World.{Env, Call}
use c4irp.World.Monad.{M}
use c4irp.World.Keeps.{Keeps, Moves, Moves-Keeps}
use c4irp.Connection.Memory.{Owned}
use c4irp.Connection.Frame.{Frame, is_plain}
use c4irp.Connection.Kept.{Kept}
use c4irp.Connection.InFlight.{AtMostOne, Free, is_apart}
use c4irp.Connection.InFlight.Rules.{
  in_flight, check_flag, AtMostOne-set_conn, AtMostOne-ask, AtMostOne-call,
}
use c4irp.Connection.Write.{write}
use c4irp.Connection.Write.InFlight.{write-Keeps}
use c4irp.Reader.Frame.{read_data-Keeps}
use c4irp.Connection.Shutdown.{
  send_handshake_bytes, send_if_pending, shutdown_uv, shutdown_cb, shutdown_timeout_cb,
}

both : (a b : Bool) → (a && b) ≡ true → a ≡ true
both true b h = refl
both false b h = h

plain-is_apart : (c : Call) → is_plain c ≡ true → is_apart c ≡ true
plain-is_apart c h = both (is_apart c) _ h

AtMostOne-Frame : {n : ℕ} → Frame (AtMostOne n)
AtMostOne-Frame = record {
  plain_set =
      λ f same pending. AtMostOne-set_conn f (λ c. ap (λ (v : Owned). v.tls) (same c)) pending;
  plain_ask = λ answer c h. AtMostOne-ask answer c (plain-is_apart c h);
  plain_call = λ c h. AtMostOne-call c (plain-is_apart c h);
}

module _ {n : ℕ} (env : Env) (fuel : ℕ) (shutdown : M ErrorCode)
    (h : Keeps (AtMostOne n) shutdown) where
  send_handshake_bytes-Moves :
      Moves (Free n) (send_handshake_bytes env shutdown fuel) (λ _. AtMostOne n)
  unfolding send_handshake_bytes
  send_handshake_bytes-Moves = search in_flight depth 12

  send_if_pending-Keeps : Keeps (AtMostOne n) (send_if_pending env shutdown fuel)
  unfolding send_if_pending
  send_if_pending-Keeps = Moves-Keeps (
      check_flag λ c.
        search
          (
            in_flight,
            send_handshake_bytes-Moves,
            read_data-Keeps AtMostOne-Frame env shutdown h (write env shutdown fuel)
                (write-Keeps env shutdown h fuel),
          )
          depth 9)

shutdown_uv-Keeps :
    {n : ℕ} (env : Env) (fuel : ℕ) (shutdown : M ErrorCode)
    → Keeps (AtMostOne n) (shutdown_uv env shutdown fuel)
unfolding shutdown_uv
shutdown_uv-Keeps env fuel shutdown = search in_flight depth 12

pub AtMostOne-Kept : {n : ℕ} (env : Env) (fuel : ℕ) → Kept env fuel (AtMostOne n)
AtMostOne-Kept env fuel = record {
  framed = AtMostOne-Frame;
  by_write = λ sh h. write-Keeps env sh h fuel;
  by_pending = send_if_pending-Keeps env fuel;
  by_decrypt = λ f h. search (in_flight, h);
  by_uv = shutdown_uv-Keeps env fuel;
}

module _ {n : ℕ} (env : Env) where
  pub shutdown_cb-Keeps : (status : ℤ) → Keeps (AtMostOne n) (shutdown_cb env status)
  unfolding shutdown_cb
  shutdown_cb-Keeps status = search in_flight depth 15

  pub shutdown_timeout_cb-Keeps : Keeps (AtMostOne n) (shutdown_timeout_cb env)
  unfolding shutdown_timeout_cb
  shutdown_timeout_cb-Keeps = search (in_flight, shutdown_cb-Keeps) depth 9
