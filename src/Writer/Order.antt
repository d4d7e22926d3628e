-- ===== src/Writer/Order.antt =====
-- The order in which the callbacks of the writer send the parts of a message.
use c4irp.Prelude.{
  ℕ, zero, suc, ◌≤◌, ◌≡◌, refl, true, List, [], ◌∷◌, ◌++◌, Option, none, some, arith, ltb, leb,
  if◌then◌else◌, Bool-cases, inl, inr, length, take,
}
use mathlib.Core.List.{append_assoc}
use c4irp.Prelude.Outcome.{unfinished}
use c4irp.Prelude.Int.{pos}
use c4irp.Types.{ErrorCode}
use c4irp.World.{
  Env, State, Message, Callback, send_msg_header_cb, send_chirp_header_cb, send_actor_cb,
  send_data_cb, write_cb, Call, uv_write,
}
use c4irp.World.Monad.{M, ◌>>◌, call}
use c4irp.Writer.{send_finish, send_data, send_actor, send_header, run_callback}

-- A connection on which every write succeeds: what is written goes out as a whole, and the callback
-- is then called with the status 0. The fuel is one for each write.
pub deliver : Env → M ErrorCode → ℕ → List ℕ → Option Callback → M (Unit {0})
deliver env shutdown zero buf cb = λ s. unfinished
deliver env shutdown (suc n) buf none = call (uv_write buf write_cb)
deliver env shutdown (suc n) buf (some cb) =
    call (uv_write buf cb) >> run_callback env shutdown (deliver env shutdown n) cb (pos 0)

-- The write of a part, if it is not empty.
abbrev pub part_call : List ℕ → ℕ → Callback → List Call
part_call bytes n cb = if ltb 0 n then uv_write (take n bytes) cb ∷ [] else []

-- The writes of the parts of a message, the last one first, as in a trace.
abbrev pub data_call : Message → List Call
data_call msg = part_call msg.payload msg.data_len send_data_cb

abbrev pub actor_call : Message → List Call
actor_call msg = part_call msg.actor msg.actor_len send_actor_cb

abbrev pub header_call : Message → List Call
header_call msg = part_call msg.header msg.header_len send_chirp_header_cb

-- Each part of a message has the length that the message says.
pub record HasParts (msg : Message) : Type 0 where
  pub header_full : msg.header_len ≤ length msg.header
  pub actor_full : msg.actor_len ≤ length msg.actor
  pub payload_full : msg.data_len ≤ length msg.payload

abbrev pub traced : State → List Call → State
traced s cs = record s { trace = cs ++ s.trace }

abbrev pub holding : State → Message → State
holding s msg = record s {
  conn = record (s.conn) { writer = record (s.conn.writer) { msg = some msg } };
}

module _ (env : Env) (shutdown : M ErrorCode) (msg : Message) (v : HasParts msg) where
  data_stage :
      (n : ℕ) (s : State)
      → send_data env shutdown (deliver env shutdown (suc n)) msg (holding s msg)
        ≡ send_finish (traced (holding s msg) (data_call msg))
  unfolding send_data deliver run_callback
  data_stage n s = elim (Bool-cases (ltb 0 msg.data_len)) [
    | inl on ↦
        let full : leb msg.data_len (length msg.payload) ≡ true = ground (arith, v.payload_full) in
        rw (on, full) refl
    | inr off ↦ rw off refl
  ]

  actor_stage :
      (n : ℕ) (s : State)
      → send_actor env shutdown (deliver env shutdown (suc (suc n))) msg (holding s msg)
        ≡ send_finish (traced (traced (holding s msg) (actor_call msg)) (data_call msg))
  unfolding send_actor deliver run_callback
  actor_stage n s = elim (Bool-cases (ltb 0 msg.actor_len)) [
    | inl on ↦
        let full : leb msg.actor_len (length msg.actor) ≡ true = ground (arith, v.actor_full) in
        rw (on, full)
          (data_stage n (traced s (uv_write (take msg.actor_len msg.actor) send_actor_cb ∷ [])))
    | inr off ↦ rw off (data_stage (suc n) s)
  ]

  header_stage :
      (n : ℕ) (s : State)
      → send_header env shutdown (deliver env shutdown (suc (suc (suc n)))) msg (holding s msg)
        ≡ send_finish (
            traced
              (traced (traced (holding s msg) (header_call msg)) (actor_call msg))
              (data_call msg))
  unfolding send_header deliver run_callback
  header_stage n s = elim (Bool-cases (ltb 0 msg.header_len)) [
    | inl on ↦
        let full : leb msg.header_len (length msg.header) ≡ true = ground (arith, v.header_full) in
        rw (on, full)
          (actor_stage n
            (traced s (uv_write (take msg.header_len msg.header) send_chirp_header_cb ∷ [])))
    | inr off ↦ rw off (actor_stage (suc n) s)
  ]

  -- For a message whose parts are as long as it says, on a connection on which every write
  -- succeeds, the write of a message's wire header is followed by the writes of the header, the
  -- actor and the data, in this order, each as a whole and only if it is not empty, and then by
  -- _ch_wr_send_finish; nothing else is called and nothing is changed. Four writes are enough for
  -- any message.
  pub deliver-send_finish :
      (wire : List ℕ) (n : ℕ) (s : State)
      → deliver env shutdown
          (suc (suc (suc (suc n))))
          wire
          (some send_msg_header_cb)
          (holding s msg)
        ≡ send_finish (
            traced (holding s msg) (
              data_call msg
              ++ (actor_call msg ++ (header_call msg ++ uv_write wire send_msg_header_cb ∷ []))))
  unfolding deliver run_callback
  deliver-send_finish wire n s =
      rw
        (
          append_assoc (data_call msg),
          append_assoc (actor_call msg),
          append_assoc (header_call msg),
        )
        (header_stage n (traced s (uv_write wire send_msg_header_cb ∷ [])))
