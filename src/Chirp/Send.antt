-- ===== src/Chirp/Send.antt =====
-- src/writer.c: ch_chirp_send, which looks for the connection that a message goes out on.
--
-- `find` is sglib_ch_connection_t_find_member on the tree of connections.
pub mod Lookup
pub mod Tests
use c4irp.Prelude.{ℕ, Bool, List, ◌++◌, Option, none, some, take, drop}
use c4irp.Prelude.Outcome.{Outcome, done, ◌>>=◌, ◌>>◌}
use c4irp.Util.{random_ints_as_bytes}
use c4irp.World.{Env, State, Connection, Chirp, Message, Call}
use c4irp.Connection.Compare.{address_length}
use c4irp.Connection.Write.{write}
use c4irp.Connection.Shutdown.{shutdown}
use c4irp.Writer.{send}

-- `search_conn`: what stands in the memory of a local variable, with the three fields that are set.
abbrev pub search_conn : Connection → Message → Connection
search_conn blank msg = record blank {
  ip_protocol = msg.ip_protocol;
  port = msg.port;
  address = let n = address_length msg.ip_protocol in take n msg.address ++ drop n blank.address;
}

abbrev pub with_serial : List ℕ → Message → Message
with_serial serial msg = record msg { wire = record (msg.wire) { serial = serial } }

-- _ch_wr_send on the connection that was found; without one, nothing happens.
send_on : Env → ℕ → Chirp → List Call → Message → Bool → Option Connection → Outcome (Option State)
send_on env fuel chirp trace msg has_cb none = done none
send_on env fuel chirp trace msg has_cb (some c) =
    send env (shutdown env fuel 2) (write env (shutdown env fuel 2) fuel) msg has_cb
      (record { conn = c; chirp = chirp; trace = trace })
    >>= λ r. done (some r.1)

-- ch_chirp_send: the message with its serial number, and the state of the connection that was found.
unfoldable pub chirp_send :
    Env
    → ℕ
    → (ℕ → ℕ)
    → (List Connection → Connection → Option Connection)
    → Connection
    → List Connection
    → Chirp
    → List Call
    → Message
    → Bool
    → Outcome (Message × Option State)
unfolding send_on
chirp_send env fuel rand find blank connections chirp trace msg has_cb =
    let c = find connections (search_conn blank msg) in
    do
      serial ← random_ints_as_bytes rand 16
      s ← send_on env fuel chirp trace (with_serial serial msg) has_cb c
      done (with_serial serial msg, s)
