-- ===== src/Reader/Greeting.antt =====
-- The handshake that a node sends and the one that its peer receives.
use c4irp.Prelude.{
  ℕ, ◌+◌, ◌^◌, ◌<◌, ◌≡◌, if◌then◌else◌, refl, sym, ap, ◌∙◌, true, false, List, [], ◌∷◌, ◌++◌, ltb,
  leb, arith, length, take, drop, length-append, take-append, Option-cases, inl, inr,
}
use mathlib.Core.List.{append-nil}
use c4irp.Prelude.Outcome.{done}
use c4irp.Prelude.Int.{pos, is_zero}
use c4irp.Prelude.Bytes.{swap16, swap16-swap16, from_le-le16}
use c4irp.Types.{ErrorCode, ipv4, ipv6}
use c4irp.World.{
  Env, State, Chirp, Handshake, Call, connections_delete, old_connections_add, connections_add,
  connections_find, uv_tcp_getpeername,
}
use c4irp.World.Monad.{M}
use c4irp.Reader.{
  handshake_bytes, handshake_of, own_handshake, retry_time, handshake, replace_old, set_aside,
}

-- A handshake whose identity has its size is read as it was written.
handshake_of-handshake_bytes :
    (hs : Handshake) → length hs.identity ≡ 16 → handshake_of (handshake_bytes hs) ≡ hs
unfolding handshake_of handshake_bytes
handshake_of-handshake_bytes hs size = λ i. record {
  port = from_le-le16 hs.port i;
  max_timeout = from_le-le16 hs.max_timeout i;
  identity = (ap (take 16) (sym (append-nil hs.identity)) ∙ take-append 16 hs.identity [] size) i;
}

length-handshake_bytes :
    (hs : Handshake) → length hs.identity ≡ 16 → length (handshake_bytes hs) ≡ 20
unfolding handshake_bytes
length-handshake_bytes hs size = omega (arith, size)

-- The connection is put into the tree, whether it takes the place of another or not.
replace_old-adds :
    (env : Env) (shutdown : M ErrorCode) (s : State)
    → (c : List Call) × (replace_old env shutdown s
        ≡ done (tt, record s { trace = connections_add ∷ c }))
unfolding replace_old set_aside
replace_old-adds env shutdown s =
    let t = connections_find ∷ s.trace in
    elim (Option-cases (env.find_of t)) [
      | inl e ↦ (t, rw e refl)
      | inr (old, e) ↦ (old_connections_add old ∷ connections_delete old ∷ t, rw e refl)
    ]

-- What a node knows of its peer after the handshake.
pub record Knows (s : State) (peer : Chirp) : Type 0 where
  pub port_known : s.conn.port ≡ pos peer.public_port
  pub identity_known : s.conn.remote_identity ≡ peer.identity

module _ (env : Env) (shutdown : M ErrorCode) (hs : Handshake) (rest : List ℕ) (s : State)
    (size : length hs.identity ≡ 16) (time : hs.max_timeout + retry_time s.chirp < 2 ^ 16)
    (named : is_zero (env.peer_of (uv_tcp_getpeername ∷ s.trace)).0 ≡ true) where
  -- The state after the handshake, before the connection is put into the tree.
  greeted : State
  greeted =
      let peer = env.peer_of (uv_tcp_getpeername ∷ s.trace) in
      record s {
        conn = record (s.conn) {
          port = pos (swap16 hs.port);
          max_timeout = swap16 (hs.max_timeout + retry_time s.chirp);
          remote_identity = hs.identity;
          ip_protocol = if peer.1 then ipv6 else ipv4;
          address = if peer.1 then take 16 peer.2 else take 4 peer.2 ++ drop 4 s.conn.address;
          reader = record (s.conn.reader) { hs = hs };
        };
        trace = uv_tcp_getpeername ∷ s.trace;
      }

  handshake-greeted :
      handshake env shutdown (handshake_bytes hs ++ rest) 0 (length (handshake_bytes hs ++ rest)) s
      ≡ replace_old env shutdown greeted
  unfolding handshake greeted
  handshake-greeted =
      let bytes = handshake_bytes hs in
      let n = length-handshake_bytes hs size in
      let all : length (bytes ++ rest) ≡ 20 + length rest =
        omega (arith, length-append bytes rest, n) in
      let enough : ltb (length (bytes ++ rest)) 20 ≡ false = ground (arith, all) in
      let inside : leb (0 + 20) (length (bytes ++ rest)) ≡ true = ground (arith, all) in
      let front : take 20 (bytes ++ rest) ≡ bytes = take-append 20 bytes rest n in
      let fits : ltb (hs.max_timeout + retry_time s.chirp) (2 ^ 16) ≡ true = ground (arith, time) in
      rw (enough, inside, front, handshake_of-handshake_bytes hs size, fits, named) refl

module _ (env : Env) (shutdown : M ErrorCode) (peer : Chirp) (t : ℕ) (rest : List ℕ) (s : State)
    (size : length peer.identity ≡ 16) (small : peer.public_port < 2 ^ 16)
    (time : swap16 t + retry_time s.chirp < 2 ^ 16)
    (named : is_zero (env.peer_of (uv_tcp_getpeername ∷ s.trace)).0 ≡ true) where
  -- Where the bytes that arrive begin with the handshake that a node sends for the time `t`, with 16
  -- bytes of identity and a port of 16 bits, the sum of both times as the code adds them fits into 16
  -- bits, and uv_tcp_getpeername succeeds: the reader's handshake returns, the connection holds the
  -- port and the identity of that node, and the last call puts it into the tree of connections.
  pub handshake-Knows :
      (s' : State) × (handshake env shutdown
          (handshake_bytes (own_handshake peer t) ++ rest)
          0
          (length (handshake_bytes (own_handshake peer t) ++ rest))
          s
        ≡ done (tt, s'))
      × Knows s' peer
      × ((c : List Call) × (s'.trace ≡ connections_add ∷ c))
  unfolding greeted
  handshake-Knows =
      let hs = own_handshake peer t in
      let g = greeted env shutdown hs rest s size time named in
      let (c, at) = replace_old-adds env shutdown g in
      (
        record g { trace = connections_add ∷ c },
        handshake-greeted env shutdown hs rest s size time named ∙ at,
        record {
          port_known = ap pos (swap16-swap16 peer.public_port small);
          identity_known = refl;
        },
        (c, refl),
      )
