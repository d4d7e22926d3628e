-- ===== src/Reader/Tests.antt =====
-- The reader on a message header alone, with bytes behind it, and in the middle of a message.
use c4irp.Prelude.{
  ℕ, zero, suc, length, ◌≡◌, ◌≢◌, refl, List, [], ◌∷◌, ◌++◌, replicate, arith, some,
}
use c4irp.Prelude.Outcome.{done, unfinished}
use c4irp.Prelude.Bytes.{slice}
use c4irp.World.{State, Call, connections_add, rd_wait}
use c4irp.Connection.Write.{write}
use c4irp.Connection.Shutdown.{shutdown}
use c4irp.Reader.{handshake, handshake_bytes, own_handshake, switch, read_data, after_wait, wire_of}
use c4irp.Reader.Loop.{header_at, read_message_unfinished}
use c4irp.Reader.Fields.{AreBytes, IsReceived, switch-IsReceived}
use c4irp.Reader.Greeting.{Knows, handshake-Knows}
use c4irp.Samples.{sample_chirp, sample_env, sample_state}

-- A header with `header_len` 256 in network order.
abbrev with_part : List ℕ
with_part = replicate 34 0 ++ (1 ∷ replicate 10 0)

part_due : after_wait (header_at with_part 0) ≢ rd_wait
unfolding wire_of
part_due e = ground arith

read_message_unfinished_example :
    read_data sample_env
      (shutdown sample_env 9 2)
      (write sample_env (shutdown sample_env 9 2) 9)
      9
      with_part
      45
      sample_state
    ≡ unfinished
read_message_unfinished_example =
    read_message_unfinished sample_env (shutdown sample_env 9 2)
      (write sample_env (shutdown sample_env 9 2) 9) 9 with_part 45 sample_state refl (omega arith)
      (omega arith) part_due

zeros-AreBytes : (n : ℕ) → AreBytes (replicate n 0)
zeros-AreBytes zero = tt
zeros-AreBytes (suc n) = (omega arith, zeros-AreBytes n)

switch-IsReceived_example :
    (s' : State) × (switch sample_env
        (shutdown sample_env 9 2)
        (write sample_env (shutdown sample_env 9 2) 9)
        rd_wait
        (replicate 44 0)
        44
        0
        sample_state
      ≡ done (some 44, s'))
    × IsReceived (slice 0 44 (replicate 44 0)) s'.conn.reader
switch-IsReceived_example =
    switch-IsReceived sample_env (shutdown sample_env 9 2)
      (write sample_env (shutdown sample_env 9 2) 9) (replicate 44 0) 44 0 sample_state
      (zeros-AreBytes 44) (omega arith) (omega arith)

handshake-Knows_example :
    (s' : State) × (handshake sample_env
        (shutdown sample_env 9 2)
        (handshake_bytes (own_handshake sample_chirp 15) ++ [])
        0
        (length (handshake_bytes (own_handshake sample_chirp 15) ++ []))
        sample_state
      ≡ done (tt, s'))
    × Knows s' sample_chirp
    × ((c : List Call) × (s'.trace ≡ connections_add ∷ c))
handshake-Knows_example =
    handshake-Knows sample_env (shutdown sample_env 9 2) sample_chirp 15 [] sample_state refl
      (omega arith) (omega arith) refl
