-- ===== src/Chirp/Init/Tests.antt =====
-- A chirp object that starts, one whose encryption fails, and a message that is looked up.
use c4irp.Prelude.{◌≡◌, ◌↔◌, refl, true, false, [], ◌∷◌, none, replicate, Bool}
use c4irp.Prelude.Int.{ℤ, pos}
use c4irp.Prelude.Outcome.{done}
use c4irp.Types.{success, tls_error, uninit, uv_error_map}
use c4irp.Config.{verify_cfg}
use c4irp.Chirp.{Instance, Process, close_ts, closing_down}
use c4irp.Chirp.Once.{is_member}
use c4irp.Protocol.Start.{ServerAnswers, server_v4, server_v6}
use c4irp.Protocol.Start.Serves.{Serves}
use c4irp.Encryption
use c4irp.Chirp.Init.{Answers, Node, choose_identity, init}
use c4irp.Chirp.Init.Identity.{same_identity}
use c4irp.Chirp.Init.Outcomes.{Works, init-success_iff, init_failed}
use c4irp.Chirp.Init.Lifetime.{init_dangling, init-closing_down}
use c4irp.Chirp.Run.{LoopAnswers}
use c4irp.Samples.{sample_codes, sample_config}

abbrev served : ServerAnswers
served = record { text = pos 0; addr = pos 0; bind = pos 0; nodelay = pos 0; listen = pos 0 }

-- OpenSSL gives all that it is asked for, or does not find the certificate.
abbrev tls_answers : Bool → Encryption.Answers
tls_answers certificate = record {
  method = true;
  context = true;
  locations = true;
  certificate = certificate;
  key = true;
  key_checked = true;
  params_opened = true;
  params_read = true;
  params_set = true;
  ciphers_set = true;
}

abbrev answers : Bool → Answers
answers certificate = record {
  codes = sample_codes;
  access = λ path. pos 0;
  rand = λ i. i;
  async_init = pos 0;
  v4 = served;
  v6 = served;
  tls = tls_answers certificate;
  sigint_set = true;
  sigterm_set = true;
}

-- The memory of an object in a process in which object 7 runs.
abbrev memory : Node
memory = record {
  chirp = record { self = 5; initialized = false; internal = none };
  freed = false;
  in_loop = false;
  protocol = record {
    open_servers = [];
    listening = [];
    connections = [];
    old_connections = [];
    receipts = [];
    late_receipts = [];
  };
  process = record { instances = 7 ∷ []; ref_count = pos 1; stopped = [] };
  library = record {
    manual = false;
    ref_count = pos 1;
    loaded = true;
    contexts = pos 1;
    params = pos 1;
  };
  sig_init = true;
}

accepted : (log : Bool) → verify_cfg (λ path. pos 0) log sample_config ≡ done success
unfolding verify_cfg
accepted log = refl

served-Serves : Serves sample_codes served
unfolding uv_error_map
served-Serves = record {
  text_ok = refl;
  addr_ok = refl;
  bind_ok = refl;
  nodelay_ok = refl;
  listen_ok = refl;
}

works : Works (answers true) memory
unfolding Encryption.start
works = record { async_ok = refl; v4_ok = served-Serves; v6_ok = served-Serves; tls_ok = refl }

init-success_iff_example :
    ((m : Node) × (init (answers true) sample_config true memory ≡ done (m, success)))
    ↔ ((verify_cfg (λ path. pos 0) true sample_config ≡ done success) × Works (answers true) memory)
init-success_iff_example = init-success_iff (answers true) sample_config true memory refl

refused : (Encryption.start (tls_answers false) memory.library).1 ≡ tls_error
unfolding Encryption.start
refused = refl

init_dangling_example :
    (m : Node) × (init (answers false) sample_config true memory
      ≡ done (m, (Encryption.start (tls_answers false) memory.library).1))
    × (m.freed ≡ true)
    × (m.in_loop ≡ true)
    × (m.protocol.listening ≡ server_v6 ∷ server_v4 ∷ [])
init_dangling_example =
    init_dangling (answers false) sample_config true memory refl (accepted true) refl served-Serves
      served-Serves (rw refused refl)

-- The object whose encryption does not start.
fails :
    (m : Node) × (init (answers false) sample_config true memory
      ≡ done (m, (Encryption.start (tls_answers false) memory.library).1))
fails =
    let d =
      init_dangling (answers false) sample_config true memory refl (accepted true) refl
        served-Serves served-Serves (rw refused refl) in
    (d.0, d.1)

init_failed_example :
    let m = fails.0 in
    ((sent : ℤ) → close_ts sent m.chirp ≡ (m.chirp, uninit))
    × (m.process ≡ memory.process)
    × (m.sig_init ≡ true)
init_failed_example =
    init_failed (answers false) sample_config true memory refl fails.0
      (Encryption.start (tls_answers false) memory.library).1 fails.1 (rw refused refl)

init-closing_down_example :
    (m : Node) × (init (answers true) sample_config true memory ≡ done (m, success))
    × (is_member 5 m.process.instances ≡ true)
    × ((r : Instance × Process) × (closing_down m.chirp m.process ≡ done r)
        × (r.1.instances ≡ 7 ∷ [])
        × (r.1.ref_count ≡ pos 1))
init-closing_down_example =
    init-closing_down (answers true) sample_config true memory refl (accepted true) works refl

same_identity_example :
    choose_identity (λ i. i) (1 ∷ replicate 15 2) ≡ choose_identity (λ i. i) (1 ∷ replicate 15 3)
same_identity_example =
    same_identity (λ i. i) (λ i. i) 1 (replicate 15 2) (replicate 15 3) refl refl refl refl

abbrev ended : LoopAnswers
ended = record { loop_init = pos 0; first_run = pos 1; second_run = pos 0; loop_close = pos 0 }
