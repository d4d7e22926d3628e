-- ===== src/Connection/Lifecycle/Ownership.antt =====
-- ch_cn_read_alloc_cb takes the buffers once, the callbacks of a shutdown close the handles once, and
-- ch_cn_close_cb gives everything back once.
use c4irp.Prelude.{ℕ, ◌≡◌, refl, ap, sym, ◌∙◌, true, false, Option, none, some, List, ◌∷◌, arith}
use c4irp.Prelude.Outcome.{done}
use c4irp.World.{State, Connection, Call, alloc}
use c4irp.World.Monad.{M, ◌>>◌}
use c4irp.World.Keeps.{Moves, Moves-bind, Moves-pure, moves}
use c4irp.Connection.Memory.{Owned, owned, life, all_fit, is_over, Steady}
use c4irp.Connection.Memory.Rules.{all_fit_mono, Moves-get_conn, Steady-set_conn}
use c4irp.Connection.Memory.Owns.{Owns, size_of, with_buffers, Owns-with_buffers}
use c4irp.Connection.Memory.Alive.{Alive, settled}
use c4irp.Connection.Lifecycle.{allocate, allocate_once, read_alloc_cb}

-- The three buffers of an encrypted connection are allocated.
allocate_lem :
    (k : ℕ) (s : State)
    → s.conn.flags.encrypted ≡ true
    → allocate k s
      ≡ done (
        tt,
        record s {
          conn = record (s.conn) {
            buffer_uv = some k;
            buffer_wtls = some k;
            buffer_rtls = some k;
            buffer_size = k;
            buffer_wtls_len = k;
          };
          trace = alloc k ∷ alloc k ∷ alloc k ∷ s.trace;
        },
      )
unfolding allocate
allocate_lem k s h = rw h refl

no_size : (o : Option ℕ) → o ≡ none → size_of o ≡ 0
no_size o h = rw h refl

module _ {n : ℕ} {v : Owned} {l : List Call} (o : Owns n v l) where
  bought :
      (k : ℕ) (s : State)
      → v.uv ≡ none
      → Steady v l s
      → Steady (with_buffers k v) (alloc k ∷ alloc k ∷ alloc k ∷ l) (record s {
        conn = record (s.conn) {
          buffer_uv = some k;
          buffer_wtls = some k;
          buffer_rtls = some k;
          buffer_size = k;
          buffer_wtls_len = k;
        };
        trace = alloc k ∷ alloc k ∷ alloc k ∷ s.trace;
      })
  unfolding life all_fit
  bought k s none_yet p = record {
    same = ap (with_buffers k) p.same;
    lived = rw (p.lived) refl;
    room = all_fit_mono s.trace v.size k (omega (arith, o.sized, no_size v.uv none_yet)) p.room;
  }

  module _ (going : is_over l n ≡ false) where
    allocate_once-Moves :
        (b : Option ℕ) (k : ℕ) → v.uv ≡ b → Moves (Steady v l) (allocate_once b k) (λ _. Alive n)
    unfolding allocate_once
    allocate_once-Moves none k none_yet = record {
      run = λ s p.
          rw (allocate_lem k s (ap (λ (w : Owned). w.tls) p.same ∙ o.tls))
            (settled (Owns-with_buffers o k none_yet going) _ (bought k s none_yet p));
    }
    allocate_once-Moves (some m) k e = record { run = λ s p. settled o s p }

    allocate_then :
        {A : Type 0} (b : Option ℕ) (k : ℕ) {m : M A} {Q : A → State → Type 0}
        → v.uv ≡ b
        → Moves (Alive n) m Q
        → Moves (Steady v l) (allocate_once b k >> m) Q
    allocate_then b k e h = Moves-bind (allocate_once-Moves b k e) (λ _. h)

    uv_of : (c : Connection) → owned c ≡ v → v.uv ≡ c.buffer_uv
    uv_of c same = sym (ap (λ (w : Owned). w.uv) same)

    pub read_alloc_cb-Moves : (k : ℕ) → Moves (Steady v l) (read_alloc_cb k) (λ _. Alive n)
    unfolding read_alloc_cb
    read_alloc_cb-Moves k =
        search (Moves-get_conn, allocate_then, uv_of, moves, Steady-set_conn, Moves-pure) depth 12
