-- ===== src/Protocol/Start/Serves.antt =====
-- When ch_pr_start succeeds.
use c4irp.Prelude.{true, false, ◌≡◌, ◌↔◌, refl, [], ◌∷◌, arith}
use c4irp.Prelude.Int.{is_neg}
use c4irp.Types.{UvCodes, uv_error_map, is_success}
use c4irp.Protocol.Start.{
  Protocol, Server, server_v4, server_v6, ServerAnswers, init, serve, clear, start,
}

-- The calls for a server succeed.
pub record Serves (codes : UvCodes) (a : ServerAnswers) : Type 0 where
  pub text_ok : is_neg a.text ≡ false
  pub addr_ok : is_neg a.addr ≡ false
  pub bind_ok : is_success (uv_error_map codes a.bind) ≡ true
  pub nodelay_ok : is_neg a.nodelay ≡ false
  pub listen_ok : is_neg a.listen ≡ false

module _ (codes : UvCodes) where
  serve-success :
      (a : ServerAnswers) (server : Server) (p : Protocol)
      → (is_success (serve codes a server p).1 ≡ true) ↔ Serves codes a
  unfolding serve
  serve-success a server p = (
    λ h. record {
      text_ok = ground (arith, h);
      addr_ok = ground (arith, h);
      bind_ok = ground (arith, h);
      nodelay_ok = ground (arith, h);
      listen_ok = ground (arith, h);
    },
    λ s. rw (s.text_ok, s.addr_ok, s.bind_ok, s.nodelay_ok, s.listen_ok) refl,
  )

  -- ch_pr_start succeeds where all the calls for the two servers succeed, and nowhere else.
  pub start-success :
      (v4 v6 : ServerAnswers)
      → (is_success (start codes v4 v6 init).1 ≡ true) ↔ (Serves codes v4 × Serves codes v6)
  unfolding start
  start-success v4 v6 =
      let p4 = (serve codes v4 server_v4 init).0 in
      let (f4, g4) = serve-success v4 server_v4 init in
      let (f6, g6) = serve-success v6 server_v6 p4 in
      (λ h. (f4 (ground (arith, h)), f6 (ground (arith, h))), λ s. rw (g4 s.0, g6 s.1) refl)

  -- Both servers listen then.
  pub start_listens :
      (v4 v6 : ServerAnswers)
      → Serves codes v4
      → Serves codes v6
      → (start codes v4 v6 init).0.listening ≡ server_v6 ∷ server_v4 ∷ []
  unfolding start serve clear init
  start_listens v4 v6 s t =
      rw
        (
          s.text_ok, s.addr_ok, s.bind_ok, s.nodelay_ok, s.listen_ok, t.text_ok, t.addr_ok,
          t.bind_ok, t.nodelay_ok, t.listen_ok,
        )
        refl
