-- ===== src/Chirp/Run/Outcomes.antt =====
-- When ch_chirp_run returns 0.
use c4irp.Prelude.{true, ◌≡◌}
use c4irp.Prelude.Int.{is_zero}
use c4irp.Config.{Config}
use c4irp.World.{Chirp}
use c4irp.Chirp.Init
use c4irp.Chirp.Run.{LoopAnswers, run_loop}

-- The loop has ended and is closed.
pub record Ended (l : LoopAnswers) : Type 0 where
  pub runs : is_zero (run_loop l) ≡ true
  pub closes : is_zero l.loop_close ≡ true
