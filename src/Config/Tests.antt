-- ===== src/Config/Tests.antt =====
-- The defaults with both paths set.
use c4irp.Prelude.{◌≡◌, ◌↔◌, true}
use c4irp.Prelude.Outcome.{done}
use c4irp.Prelude.Int.{pos}
use c4irp.Types.{success}
use c4irp.Config.{verify_cfg}
use c4irp.Config.Verify.{Accepted, verify_cfg-success_iff}
use c4irp.Samples.{sample_config}

verify_cfg-success_iff_example :
    (verify_cfg (λ path. pos 0) true sample_config ≡ done success)
    ↔ Accepted (λ path. pos 0) sample_config
verify_cfg-success_iff_example = verify_cfg-success_iff (λ path. pos 0) true sample_config
