-- ===== src/Encryption/Tests.antt =====
-- The encryption of the only chirp object of a process.
use c4irp.Prelude.{◌≡◌, refl, true, false}
use c4irp.Prelude.Int.{pos}
use c4irp.Types.{success}
use c4irp.Encryption.{Library, Answers, start, stop}
use c4irp.Encryption.Balance.{start-stop}

abbrev good : Answers
good = record {
  method = true;
  context = true;
  locations = true;
  certificate = true;
  key = true;
  key_checked = true;
  params_opened = true;
  params_read = true;
  params_set = true;
  ciphers_set = true;
}

abbrev fresh : Library
fresh = record {
  manual = false;
  ref_count = pos 0;
  loaded = false;
  contexts = pos 0;
  params = pos 0;
}

start-stop_example :
    ((start good fresh).1 ≡ success)
    × (stop (start good fresh).0
        ≡ (record fresh { loaded = false; contexts = pos 1; params = pos 1 }, success))
start-stop_example = start-stop good fresh 0 0 refl refl refl refl
