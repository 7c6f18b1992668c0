-- ===== src/ServerPart1/RecoverTests.antt =====
-- Instances of the theorems about recover of journal.c, and tests.
use cse511_lab.Prelude.{ℕ, List, [], ◌∷◌, ◌++◌, some, ◌>>=◌, ◌≡◌, ◌⊎◌, refl, true, false, arith}
use cse511_lab.Prelude.Signed.{ℤ, pos, negsuc}
use cse511_lab.CString.{CString}
use cse511_lab.Journal.{JournalState, log_transaction}
use cse511_lab.Journal.Tests.{third_fails, third_fails-AllOrNone}
use cse511_lab.ServerPart1.{Server}
use cse511_lab.ServerPart1.Abd.{Surroundings}
use cse511_lab.ServerPart1.Recover.{recover, locked_server, flushed_server}
use cse511_lab.ServerPart1.Replay.{
  IsLoggable, log_bytes, replay_lines, with_log, recovered, recover-log_bytes,
  recover-log_transaction,
}
use cse511_lab.ServerPart1.Tests.{start}
use cse511_lab.ServerPart1.AbdTests.{here}

abbrev anywhere : ℕ → Surroundings
anywhere i = here

-- "PUT a 1" with the value of byte 1, and a delete of "a"
abbrev put_line : CString
put_line = 80 ∷ 85 ∷ 84 ∷ 32 ∷ 97 ∷ 32 ∷ 1 ∷ []

abbrev delete_line : CString
delete_line = 68 ∷ 69 ∷ 76 ∷ 69 ∷ 84 ∷ 69 ∷ 32 ∷ 97 ∷ []

abbrev log : List (ℕ × CString)
log = (7, put_line) ∷ (8, delete_line) ∷ []

IsLoggable-put_line : IsLoggable (7, put_line)
IsLoggable-put_line = record {
  number = omega arith;
  fits = omega arith;
  text = (
    omega arith,
    (omega arith, (omega arith, (omega arith, (omega arith, (omega arith, (omega arith, tt)))))),
  );
}

IsLoggable-delete_line : IsLoggable (8, delete_line)
IsLoggable-delete_line = record {
  number = omega arith;
  fits = omega arith;
  text = (
    omega arith,
    (
      omega arith,
      (omega arith, (omega arith, (omega arith, (omega arith, (omega arith, (omega arith, tt)))))),
    ),
  );
}

-- a log with three bytes of a torn entry
abbrev crashed : Server
crashed = record start {
  journal = record { tx_log = some (log_bytes log ++ 1 ∷ 2 ∷ 3 ∷ []); locked = false };
}

recover-log_bytes_example : recover true anywhere crashed ≡ (
    replay_lines anywhere 0 log (locked_server crashed) >>= λ st'. some (flushed_server st', pos 0))
recover-log_bytes_example =
    recover-log_bytes anywhere log (1 ∷ 2 ∷ 3 ∷ []) crashed
      (IsLoggable-put_line, (IsLoggable-delete_line, tt)) (omega arith) refl refl

recover-log_transaction_example :
    (j : JournalState) × (status : ℤ) × (log_transaction true third_fails 8 delete_line
        (with_log ((7, put_line) ∷ []) start).journal
      ≡ some (j, status))
    × ((status ≡ pos 0)
          × (recover true anywhere (record start { journal = j })
              ≡ recovered anywhere ((7, put_line) ∷ (8, delete_line) ∷ []) j start)
        ⊎ (status ≡ negsuc 0)
          × (recover true anywhere (record start { journal = j })
              ≡ recovered anywhere ((7, put_line) ∷ []) j start))
recover-log_transaction_example =
    recover-log_transaction anywhere third_fails ((7, put_line) ∷ []) (8, delete_line) start
      third_fails-AllOrNone (IsLoggable-put_line, tt) IsLoggable-delete_line
