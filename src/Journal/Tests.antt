-- ===== src/Journal/Tests.antt =====
-- Instances of the theorems about journal.c, and tests.
use cse511_lab.Prelude.{
  ℕ, zero, suc, [], ◌∷◌, ◌++◌, some, ◌≡◌, ◌⊎◌, refl, true, false, arith, to_bytes, inl, inr, List,
  take, drop, length,
}
use cse511_lab.Prelude.Signed.{pos, negsuc}
use cse511_lab.CString.{CString}
use cse511_lab.Journal.{
  JournalState, Outcome, fails, max_journal_entry_size, written, write_fails, old_log,
  log_transaction, unmarshall_journal_entry,
}
use cse511_lab.Journal.Entry.{entry_bytes}
use cse511_lab.Journal.Logged.{
  unmarshall_journal_entry-log_transaction, log_transaction_flush_fails,
}
use cse511_lab.Journal.Atomic.{AllOrNone, log_transaction_atomic}

-- "GET k"
abbrev request : CString
request = 71 ∷ 69 ∷ 84 ∷ 32 ∷ 107 ∷ []

-- the third write fails
abbrev pub third_fails : ℕ → Outcome
third_fails zero = written
third_fails (suc zero) = written
third_fails (suc (suc zero)) = write_fails
third_fails (suc (suc (suc i))) = written

pub third_fails-AllOrNone : AllOrNone third_fails
third_fails-AllOrNone zero = (refl, inr (omega arith))
third_fails-AllOrNone (suc zero) = (refl, inr (omega arith))
third_fails-AllOrNone (suc (suc zero)) = (refl, inl refl)
third_fails-AllOrNone (suc (suc (suc i))) = (refl, inr (omega arith))

-- the fflush of the number fails, and nothing of it has reached the file
abbrev flush_fails : ℕ → Outcome
flush_fails i = record { taken = max_journal_entry_size; flush = fails 0 4 }

abbrev before : JournalState
before = record { tx_log = some (1 ∷ 2 ∷ []); locked = false }

log_transaction_atomic_example :
    (log_transaction true third_fails 7 request before
      ≡ some (
        record { tx_log = some (old_log before ++ entry_bytes 7 request); locked = false },
        pos 0,
      ))
    ⊎ (log_transaction true third_fails 7 request before
        ≡ some (record { tx_log = some (old_log before); locked = false }, negsuc 0))
log_transaction_atomic_example =
    log_transaction_atomic third_fails 7 request before third_fails-AllOrNone refl (omega arith)

-- it is the failure that happens
log_transaction_fails :
    log_transaction true third_fails 7 request before
    ≡ some (record { tx_log = some (1 ∷ 2 ∷ []); locked = false }, negsuc 0)
unfolding log_transaction to_bytes
log_transaction_fails = refl

-- a file that does not open leaves the mutex locked
log_transaction_locked :
    log_transaction false third_fails 7 request before
    ≡ some (record { tx_log = some (1 ∷ 2 ∷ []); locked = true }, negsuc 0)
unfolding log_transaction to_bytes
log_transaction_locked = refl

-- a log of one transaction
abbrev logged : JournalState
logged = record { tx_log = some (old_log before ++ entry_bytes 7 request); locked = false }

logs : log_transaction true (λ i. written) 7 request before ≡ some (logged, pos 0)
unfolding log_transaction to_bytes
logs = refl

written-AllOrNone : AllOrNone (λ i. written)
written-AllOrNone i = (refl, inr (omega arith))

unmarshall_journal_entry-log_transaction_example :
    (file : List ℕ) × (logged.tx_log ≡ some file)
    × (unmarshall_journal_entry (drop (length (old_log before)) file)
        ≡ some (record { txid = 7; db_data = request; valid = 1; committed = 1 }))
unmarshall_journal_entry-log_transaction_example =
    unmarshall_journal_entry-log_transaction (λ i. written) 7 request before logged
      written-AllOrNone refl (omega arith) (omega arith) logs

-- the bytes 5 to 8 of an old entry are lost, and those of the number stand in their place
log_transaction_flush_fails_example :
    log_transaction true flush_fails 7 request
      (record { tx_log = some (1 ∷ 2 ∷ 3 ∷ 4 ∷ 5 ∷ 6 ∷ 7 ∷ 8 ∷ []); locked = false })
    ≡ some (
      record {
        tx_log = some (take 4 (1 ∷ 2 ∷ 3 ∷ 4 ∷ 5 ∷ 6 ∷ 7 ∷ 8 ∷ []) ++ take 4 (to_bytes 4 7));
        locked = false;
      },
      negsuc 0,
    )
log_transaction_flush_fails_example =
    log_transaction_flush_fails flush_fails 7 0 4 request
      (record { tx_log = some (1 ∷ 2 ∷ 3 ∷ 4 ∷ 5 ∷ 6 ∷ 7 ∷ 8 ∷ []); locked = false }) (omega arith)
      refl (omega arith) (omega arith) refl
