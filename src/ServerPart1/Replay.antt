-- ===== src/ServerPart1/Replay.antt =====
-- What recover of journal.c makes of the entries that log_transaction writes.
use cse511_lab.Prelude.{
  ℕ, zero, suc, ◌+◌, ◌^◌, ◌<◌, ◌≤◌, List, [], ◌∷◌, ◌++◌, Option, none, some, ◌>>=◌, ◌≡◌, refl, sym,
  ap, ◌∙◌, arith, true, false, ltb, ◌==◌, if◌then◌else◌, length, take, drop, All, to_bytes,
  length-to_bytes, length-append, append_assoc, take_front, drop_front, drop_second, replicate, inl,
  inr, ◌⊎◌, bind_congr, append-nil, All-append,
}
use cse511_lab.Prelude.Signed.{ℤ, pos, negsuc}
use cse511_lab.CString.{CString}
use cse511_lab.CString.Scan.{IsText, until_nul_lem}
use cse511_lab.Journal.{
  max_journal_entry_size, remaining_bytes, JournalState, Outcome, log_transaction,
}
use cse511_lab.Journal.Atomic.{AllOrNone, log_transaction_atomic}
use cse511_lab.Journal.Entry.{entry_bytes, length-entry_bytes, unmarshall_journal_entry-entry_bytes}
use cse511_lab.ServerPart1.{Server}
use cse511_lab.ServerPart1.Abd.{Surroundings}
use cse511_lab.ServerPart1.Recover.{
  replay_line, data_text, replay_entry, replay, recover_log, locked_server, flushed_server, recover,
}

-- the number and the data of a transaction that fits into an entry
pub record IsLoggable (t : ℕ × CString) : Type 0 where
  pub number : t.0 < 256 ^ 4
  pub fits : length t.1 + 22 ≤ max_journal_entry_size
  pub text : IsText t.1

-- a log without a torn entry
abbrev pub log_bytes : List (ℕ × CString) → List ℕ
log_bytes [] = []
log_bytes ((txid, line) ∷ ts) = entry_bytes txid line ++ log_bytes ts

-- the requests of the lines, one after the other, from a number on
abbrev pub replay_lines : (ℕ → Surroundings) → ℕ → List (ℕ × CString) → Server → Option Server
replay_lines o i [] st = some st
replay_lines o i ((txid, line) ∷ ts) st = do
  st' ← replay_line (o i) line st
  replay_lines o (suc i) ts st'

data_text-entry_bytes :
    (txid : ℕ) (line : CString)
    → IsText line
    → data_text (entry_bytes txid line) (length line) ≡ some line
unfolding data_text
data_text-entry_bytes txid line h =
    let n = length line in
    let flags : List ℕ =
      to_bytes 4 1 ++ (to_bytes 4 1 ++ 10 ∷ replicate (remaining_bytes line) 0) in
    let behind : drop (4 + 8) (entry_bytes txid line) ≡ line ++ 0 ∷ flags =
      drop_second (4 + 8) (to_bytes 4 txid) (to_bytes 8 n) (line ++ 0 ∷ flags)
        (omega (arith, length-to_bytes 4 txid, length-to_bytes 8 n)) in
    let size : length (line ++ 0 ∷ []) ≡ n + 1 = length-append line (0 ∷ []) in
    let buffer : take (n + 1) (drop (4 + 8) (entry_bytes txid line)) ≡ line ++ 0 ∷ [] =
      ap (take (n + 1)) (behind ∙ sym (append_assoc line (0 ∷ []) flags))
      ∙ take_front (n + 1) (line ++ 0 ∷ []) flags size in
    let ended : (length line == length (line ++ 0 ∷ [])) ≡ false = ground arith in
    rw (buffer, until_nul_lem line [] h, ended)

replay_entry-entry_bytes :
    (o : Surroundings) (t : ℕ × CString) (st : Server)
    → IsLoggable t
    → replay_entry o (entry_bytes t.0 t.1) st ≡ replay_line o t.1 st
unfolding replay_entry
replay_entry-entry_bytes o (txid, line) st h = rw (
  unmarshall_journal_entry-entry_bytes txid line h.number h.fits,
  data_text-entry_bytes txid line h.text,
)

-- a round of the loop on a whole entry
replay-entry :
    (o : ℕ → Surroundings) (fuel i : ℕ) (entry file : List ℕ) (st : Server)
    → length entry ≡ max_journal_entry_size
    → replay o (suc fuel) i (entry ++ file) st
      ≡ (replay_entry (o i) entry st >>= λ st'. replay o fuel (suc i) file st')
unfolding replay
replay-entry o fuel i entry file st h =
    let whole : ltb (length (entry ++ file)) max_journal_entry_size ≡ false =
      let size = length-append entry file in ground arith in
    rw (
      whole,
      take_front max_journal_entry_size entry file h,
      drop_front max_journal_entry_size entry file h,
    )

-- The loop of recover, with fuel above the length of the file, on the entries of a log and a torn entry
-- behind them: it ends, and has served the lines of the entries in their order.
pub replay-log_bytes :
    (o : ℕ → Surroundings) (fuel i : ℕ) (ts : List (ℕ × CString)) (rest : List ℕ) (st : Server)
    → All IsLoggable ts
    → length rest < max_journal_entry_size
    → length (log_bytes ts ++ rest) < fuel
    → replay o fuel i (log_bytes ts ++ rest) st ≡ replay_lines o i ts st
replay-log_bytes o zero i ts rest st h short enough = absurd (omega arith)
replay-log_bytes o (suc fuel) i [] rest st h short enough =
    let torn : ltb (length rest) max_journal_entry_size ≡ true = ground arith in
    unfold replay in rw torn
replay-log_bytes o (suc fuel) i (t ∷ ts) rest st (l, h) short enough =
    let entry = entry_bytes t.0 t.1 in
    let size = length-entry_bytes t.0 t.1 l.fits in
    let split = append_assoc entry (log_bytes ts) rest in
    let joined = length-append entry (log_bytes ts ++ rest) in
    let shorter : length (log_bytes ts ++ rest) < fuel =
      let same = ap length split in omega arith in
    ap (λ file. replay o (suc fuel) i file st) split
    ∙ replay-entry o fuel i entry (log_bytes ts ++ rest) st size
    ∙ ap (λ r. r >>= λ st'. replay o fuel (suc i) (log_bytes ts ++ rest) st')
        (replay_entry-entry_bytes (o i) t st l)
    ∙ bind_congr (replay_line (o i) t.1 st) _ _
        (λ st'. replay-log_bytes o fuel (suc i) ts rest st' h short shorter)

-- recover on such a log, with a mutex that is free: it serves the lines of the log, then removes it and
-- returns 0; it does not return where one of the requests does not.
pub recover-log_bytes :
    (o : ℕ → Surroundings) (ts : List (ℕ × CString)) (rest : List ℕ) (st : Server)
    → All IsLoggable ts
    → length rest < max_journal_entry_size
    → st.journal.locked ≡ false
    → st.journal.tx_log ≡ some (log_bytes ts ++ rest)
    → recover true o st
      ≡ (replay_lines o 0 ts (locked_server st) >>= λ st'. some (flushed_server st', pos 0))
unfolding recover recover_log
recover-log_bytes o ts rest st h short free log =
    let file = log_bytes ts ++ rest in
    let served =
      replay-log_bytes o (suc (length file)) 0 ts rest (locked_server st) h short (omega arith) in
    ap (λ b. if b then none else recover_log true o st st.journal.tx_log) free
    ∙ (ap (recover_log true o st) log
        ∙ ap (λ r. r >>= λ st'. some (flushed_server st', pos 0)) served)

log_bytes-append :
    (ts : List (ℕ × CString)) (t : ℕ × CString)
    → log_bytes (ts ++ t ∷ []) ++ [] ≡ log_bytes ts ++ entry_bytes t.0 t.1
log_bytes-append [] t = append-nil (entry_bytes t.0 t.1 ++ []) ∙ append-nil (entry_bytes t.0 t.1)
log_bytes-append (u ∷ ts) t =
    append_assoc (entry_bytes u.0 u.1) (log_bytes (ts ++ t ∷ [])) []
    ∙ ap (λ l. entry_bytes u.0 u.1 ++ l) (log_bytes-append ts t)
    ∙ sym (append_assoc (entry_bytes u.0 u.1) (log_bytes ts) (entry_bytes t.0 t.1))

-- the server with the journal of a log that is whole
abbrev pub with_log : List (ℕ × CString) → Server → Server
with_log ts st = record st { journal = record { tx_log = some (log_bytes ts); locked = false } }

-- what recover makes of the lines of a log
abbrev pub recovered :
    (ℕ → Surroundings) → List (ℕ × CString) → JournalState → Server → Option (Server × ℤ)
recovered o ts j st = replay_lines o 0 ts (locked_server (record st { journal = j })) >>= λ st'.
    some (flushed_server st', pos 0)

-- A transaction that is logged with failing writes, and a crash right behind log_transaction: recover
-- serves the lines that were logged before, and behind them the line of the transaction exactly where
-- log_transaction has returned 0. The data fit into an entry and have no terminator, each fwrite takes all
-- its bytes or fails, and no fflush fails.
pub recover-log_transaction :
    (o : ℕ → Surroundings) (outcomes : ℕ → Outcome) (ts : List (ℕ × CString)) (t : ℕ × CString)
    (st : Server)
    → AllOrNone outcomes
    → All IsLoggable ts
    → IsLoggable t
    → (j : JournalState) × (status : ℤ) × (log_transaction true outcomes t.0 t.1
          (with_log ts st).journal
        ≡ some (j, status))
      × ((status ≡ pos 0)
            × (recover true o (record st { journal = j }) ≡ recovered o (ts ++ t ∷ []) j st)
          ⊎ (status ≡ negsuc 0)
            × (recover true o (record st { journal = j }) ≡ recovered o ts j st))
recover-log_transaction o outcomes ts t st f h l =
    elim (log_transaction_atomic outcomes t.0 t.1 (with_log ts st).journal f refl l.fits) [
      | inl p ↦
          let j : JournalState = record {
            tx_log = some (log_bytes ts ++ entry_bytes t.0 t.1);
            locked = false;
          } in
          (
            j,
            pos 0,
            p,
            inl (
              refl,
              recover-log_bytes o (ts ++ t ∷ []) [] (record st { journal = j })
                  (All-append IsLoggable ts (t ∷ []) h (l, tt)) (omega arith) refl
                  (ap some (sym (log_bytes-append ts t))),
            ),
          )
      | inr p ↦
          let j = (with_log ts st).journal in
          (
            j,
            negsuc 0,
            p,
            inr (
              refl,
              recover-log_bytes o ts [] (record st { journal = j }) h (omega arith) refl
                  (ap some (sym (append-nil (log_bytes ts)))),
            ),
          )
    ]
