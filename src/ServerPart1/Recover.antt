-- ===== src/ServerPart1/Recover.antt =====
-- recover of journal.c, which replays tx_log through the requests of server-part1.c, on a store whose
-- metadata are allocated; main calls it before c1_init, and there a dump or a c1_get crashes.
use cse511_lab.Prelude.{
  ℕ, zero, suc, ◌+◌, List, Option, none, some, ◌>>=◌, Bool, true, false, ltb, ◌==◌, if◌then◌else◌,
  length, take, drop,
}
use cse511_lab.Prelude.Signed.{ℤ, pos, negsuc}
use cse511_lab.CString.{CString, until_nul}
use cse511_lab.CString.Tokens.{strtok}
use cse511_lab.Journal.{max_journal_entry_size, unmarshall_journal_entry}
use cse511_lab.ServerPart1.{Server}
use cse511_lab.ServerPart1.Abd.{Surroundings}
use cse511_lab.ServerPart1.Plain.{serve_plain}

-- The tokens of the data of a transaction, and the request they stand for; without a command or a key
-- it is left out.
unfoldable pub replay_line : Surroundings → CString → Server → Option Server
unfolding strtok serve_plain
replay_line o line st = do
  let (request_type, rest1) = strtok line
  let (key, rest2) = strtok rest1
  let (value, _) = strtok rest2
  elim request_type [
    | none ↦ some st
    | some c ↦ elim key [
      | none ↦ some st
      | some k ↦ do (st', _) ← serve_plain o c k value st; some st'
    ]
  ]

-- The data with the byte behind them, as a string; none where no terminator is among them, and
-- strtok_r reads outside the buffer.
unfoldable pub data_text : List ℕ → ℕ → Option CString
unfolding until_nul
data_text entry n =
    let buffer = take (n + 1) (drop (4 + 8) entry) in
    let text = until_nul buffer in if length text == length buffer then none else some text

-- one entry of tx_log in the loop of `recover`
unfoldable pub replay_entry : Surroundings → List ℕ → Server → Option Server
unfolding unmarshall_journal_entry data_text replay_line
replay_entry o entry st = do
  t ← unmarshall_journal_entry entry
  if t.valid == 0
      then some st
      else (do line ← data_text entry (length t.db_data); replay_line o line st)

-- The loop of `recover` on what is left of the file, which ends at the first short read. The requests
-- of an entry find their surroundings by its number.
unfoldable pub replay : (ℕ → Surroundings) → ℕ → ℕ → List ℕ → Server → Option Server
unfolding replay_entry
replay o zero i file st = none
replay o (suc fuel) i file st = if ltb (length file) max_journal_entry_size then some st else (do
  st' ← replay_entry (o i) (take max_journal_entry_size file) st
  replay o fuel (suc i) (drop max_journal_entry_size file) st')

-- the server with the journal's mutex locked
abbrev pub locked_server : Server → Server
locked_server st = record st { journal = record { tx_log = st.journal.tx_log; locked = true } }

-- the server without a log, the mutex released
abbrev pub flushed_server : Server → Server
flushed_server st = record st { journal = record { tx_log = none; locked = false } }

-- `recover` under the mutex, on what fopen finds. The fuel is one round for each byte of the file, and one
-- for the short read.
unfoldable pub recover_log :
    Bool → (ℕ → Surroundings) → Server → Option (List ℕ) → Option (Server × ℤ)
unfolding replay
recover_log opens o st none = some (st, negsuc 0)
recover_log opens o st (some file) =
    if opens
    then (do
      st' ← replay o (suc (length file)) 0 file (locked_server st)
      some (flushed_server st', pos 0))
    else some (st, negsuc 0)

-- `recover`, where `opens` says whether fopen succeeds on a log; it blocks on a locked mutex.
unfoldable pub recover : Bool → (ℕ → Surroundings) → Server → Option (Server × ℤ)
unfolding recover_log
recover opens o st = if st.journal.locked then none else recover_log opens o st st.journal.tx_log
