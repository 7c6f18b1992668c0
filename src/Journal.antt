-- ===== src/Journal.antt =====
-- journal.c and journal.h: the log of transactions, the bytes of the file tx_log.
pub mod Atomic
pub mod Entry
pub mod Logged
pub mod Tests
use cse511_lab.Prelude.{
  ℕ, zero, suc, ◌+◌, ◌-◌, List, [], ◌∷◌, ◌++◌, Option, none, some, Bool, true, false, ltb,
  if◌then◌else◌, length, take, drop, replicate, to_bytes, of_bytes, ◌>>=◌,
}
use cse511_lab.Prelude.Signed.{ℤ, pos, negsuc}
use cse511_lab.CString.{CString}

-- `MAX_JOURNAL_ENTRY_SIZE`: 22 + MAX_ENTRY_SIZE + 2 + 6
abbrev pub max_journal_entry_size : ℕ
max_journal_entry_size = 434

-- `transaction`; `db.data_len` is the length of the data.
pub record Transaction : Type 0 where
  pub txid : ℕ
  pub db_data : CString
  pub valid : ℕ
  pub committed : ℕ

-- The file tx_log, none where there is no file, and whether `journal_mutex` is locked.
pub record JournalState : Type 0 where
  pub tx_log : Option (List ℕ)
  pub locked : Bool

-- How an fflush goes: it writes all that fwrite has taken, or it fails when so many bytes have reached the
-- file, and fclose writes so many of the others.
pub data Flush : Type 0 where
  flushed : Flush
  fails : ℕ → ℕ → Flush

-- How an fwrite with its fflush goes: how many of its bytes fwrite takes, where it has them, and the fflush.
pub record Outcome : Type 0 where
  pub taken : ℕ
  pub flush : Flush

abbrev pub written : Outcome
written = record { taken = max_journal_entry_size; flush = flushed }

abbrev pub write_fails : Outcome
write_fails = record { taken = 0; flush = flushed }

-- What one fwrite writes, and how many bytes the code cuts off the file where the fwrite fails and
-- where the fflush does.
pub record Chunk : Type 0 where
  pub bytes : List ℕ
  pub undo_write : ℕ
  pub undo_flush : ℕ

-- `ftruncate(fileno(file), st.st_size - k)`, which fails on a negative length
unfoldable pub cut : ℕ → List ℕ → List ℕ
cut k file = if ltb (length file) k then file else take (length file - k) file

-- the fflush behind an fwrite that has taken some bytes, with the handling of its error
unfoldable pub flush_chunk : Flush → ℕ → List ℕ → List ℕ → List ℕ × Bool
unfolding cut
flush_chunk flushed undo taken file = (file ++ taken, true)
flush_chunk (fails reached closed) undo taken file =
    (cut undo (file ++ take reached taken) ++ take closed (drop reached taken), false)

-- The file behind an fwrite, an fflush and the handling of their errors; true where the code goes on. Any
-- count but 0 is a success of fwrite, and a count of 0 is an error of it also where it had no bytes.
unfoldable pub write_chunk : Outcome → Chunk → List ℕ → List ℕ × Bool
unfolding cut flush_chunk
write_chunk o c file = elim (take o.taken c.bytes) [
  | [] ↦ (cut c.undo_write file, false)
  | b ∷ bs ↦ flush_chunk o.flush c.undo_flush (b ∷ bs) file
]

-- one chunk after the other up to the first failure; the outcomes are those from a number on
unfoldable pub write_chunks : (ℕ → Outcome) → ℕ → List Chunk → List ℕ → List ℕ × Bool
unfolding write_chunk
write_chunks o i [] file = (file, true)
write_chunks o i (c ∷ cs) file =
    let (file', ok) = write_chunk (o i) c file in
    elim ok [ true ↦ write_chunks o (suc i) cs file' | false ↦ (file', false) ]

-- The writes of `log_transaction` up to the newline: the number, the length, the data, its
-- terminator, the two flags that are set to 1 before, and the newline.
abbrev pub head_chunks : ℕ → CString → List Chunk
head_chunks txid db_data =
    let n = length db_data in
    record { bytes = to_bytes 4 txid; undo_write = 0; undo_flush = 4 }
    ∷ record { bytes = to_bytes 8 n; undo_write = 4; undo_flush = 4 + 8 }
    ∷ record { bytes = db_data; undo_write = 4 + 8; undo_flush = 4 + 8 + n }
    ∷ record { bytes = 0 ∷ []; undo_write = 4 + 8 + n; undo_flush = 4 + 8 + n + 1 }
    ∷ record { bytes = to_bytes 4 1; undo_write = 4 + 8 + n + 1; undo_flush = 4 + 8 + n + 1 + 4 }
    ∷ record {
      bytes = to_bytes 4 1;
      undo_write = 4 + 8 + n + 1 + 4;
      undo_flush = 4 + 8 + n + 1 + 4 + 4;
    }
    ∷ record {
      bytes = 10 ∷ [];
      undo_write = 4 + 8 + n + 1 + 4 + 4;
      undo_flush = 4 + 8 + n + 1 + 4 + 4 + 1;
    }
    ∷ []

-- `remaining_bytes`
abbrev pub remaining_bytes : CString → ℕ
remaining_bytes db_data = max_journal_entry_size - (22 + length db_data)

-- the write that fills the entry with zeros
abbrev pub padding_chunk : CString → Chunk
padding_chunk db_data = record {
  bytes = replicate (remaining_bytes db_data) 0;
  undo_write = 22 + length db_data;
  undo_flush = 22 + length db_data + remaining_bytes db_data;
}

-- the status of the writes: 0, or -1 behind a failure
abbrev pub status_of : List ℕ × Bool → JournalState × ℤ
status_of (file, true) = (record { tx_log = some file; locked = false }, pos 0)
status_of (file, false) = (record { tx_log = some file; locked = false }, negsuc 0)

-- The padding behind the other writes; where `remaining_bytes` is negative, fwrite gets NULL.
abbrev pub pad : (ℕ → Outcome) → CString → List ℕ × Bool → Option (JournalState × ℤ)
pad o db_data (file, false) = some (status_of (file, false))
pad o db_data (file, true) =
    if ltb (max_journal_entry_size - 22) (length db_data)
    then none
    else some (status_of (write_chunks o 7 (padding_chunk db_data ∷ []) file))

-- the bytes that fopen with "a" finds
abbrev pub old_log : JournalState → List ℕ
old_log j = elim j.tx_log [ none ↦ [] | some file ↦ file ]

-- `log_transaction`, where `opens` says whether fopen succeeds, and `txid` is what rand returns;
-- none where the call blocks on the mutex, or is undefined.
unfoldable pub log_transaction :
    Bool → (ℕ → Outcome) → ℕ → CString → JournalState → Option (JournalState × ℤ)
unfolding write_chunks
log_transaction opens o txid db_data j =
    if j.locked
    then none
    else if opens
    then pad o db_data (write_chunks o 0 (head_chunks txid db_data) (old_log j))
    else some (record j { locked = true }, negsuc 0)

-- `unmarshall_journal_entry`, none where it reads outside its buffer
unfoldable pub unmarshall_journal_entry : List ℕ → Option Transaction
unmarshall_journal_entry entry =
    let n = of_bytes (take 8 (drop 4 entry)) in
    if ltb (length entry) (4 + 8 + (n + 1) + 4 + 4)
    then none
    else some (record {
      txid = of_bytes (take 4 entry);
      db_data = take n (drop (4 + 8) entry);
      valid = of_bytes (take 4 (drop (4 + 8 + (n + 1)) entry));
      committed = of_bytes (take 4 (drop (4 + 8 + (n + 1) + 4) entry));
    })

-- `flush_log`: remove fails where there is no file.
unfoldable pub flush_log : JournalState → JournalState × ℤ
flush_log j = (record j { tx_log = none }, elim j.tx_log [ none ↦ negsuc 0 | some file ↦ pos 0 ])
