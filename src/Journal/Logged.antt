-- ===== src/Journal/Logged.antt =====
-- The entry that log_transaction of journal.c adds to the log, read back, and an fflush that fails.
use cse511_lab.Prelude.{
  ℕ, zero, suc, ◌+◌, ◌-◌, ◌≤◌, ◌<◌, ◌^◌, length-take, List, [], ◌∷◌, ◌++◌, some, ◌≡◌, refl, sym, ap,
  ◌∙◌, inl, inr, true, false, arith, ltb, length, take, drop, length-append, take_of_length_le,
  drop_front, to_bytes, length-to_bytes,
}
use cse511_lab.Prelude.Signed.{pos, negsuc}
use cse511_lab.CString.{CString}
use cse511_lab.Journal.{
  JournalState, max_journal_entry_size, old_log, log_transaction, Outcome, fails, cut, pad,
  head_chunks, flush_chunk, write_chunk, write_chunks, unmarshall_journal_entry,
}
use cse511_lab.Journal.Atomic.{AllOrNone, write_chunks_cons, log_transaction_atomic}
use cse511_lab.Journal.Entry.{entry_bytes, unmarshall_journal_entry-entry_bytes}

-- When log_transaction returns 0, with a file that opens and a mutex that is free, where each fwrite takes
-- all its bytes or fails and no fflush fails,
-- unmarshall_journal_entry reads behind the old log what has been logged: the number, the data, and both
-- flags set. The number fits into 4 bytes and the data into the entry.
pub unmarshall_journal_entry-log_transaction :
    (o : ℕ → Outcome) (txid : ℕ) (db_data : CString) (j j' : JournalState)
    → AllOrNone o
    → j.locked ≡ false
    → txid < 256 ^ 4
    → length db_data + 22 ≤ max_journal_entry_size
    → log_transaction true o txid db_data j ≡ some (j', pos 0)
    → (file : List ℕ) × (j'.tx_log ≡ some file)
      × (unmarshall_journal_entry (drop (length (old_log j)) file)
          ≡ some (record { txid = txid; db_data = db_data; valid = 1; committed = 1 }))
unmarshall_journal_entry-log_transaction o txid db_data j j' f free small fits h =
    elim (log_transaction_atomic o txid db_data j f free fits) [
      | inl p ↦
          let file = old_log j ++ entry_bytes txid db_data in
          let same : record { tx_log = some file; locked = false } ≡ j' = cc in
          (
            file,
            ap (λ s. s.tx_log) (sym same),
            ap unmarshall_journal_entry
                  (drop_front (length (old_log j)) (old_log j) (entry_bytes txid db_data) refl)
                ∙ unmarshall_journal_entry-entry_bytes txid db_data small fits,
          )
      | inr p ↦ absurd (cc)
    ]

take-append_le : (n : ℕ) (xs ys : List ℕ) → n ≤ length xs → take n (xs ++ ys) ≡ take n xs
take-append_le zero xs ys h = refl
take-append_le (suc n) [] ys h = absurd (omega arith)
take-append_le (suc n) (x ∷ xs) ys h = ap (◌∷◌ x) (take-append_le n xs ys (omega arith))

-- the first chunk, of which some bytes have reached the file
cut_unreached :
    (r : ℕ) (old bytes : List ℕ)
    → length bytes ≡ 4
    → r ≤ 4
    → 4 ≤ length old + r
    → cut 4 (old ++ take r bytes) ≡ take (length old + r - 4) old
unfolding cut
cut_unreached r old bytes four h enough =
    let reached : length (take r bytes) ≡ r = omega (arith, length-take r bytes) in
    let size : length (old ++ take r bytes) ≡ length old + r =
      omega (arith, length-append old (take r bytes)) in
    let long : ltb (length (old ++ take r bytes)) 4 ≡ false = ground (arith, size) in
    rw (long, size) (take-append_le (length old + r - 4) old (take r bytes) (omega arith))

write_chunk_fails :
    (o : Outcome) (b : ℕ) (bs : List ℕ) (u v r k : ℕ) (file : List ℕ)
    → length (b ∷ bs) ≤ o.taken
    → o.flush ≡ fails r k
    → write_chunk o (record { bytes = b ∷ bs; undo_write = u; undo_flush = v }) file
      ≡ (cut v (file ++ take r (b ∷ bs)) ++ take k (drop r (b ∷ bs)), false)
unfolding write_chunk flush_chunk
write_chunk_fails o b bs u v r k file all f =
    let every : take o.taken (b ∷ bs) ≡ b ∷ bs = take_of_length_le o.taken (b ∷ bs) all in
    rw (every, write_chunk) (rw (f, flush_chunk) refl)

-- An fflush that fails on the number of a transaction, behind an fwrite that has taken all of it, when so
-- many of its bytes have reached the file, with a file that opens and a mutex that is free, and a log that is
-- at least as long as what is cut off: log_transaction returns -1, and as many bytes of the entries before are
-- lost as have not reached the file; what fclose still writes of the number stands behind the rest.
pub log_transaction_flush_fails :
    (o : ℕ → Outcome) (txid reached closed : ℕ) (db_data : CString) (j : JournalState)
    → 4 ≤ (o 0).taken
    → (o 0).flush ≡ fails reached closed
    → reached ≤ 4
    → 4 ≤ length (old_log j) + reached
    → j.locked ≡ false
    → log_transaction true o txid db_data j
      ≡ some (
        record {
          tx_log = some (
              take (length (old_log j) + reached - 4) (old_log j)
              ++ take closed (drop reached (to_bytes 4 txid)));
          locked = false;
        },
        negsuc 0,
      )
unfolding log_transaction to_bytes
log_transaction_flush_fails o txid reached closed db_data j all f less enough free =
    let number = to_bytes 4 txid in
    let old = old_log j in
    let kept = take (length old + reached - 4) old ++ take closed (drop reached number) in
    let lost = cut_unreached reached old number (length-to_bytes 4 txid) less enough in
    let failed = write_chunk_fails (o 0) _ _ 0 4 reached closed old all f in
    let start : log_transaction true o txid db_data j
        ≡ pad o db_data (write_chunks o 0 (head_chunks txid db_data) old) =
      rw (free, log_transaction) refl in
    start
    ∙ ap (pad o db_data) (
        write_chunks_cons o 0 _ (drop 1 (head_chunks txid db_data)) old kept false
          (failed ∙ ap (λ l. (l ++ take closed (drop reached number), false)) lost))
