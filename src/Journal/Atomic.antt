-- ===== src/Journal/Atomic.antt =====
-- The log of journal.c behind a log_transaction that fails, and behind one that does not.
use cse511_lab.Prelude.{
  ℕ, suc, ◌+◌, ◌-◌, ◌≤◌, List, [], ◌∷◌, ◌++◌, some, ◌≡◌, refl, sym, ap, ◌∙◌, ◌⊎◌, inl, inr, Bool,
  true, false, arith, ltb, length, take, length-append, take-append, take_of_length_le,
  append_assoc, append-nil, length-replicate, to_bytes,
}
use cse511_lab.Prelude.Signed.{pos, negsuc}
use cse511_lab.CString.{CString}
use cse511_lab.Journal.Entry.{entry_bytes}
use cse511_lab.Journal.{
  JournalState, max_journal_entry_size, old_log, head_chunks, padding_chunk, pad, status_of,
  remaining_bytes, log_transaction, Outcome, flushed, flush_chunk, Chunk, cut, write_chunk,
  write_chunks,
}

-- Each fwrite takes all its bytes or none, and each fflush succeeds.
abbrev pub AllOrNone : (ℕ → Outcome) → Type 0
AllOrNone o =
    (i : ℕ) → ((o i).flush ≡ flushed) × (((o i).taken ≡ 0) ⊎ (max_journal_entry_size ≤ (o i).taken))

-- The code cuts off what it has written, when it has written `n` bytes before the chunks and a write fails.
abbrev pub Exact : ℕ → List Chunk → Type 0
Exact n [] = Unit
Exact n (c ∷ cs) = (c.undo_write ≡ n) × (length c.bytes ≤ 434) × Exact (n + length c.bytes) cs

-- the bytes of all chunks
abbrev pub all_bytes : List Chunk → List ℕ
all_bytes [] = []
all_bytes (c ∷ cs) = c.bytes ++ all_bytes cs

cut_lem : (base added : List ℕ) (k : ℕ) → k ≡ length added → cut k (base ++ added) ≡ base
unfolding cut
cut_lem base added k h =
    let size = length-append base added in
    let enough : ltb (length (base ++ added)) k ≡ false = ground (arith, size) in
    let rest : length (base ++ added) - k ≡ length base = omega (arith, size) in
    rw (enough, rest) (take-append base added)

-- a write that fails takes back what was added to the file
module _ (base added : List ℕ) (u v : ℕ) where
  written_or_undone :
      (o : Outcome) (bytes : List ℕ)
      → o.flush ≡ flushed
      → (o.taken ≡ 0) ⊎ (max_journal_entry_size ≤ o.taken)
      → u ≡ length added
      → length bytes ≤ 434
      → (write_chunk o (record { bytes = bytes; undo_write = u; undo_flush = v }) (base ++ added)
          ≡ (base ++ (added ++ bytes), true))
        ⊎ (write_chunk o (record { bytes = bytes; undo_write = u; undo_flush = v }) (base ++ added)
            ≡ (base, false))
  unfolding write_chunk flush_chunk
  written_or_undone o bytes f (inl z) p m =
      let nothing : take o.taken bytes ≡ [] = ap (λ k. take k bytes) z in
      inr (rw (nothing, write_chunk) (ap (λ l. (l, false)) (cut_lem base added u p)))
  written_or_undone o [] f (inr all) p m =
      let nothing : take {A = ℕ} o.taken [] ≡ [] =
        take_of_length_le {A = ℕ} o.taken [] (omega arith) in
      inr (rw (nothing, write_chunk) (ap (λ l. (l, false)) (cut_lem base added u p)))
  written_or_undone o (b ∷ bs) f (inr all) p m =
      let every : take o.taken (b ∷ bs) ≡ b ∷ bs =
        take_of_length_le o.taken (b ∷ bs) (omega arith) in
      inl (
        rw (every, write_chunk)
          (rw (f, flush_chunk) (ap (λ l. (l, true)) (append_assoc base added (b ∷ bs)))))

pub write_chunks_cons :
    (o : ℕ → Outcome) (i : ℕ) (c : Chunk) (cs : List Chunk) (file file' : List ℕ) (ok : Bool)
    → write_chunk (o i) c file ≡ (file', ok)
    → write_chunks o i (c ∷ cs) file
      ≡ (elim ok [ true ↦ write_chunks o (suc i) cs file' | false ↦ (file', false) ])
unfolding write_chunks
write_chunks_cons o i c cs file file' ok p =
    ap (λ r. elim r.1 [ true ↦ write_chunks o (suc i) cs r.0 | false ↦ (r.0, false) ]) p

write_chunks_undoes :
    (o : ℕ → Outcome) (i : ℕ) (cs : List Chunk) (base added : List ℕ)
    → AllOrNone o
    → Exact (length added) cs
    → (write_chunks o i cs (base ++ added) ≡ (base ++ (added ++ all_bytes cs), true))
      ⊎ (write_chunks o i cs (base ++ added) ≡ (base, false))
write_chunks_undoes o i [] base added f x =
    inl (unfold write_chunks in ap (λ l. (base ++ l, true)) (sym (append-nil added)))
write_chunks_undoes o i (c ∷ cs) base added f (u, m, x) =
    elim (written_or_undone base added c.undo_write c.undo_flush (o i) c.bytes (f i).0 (f i).1 u
      m) [
        | inl p ↦
            let next : Exact (length (added ++ c.bytes)) cs = rw (length-append added c.bytes) x in
            let rest = write_chunks_undoes o (suc i) cs base (added ++ c.bytes) f next in
            rw (write_chunks_cons o i c cs (base ++ added) (base ++ (added ++ c.bytes)) true p)
              (rw (append_assoc added c.bytes (all_bytes cs)) at rest)
        | inr p ↦ inr (write_chunks_cons o i c cs (base ++ added) base false p)
      ]

-- all chunks of an entry give its bytes
all_bytes-entry_bytes :
    (txid : ℕ) (db_data : CString)
    → all_bytes (head_chunks txid db_data) ++ (padding_chunk db_data).bytes
      ≡ entry_bytes txid db_data
all_bytes-entry_bytes txid db_data = simp append_assoc

head_chunks-Exact :
    (txid : ℕ) (db_data : CString)
    → length db_data + 22 ≤ max_journal_entry_size
    → Exact 0 (head_chunks txid db_data)
unfolding to_bytes
head_chunks-Exact txid db_data h = (
  refl,
  omega arith,
  (
    refl,
    omega arith,
    (
      refl,
      omega arith,
      (refl, omega arith, (refl, omega arith, (refl, omega arith, (refl, omega arith, tt)))),
    ),
  ),
)

length-head :
    (txid : ℕ) (db_data : CString)
    → length (all_bytes (head_chunks txid db_data)) ≡ 22 + length db_data
unfolding to_bytes
length-head txid db_data =
    omega (arith, length-append db_data (0 ∷ (to_bytes 4 1 ++ (to_bytes 4 1 ++ 10 ∷ []))))

padding_chunk-Exact :
    (txid : ℕ) (db_data : CString)
    → length db_data + 22 ≤ max_journal_entry_size
    → Exact (length (all_bytes (head_chunks txid db_data))) (padding_chunk db_data ∷ [])
padding_chunk-Exact txid db_data h =
    let size = length-head txid db_data in
    let zeros = length-replicate {A = ℕ} (remaining_bytes db_data) 0 in
    (omega (arith, size), omega (arith, zeros), tt)

-- the padding, behind the other writes
pad_undoes :
    (o : ℕ → Outcome) (txid : ℕ) (db_data : CString) (base : List ℕ)
    → AllOrNone o
    → length db_data + 22 ≤ max_journal_entry_size
    → (pad o db_data (base ++ all_bytes (head_chunks txid db_data), true)
        ≡ some (status_of (base ++ entry_bytes txid db_data, true)))
      ⊎ (pad o db_data (base ++ all_bytes (head_chunks txid db_data), true)
          ≡ some (status_of (base, false)))
pad_undoes o txid db_data base f h =
    let narrow : ltb (max_journal_entry_size - 22) (length db_data) ≡ false = ground arith in
    let head = all_bytes (head_chunks txid db_data) in
    let whole : base ++ (head ++ all_bytes (padding_chunk db_data ∷ []))
        ≡ base ++ entry_bytes txid db_data =
      ap (λ l. base ++ l)
        (ap (λ l. head ++ l) (append-nil _) ∙ all_bytes-entry_bytes txid db_data) in
    elim (write_chunks_undoes o 7 (padding_chunk db_data ∷ []) base head f
      (padding_chunk-Exact txid db_data h)) [
        | inl p ↦ inl (rw narrow (ap (λ r. some (status_of r)) (p ∙ ap (λ l. (l, true)) whole)))
        | inr p ↦ inr (rw narrow (ap (λ r. some (status_of r)) p))
      ]

-- log_transaction, on data that fits, with a file that opens and a mutex that is free, where each fwrite takes all its bytes or
-- fails, and no fflush fails: it returns 0 and has added one whole entry to the log, or it returns -1 and
-- has left the log as it was; in both cases it has released the mutex.
pub log_transaction_atomic :
    (o : ℕ → Outcome) (txid : ℕ) (db_data : CString) (j : JournalState)
    → AllOrNone o
    → j.locked ≡ false
    → length db_data + 22 ≤ max_journal_entry_size
    → (log_transaction true o txid db_data j
        ≡ some (
          record { tx_log = some (old_log j ++ entry_bytes txid db_data); locked = false },
          pos 0,
        ))
      ⊎ (log_transaction true o txid db_data j
          ≡ some (record { tx_log = some (old_log j); locked = false }, negsuc 0))
unfolding log_transaction
log_transaction_atomic o txid db_data j f free fits =
    let start : log_transaction true o txid db_data j
        ≡ pad o db_data (write_chunks o 0 (head_chunks txid db_data) (old_log j)) =
      rw (free, log_transaction) refl in
    let none_yet : old_log j ++ [] ≡ old_log j = append-nil (old_log j) in
    elim (write_chunks_undoes o 0 (head_chunks txid db_data) (old_log j) [] f
      (head_chunks-Exact txid db_data fits)) [
        | inl p ↦
            let begun =
              start
              ∙ ap (pad o db_data)
                  (ap (write_chunks o 0 (head_chunks txid db_data)) (sym none_yet) ∙ p) in
            elim (pad_undoes o txid db_data (old_log j) f fits) [
              | inl q ↦ inl (begun ∙ q)
              | inr q ↦ inr (begun ∙ q)
            ]
        | inr p ↦ inr (
            start
            ∙ ap (pad o db_data)
                (ap (write_chunks o 0 (head_chunks txid db_data)) (sym none_yet) ∙ p))
      ]
