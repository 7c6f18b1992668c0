-- ===== src/Journal/Entry.antt =====
-- The bytes of a journal entry of journal.c, and their reader.
use cse511_lab.Prelude.{
  take_front, drop_front, drop_second, ℕ, ◌+◌, ◌≤◌, ◌<◌, ◌^◌, List, [], ◌∷◌, ◌++◌, some, ◌≡◌, refl,
  sym, ap, ◌∙◌, false, arith, ltb, length, take, drop, replicate, to_bytes, of_bytes, length-append,
  length-to_bytes, length-replicate, of_bytes-to_bytes, take-append, drop-drop,
}
use cse511_lab.CString.{CString}
use cse511_lab.Journal.{max_journal_entry_size, remaining_bytes, unmarshall_journal_entry}

-- the padded bytes of an entry with its two flags
abbrev pub entry_bytes : ℕ → CString → List ℕ
entry_bytes txid db_data =
    to_bytes 4 txid
    ++ (to_bytes 8 (length db_data)
        ++ (db_data
            ++ 0 ∷ (to_bytes 4 1 ++ (to_bytes 4 1 ++ 10 ∷ replicate (remaining_bytes db_data) 0))))

pub length-entry_bytes :
    (txid : ℕ) (db_data : CString)
    → length db_data + 22 ≤ max_journal_entry_size
    → length (entry_bytes txid db_data) ≡ max_journal_entry_size
length-entry_bytes txid db_data h =
    let n = remaining_bytes db_data in
    let pad = replicate n 0 in
    let flags = to_bytes 4 1 ++ 10 ∷ pad in
    omega (
      arith,
      length-append (to_bytes 4 txid)
          (to_bytes 8 (length db_data) ++ (db_data ++ 0 ∷ (to_bytes 4 1 ++ flags))),
      length-append (to_bytes 8 (length db_data)) (db_data ++ 0 ∷ (to_bytes 4 1 ++ flags)),
      length-append db_data (0 ∷ (to_bytes 4 1 ++ flags)),
      length-append (to_bytes 4 1) flags,
      length-append (to_bytes 4 1) (10 ∷ pad),
      length-to_bytes 4 txid,
      length-to_bytes 8 (length db_data),
      length-to_bytes 4 1,
      length-replicate {A = ℕ} n 0,
    )

-- the fields of an entry, read one by one
read_back :
    (e : List ℕ) (n txid : ℕ) (db_data : CString)
    → ltb (length e) (4 + 8 + (n + 1) + 4 + 4) ≡ false
    → of_bytes (take 8 (drop 4 e)) ≡ n
    → of_bytes (take 4 e) ≡ txid
    → take n (drop (4 + 8) e) ≡ db_data
    → of_bytes (take 4 (drop (4 + 8 + (n + 1)) e)) ≡ 1
    → of_bytes (take 4 (drop (4 + 8 + (n + 1) + 4) e)) ≡ 1
    → unmarshall_journal_entry e
      ≡ some (record { txid = txid; db_data = db_data; valid = 1; committed = 1 })
unfolding unmarshall_journal_entry
read_back e n txid db_data whole prefix number text valid committed =
    rw (prefix, whole, number, text, valid, committed)

-- What log_transaction writes for a transaction, unmarshall_journal_entry reads back: its number,
-- its data, and both flags set. The number fits into 4 bytes and the data into the entry.
pub unmarshall_journal_entry-entry_bytes :
    (txid : ℕ) (db_data : CString)
    → txid < 256 ^ 4
    → length db_data + 22 ≤ max_journal_entry_size
    → unmarshall_journal_entry (entry_bytes txid db_data)
      ≡ some (record { txid = txid; db_data = db_data; valid = 1; committed = 1 })
unmarshall_journal_entry-entry_bytes txid db_data h k =
    let e = entry_bytes txid db_data in
    let n = length db_data in
    let pad : List ℕ = 10 ∷ replicate (remaining_bytes db_data) 0 in
    let flags : List ℕ = to_bytes 4 1 ++ (to_bytes 4 1 ++ pad) in
    let body : List ℕ = db_data ++ 0 ∷ flags in
    let size : n < 256 ^ 8 = omega arith in
    let one : 1 < 256 ^ 4 = omega arith in
    let whole : ltb (length e) (4 + 8 + (n + 1) + 4 + 4) ≡ false =
      ground (arith, length-entry_bytes txid db_data k) in
    let number : of_bytes (take 4 e) ≡ txid =
      ap of_bytes (take_front 4 (to_bytes 4 txid) (to_bytes 8 n ++ body) (length-to_bytes 4 txid))
      ∙ of_bytes-to_bytes 4 txid h in
    let prefix : of_bytes (take 8 (drop 4 e)) ≡ n =
      ap (λ l. of_bytes (take 8 l))
        (drop_front 4 (to_bytes 4 txid) (to_bytes 8 n ++ body) (length-to_bytes 4 txid))
      ∙ ap of_bytes (take_front 8 (to_bytes 8 n) body (length-to_bytes 8 n))
      ∙ of_bytes-to_bytes 8 n size in
    let behind : drop (4 + 8) e ≡ body =
      drop_second (4 + 8) (to_bytes 4 txid) (to_bytes 8 n) body
        (omega (arith, length-to_bytes 4 txid, length-to_bytes 8 n)) in
    let text : take n (drop (4 + 8) e) ≡ db_data =
      ap (take n) behind ∙ take-append db_data (0 ∷ flags) in
    let rest : drop (4 + 8 + (n + 1)) e ≡ flags =
      sym (drop-drop (4 + 8) (n + 1) e)
      ∙ ap (drop (n + 1)) behind
      ∙ drop_second (n + 1) db_data (0 ∷ []) flags refl in
    let valid : of_bytes (take 4 (drop (4 + 8 + (n + 1)) e)) ≡ 1 =
      ap (λ l. of_bytes (take 4 l)) rest
      ∙ ap of_bytes (take_front 4 (to_bytes 4 1) (to_bytes 4 1 ++ pad) (length-to_bytes 4 1))
      ∙ of_bytes-to_bytes 4 1 one in
    let committed : of_bytes (take 4 (drop (4 + 8 + (n + 1) + 4) e)) ≡ 1 =
      ap (λ l. of_bytes (take 4 l))
        (sym (drop-drop (4 + 8 + (n + 1)) 4 e)
          ∙ ap (drop 4) rest
          ∙ drop_front 4 (to_bytes 4 1) (to_bytes 4 1 ++ pad) (length-to_bytes 4 1))
      ∙ ap of_bytes (take_front 4 (to_bytes 4 1) pad (length-to_bytes 4 1))
      ∙ of_bytes-to_bytes 4 1 one in
    read_back (entry_bytes txid db_data) n txid db_data whole prefix number text valid committed
