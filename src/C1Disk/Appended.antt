-- ===== src/C1Disk/Appended.antt =====
-- c1_batch_insert of c1.c on a batch with a key that comes after all those of the current file.
use cse511_lab.Prelude.{
  ℕ, suc, ◌+◌, Bool, true, false, List, [], ◌∷◌, ◌++◌, Option, none, some, ◌≡◌, refl, ap, ◌∙◌,
  arith, length, get_elem?, get_or, replicate, length-set, get_elem?_at_length, length-replicate,
  Bool-cases, Option-cases, Ordering-cases, inl, inr, ◌==◌, ◌>>=◌,
}
use cse511_lab.CString.Order.{gt_of_lt}
use cse511_lab.CString.{strcmp}
use cse511_lab.C0Tree.{Entry}
use cse511_lab.C0Tree.Ascending.{Below}
use cse511_lab.C1Disk.{Block, empty_block, merge}
use cse511_lab.C1Disk.Line.{AllStorable, format_lines}
use cse511_lab.C1Disk.Merge.{merged, keep, merge-merged}
use cse511_lab.C1Disk.Store.{
  Store, Opens, Metadata, char_to_idx, index_size, index_lines, update_sstable, write_file,
  merge_files, merge_old, index_current, c1_batch_insert,
}

keep-append : (e : Entry) (bs cs : List Block) → keep e (bs ++ cs) ≡ keep e bs ++ cs
keep-append e bs cs = elim (Bool-cases (e.flag == 0)) [ inl v ↦ rw v | inr v ↦ rw v ]

-- the merged file ends with the empty record
merged-Below :
    (e : Entry) (first second : List Entry)
    → Below e.key second
    → (front : List Block) × (merged (e ∷ first) second ≡ front ++ empty_block ∷ [])
unfolding merged
merged-Below e first [] b = (format_lines (e ∷ first), refl)
merged-Below e first (f ∷ second) (p, b) =
    let (front, q) = merged-Below e first second b in
    (
      keep f front,
      rw (gt_of_lt f.key e.key p, merged) (ap (keep f) q ∙ keep-append f front (empty_block ∷ [])),
    )

merged_behind :
    (front back second : List Entry) (e : Entry)
    → Below e.key second
    → (bs : List Block) × (merged (front ++ e ∷ back) second ≡ bs ++ empty_block ∷ [])
unfolding merged
merged_behind [] back second e b = merged-Below e back second b
merged_behind (g ∷ front) back [] e b = (format_lines (g ∷ (front ++ e ∷ back)), refl)
merged_behind (g ∷ front) back (f ∷ second) e (p, b) = elim (Ordering-cases (strcmp g.key f.key)) [
  | inl o ↦
      let (bs, q) = merged_behind front back (f ∷ second) e (p, b) in
      (keep g bs, rw (o, merged) (ap (keep g) q ∙ keep-append g bs (empty_block ∷ [])))
  | inr (inl o) ↦
      let (bs, q) = merged_behind front back second e b in
      (keep f bs, rw (o, merged) (ap (keep f) q ∙ keep-append f bs (empty_block ∷ [])))
  | inr (inr o) ↦
      let (bs, q) = merged_behind (g ∷ front) back second e b in
      (keep f bs, rw (o, merged) (ap (keep f) q ∙ keep-append f bs (empty_block ∷ [])))
]

merge_behind :
    (front back second : List Entry) (e : Entry)
    → AllStorable (front ++ e ∷ back)
    → AllStorable second
    → merge (format_lines (front ++ e ∷ back)) (format_lines second)
      ≡ some (merged (front ++ e ∷ back) second)
merge_behind [] back second e a b = merge-merged e back second a b
merge_behind (g ∷ front) back second e a b = merge-merged g (front ++ e ∷ back) second a b

index_next :
    (b : Block) (bs : List Block) (n : ℕ) (boolmask : List Bool) (ssindex : List (Option ℕ))
    → length boolmask ≡ index_size
    → ((m : ℕ) (bm : List Bool) (si : List (Option ℕ))
        → length bm ≡ index_size
        → index_lines bs m bm si ≡ none)
    → index_lines (b ∷ bs) n boolmask ssindex ≡ none
unfolding index_lines
index_next b bs n boolmask ssindex h rest = elim (Option-cases (char_to_idx (get_or b 0 0))) [
  | inl p ↦ rw (p, index_lines)
  | inr (idx, p) ↦ elim (Option-cases (get_elem? boolmask idx)) [
    | inl q ↦ rw (p, index_lines) (rw q)
    | inr (true, q) ↦ rw (p, index_lines) (rw q (rest (n + 1) boolmask ssindex h))
    | inr (false, q) ↦
        rw (p, index_lines) (rw q (rest (n + 1) _ _ (length-set boolmask idx true ∙ h)))
  ]
]

out_of_mask : (bm : List Bool) → length bm ≡ index_size → get_elem? bm index_size ≡ none
out_of_mask bm h = get_elem?_at_length bm index_size h

-- a record of zeros has the index of the terminator of `charset`
index_empty :
    (front : List Block) (n : ℕ) (boolmask : List Bool) (ssindex : List (Option ℕ))
    → length boolmask ≡ index_size
    → index_lines (front ++ empty_block ∷ []) n boolmask ssindex ≡ none
index_empty [] n boolmask ssindex h =
    unfold index_lines in unfold char_to_idx in rw (out_of_mask boolmask h)
index_empty (b ∷ front) n boolmask ssindex h =
    index_next b (front ++ empty_block ∷ []) n boolmask ssindex h
      λ m bm si k. index_empty front m bm si k

-- every file opens
abbrev pub all_open : Opens
all_open = record { new_opens = true; old_opens = true; merged_opens = true; current_opens = true }

pub write_file_self :
    (k : ℕ) (bs : List Block) (files : ℕ → Option (List Block)) → write_file k bs files k ≡ some bs
write_file_self k bs files = let same : (k == k) ≡ true = ground arith in rw same

pub write_file_before :
    (k : ℕ) (bs : List Block) (files : ℕ → Option (List Block))
    → write_file (suc k) bs files k ≡ files k
write_file_before k bs files = let other : (k == suc k) ≡ false = ground arith in rw other

update_sstable_empty :
    (front : List Block) (counter : Option ℕ) (md : Metadata)
    → update_sstable (front ++ empty_block ∷ []) counter md ≡ none
unfolding update_sstable
update_sstable_empty front counter md = rw (
    index_empty front 0 (replicate index_size false) md.ssindex (length-replicate index_size false))

merge_and_index :
    (k : ℕ) (file1 file2 front out : List Block) (files : ℕ → Option (List Block)) (md : Metadata)
    → merge file1 file2 ≡ some out
    → out ≡ front ++ empty_block ∷ []
    → (merge_files true file1 file2 (record { files = files; file_counter = some k; metadata = md })
        >>= index_current all_open)
      ≡ none
unfolding merge_files index_current
merge_and_index k file1 file2 front out files md h q =
    rw (h, merge_files)
      (rw (write_file_self (suc k) out files, index_current)
        (rw (
          ap (λ f. update_sstable f (some (suc k)) md) q
          ∙ update_sstable_empty front (some (suc k)) md)))

merge_old_open :
    (n : ℕ) (file old : List Block) (st : Store)
    → st.files n ≡ some old
    → merge_old all_open (suc n) file st ≡ merge_files true file old st
unfolding merge_old
merge_old_open n file old st h = rw (h, merge_old)

-- When all files open, and a file is there, a batch of storable entries of which one comes after all keys
-- of that file leads c1_batch_insert into undefined behaviour: the merged file ends with an empty record,
-- and update_sstable reads its index outside of its array.
pub c1_batch_insert_above :
    (front back second : List Entry) (e : Entry) (n : ℕ) (st : Store)
    → AllStorable (front ++ e ∷ back)
    → AllStorable second
    → Below e.key second
    → st.file_counter ≡ some n
    → st.files n ≡ some (format_lines second)
    → c1_batch_insert all_open (front ++ e ∷ back) st ≡ none
unfolding c1_batch_insert
c1_batch_insert_above front back second e n st a b below counter there =
    let es = front ++ e ∷ back in
    let (bs, q) = merged_behind front back second e below in
    let file = format_lines es in
    let files = write_file (suc n) file st.files in
    rw (counter, c1_batch_insert)
      (ap (λ r. r >>= index_current all_open)
          (merge_old_open n file (format_lines second)
            (record { files = files; file_counter = some (suc n); metadata = st.metadata })
            (write_file_before n file st.files ∙ there))
        ∙ merge_and_index (suc n) file (format_lines second) bs (merged es second) files st.metadata
            (merge_behind front back second e a b) q)
