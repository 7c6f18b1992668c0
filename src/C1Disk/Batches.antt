-- ===== src/C1Disk/Batches.antt =====
-- Batches that c1_batch_insert of c1.c stores one behind the other, and c1_get of their keys.
use cse511_lab.Prelude.{
  ℕ, suc, ◌<◌, true, List, [], ◌∷◌, Option, none, some, ◌>>=◌, ◌≡◌, refl, ap, ◌∙◌, All, All-imp,
  ◌≢◌, Ordering-cases, inl, inr,
}
use cse511_lab.Prelude.Signed.{pos, negsuc}
use cse511_lab.CString.{CString, strcmp}
use cse511_lab.C0Tree.{Entry}
use cse511_lab.C0Tree.Ascending.{find}
use cse511_lab.C1Disk.{Block, merge}
use cse511_lab.C1Disk.Appended.{all_open, write_file_self, write_file_before}
use cse511_lab.C1Disk.Fresh.{IsUnset}
use cse511_lab.C1Disk.Fused.{
  fused, AllCovered, fused-All, fused-All_old, fused-IsAscending, merged-fused,
}
use cse511_lab.C1Disk.Oldest.{or_else, find-fused}
use cse511_lab.C1Disk.Holds.{
  IsBatch, Holds, index_current-Holds, IsIndexOf-IsUnsetOutside, c1_get-Holds,
}
use cse511_lab.C1Disk.Line.{format_lines}
use cse511_lab.C1Disk.Merge.{merge-merged}
use cse511_lab.C1Disk.Ranges.{key_idx}
use cse511_lab.C1Disk.Search.{value_of}
use cse511_lab.C1Disk.Store.{
  Store, Metadata, next_counter, index_current, index_size, write_file, merge_files, merge_old,
  c1_batch_insert, c1_get,
}

-- the calls one behind the other; none where one does not return 0
unfoldable pub insert_batches : List (List Entry) → Store → Option Store
insert_batches [] st = some st
insert_batches (b ∷ bs) st = c1_batch_insert all_open b st >>= λ (st', answer). elim answer [
  | pos n ↦ insert_batches bs st'
  | negsuc n ↦ none
]

-- what the first batch that has the key says of it
unfoldable pub find_first : CString → List (List Entry) → Option Entry
find_first key [] = none
find_first key (b ∷ bs) = or_else (find key b) (find_first key bs)

fused_nonempty : (new old : List Entry) → old ≢ [] → fused new old ≢ []
unfolding fused
fused_nonempty [] old h p = h p
fused_nonempty (e ∷ new) [] h p = h refl
fused_nonempty (e ∷ new) (f ∷ old) h p = elim (Ordering-cases (strcmp e.key f.key)) [
  | inl o ↦ let q = rw (o, fused) at p in cc
  | inr (inl o) ↦ let q = rw (o, fused) at p in cc
  | inr (inr o) ↦ let q = rw (o, fused) at p in cc
]

fused-IsBatch : (new old : List Entry) → IsBatch new → IsBatch old → IsBatch (fused new old)
fused-IsBatch new old a b = record {
  nonempty = λ p. fused_nonempty new old b.nonempty p;
  storable = fused-All _ new old a.storable b.storable;
  ascending = fused-IsAscending new old a.ascending b.ascending;
  indexed = fused-All _ new old a.indexed b.indexed;
  valid = fused-All _ new old a.valid b.valid;
}

merge_old_writes :
    (n : ℕ) (file old out : List Block) (st : Store)
    → st.files n ≡ some old
    → merge file old ≡ some out
    → merge_old all_open (suc n) file st
      ≡ some (
        record st {
          files = write_file (next_counter st.file_counter) out st.files;
          file_counter = some (next_counter st.file_counter);
        },
        pos 0,
      )
unfolding merge_old merge_files
merge_old_writes n file old out st p q = rw (p, merge_old) (rw q refl)

-- a batch behind which the current file does not end goes into it
pub c1_batch_insert_refines :
    (new old : List Entry) (st : Store)
    → Holds old st
    → IsBatch new
    → AllCovered new old
    → (st' : Store) × (c1_batch_insert all_open new st ≡ some (st', pos 0))
      × Holds (fused new old) st'
unfolding c1_batch_insert
c1_batch_insert_refines [] old st h b c = absurd (b.nonempty refl)
c1_batch_insert_refines (e ∷ es) old st h b c =
    let n = h.number in
    let new = e ∷ es in
    let out = format_lines (fused new old) in
    let files = write_file (suc n) (format_lines new) st.files in
    let end : Store = record st {
      files = write_file (suc (suc n)) out files;
      file_counter = some (suc (suc n));
    } in
    let wrote : merge (format_lines new) (format_lines old) ≡ some out =
      merge-merged e es old b.storable h.batch.storable
      ∙ ap some (merged-fused new old b.ascending b.valid h.batch.valid c) in
    let there : files n ≡ some (format_lines old) =
      write_file_before n (format_lines new) st.files ∙ h.file in
    let (st', p, held) =
      index_current-Holds (fused new old) (suc (suc n)) end (fused-IsBatch new old b h.batch) refl
        (write_file_self (suc (suc n)) out files)
        (IsIndexOf-IsUnsetOutside old (fused new old) st.metadata.ssindex
          (λ i. fused-All_old _ new old) h.index) in
    let written : Store = record st { files = files; file_counter = some (suc n) } in
    let merge_step =
      merge_old_writes n (format_lines new) (format_lines old) out written there wrote in
    (st', rw h.current (ap (λ o. o >>= index_current all_open) merge_step ∙ p), held)

-- and the first batch of a store without files becomes its file
pub c1_batch_insert_first :
    (es : List Entry) (files : ℕ → Option (List Block)) (md : Metadata)
    → IsBatch es
    → IsUnset md.ssindex
    → (st : Store) × (c1_batch_insert all_open es
          (record { files = files; file_counter = none; metadata = md })
        ≡ some (st, pos 0))
      × Holds es st
unfolding c1_batch_insert merge_old
c1_batch_insert_first es files md b u =
    index_current-Holds es 0
      (record {
        files = write_file 0 (format_lines es) files;
        file_counter = some 0;
        metadata = md;
      })
      b refl refl (λ i less. let (old, e, p) = u i less in (old, e, λ _. p))

-- the batches behind the first one, each with a key that is not before the last one of the first
abbrev pub AllFit : List Entry → List (List Entry) → Type 0
AllFit first = All (λ b. IsBatch b × AllCovered b first)

AllCovered-fused : (b new old : List Entry) → AllCovered b old → AllCovered b (fused new old)
AllCovered-fused b new old c = All-imp (λ x h below. h (fused-All_old _ new old below)) b c

AllFit-fused :
    (bs : List (List Entry)) (new old : List Entry) → AllFit old bs → AllFit (fused new old) bs
AllFit-fused bs new old f = All-imp (λ b h. (h.0, AllCovered-fused b new old h.1)) bs f

or_else_assoc : (x y z : Option Entry) → or_else (or_else x y) z ≡ or_else x (or_else y z)
unfolding or_else
or_else_assoc none y z = refl
or_else_assoc (some e) y z = refl

or_else-end : (x : Option Entry) → x ≡ or_else x none
unfolding or_else
or_else-end none = refl
or_else-end (some e) = refl

find-batches :
    (es : List Entry) (st : Store) (bs : List (List Entry)) (key : CString) (k : ℕ)
    → Holds es st
    → AllFit es bs
    → key_idx key ≡ some k
    → suc k < index_size
    → (st' : Store) × (insert_batches bs st ≡ some st')
      × (c1_get true key st' ≡ some (value_of (or_else (find key es) (find_first key bs))))
unfolding insert_batches find_first or_else
find-batches es st [] key k h f p less = (
  st,
  refl,
  c1_get-Holds es st key k h p less ∙ ap (λ o. some (value_of o)) (or_else-end (find key es)),
)
find-batches es st (b ∷ bs) key k h ((batch, c), f) p less =
    let (st1, inserted, held) = c1_batch_insert_refines b es st h batch c in
    let (st', rest, got) =
      find-batches (fused b es) st1 bs key k held (AllFit-fused bs b es f) p less in
    let same =
      ap (λ o. or_else o (find_first key bs))
        (find-fused key b es batch.ascending h.batch.ascending)
      ∙ or_else_assoc (find key es) (find key b) (find_first key bs) in
    (st', rw (inserted, insert_batches) rest, got ∙ ap (λ o. some (value_of o)) same)

-- A store without files and offsets, and batches of valid and storable entries in ascending order whose
-- keys start with a byte of charset, none of them with a key behind the last one of the first batch: each
-- call of c1_batch_insert returns 0, and c1_get then answers each key but those of the last index with
-- its value in the first of the batches that has the key, and with NULL where none has it.
pub c1_get-batches :
    (first : List Entry) (bs : List (List Entry)) (key : CString) (k : ℕ)
    (files : ℕ → Option (List Block)) (md : Metadata)
    → IsBatch first
    → AllFit first bs
    → IsUnset md.ssindex
    → key_idx key ≡ some k
    → suc k < index_size
    → (st : Store) × (insert_batches
          (first ∷ bs)
          (record { files = files; file_counter = none; metadata = md })
        ≡ some st)
      × (c1_get true key st ≡ some (value_of (find_first key (first ∷ bs))))
unfolding insert_batches find_first
c1_get-batches first bs key k files md b f u p less =
    let (st1, inserted, held) = c1_batch_insert_first first files md b u in
    let (st, rest, got) = find-batches first st1 bs key k held f p less in
    (st, rw (inserted, insert_batches) rest, got)
