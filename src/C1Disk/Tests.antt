-- ===== src/C1Disk/Tests.antt =====
-- Instances of the theorems about c1.c, and tests.
use cse511_lab.Prelude.{
  ℕ, zero, suc, ◌<◌, All, List, [], ◌∷◌, Option, some, ◌≡◌, refl, arith, replicate, none, get_elem?,
  true,
}
use cse511_lab.CString.{strcmp, print_int}
use cse511_lab.CString.Scan.{IsWord}
use cse511_lab.C0Tree.{Entry}
use cse511_lab.C0Tree.Ascending.{IsAscending, Below, find}
use cse511_lab.C1Disk.{empty_block, format_line, c1_search}
use cse511_lab.C1Disk.Line.{IsStorable, format_lines}
use cse511_lab.C1Disk.Metadata.{
  Fits, long_size, marshall_metadata, dump_metadata, load_metadata, load_metadata-dump_metadata,
}
use cse511_lab.C1Disk.Store.{
  Metadata, Store, write_file, index_size, c1_batch_insert, c1_get, char_to_idx,
}
use cse511_lab.C1Disk.Fresh.{AllIndexed, IsUnset}
use cse511_lab.C1Disk.Batches.{insert_batches, find_first, c1_get-batches}
use cse511_lab.C1Disk.Oldest.{or_else}
use cse511_lab.C1Disk.Holds.{IsBatch}
use cse511_lab.C1Disk.Appended.{all_open, c1_batch_insert_above}
use cse511_lab.C1Disk.Merge.{merged}
use cse511_lab.C1Disk.Search.{lines, value_of, c1_search_lem}

-- a valid entry whose key and value are one byte each
abbrev entry : ℕ → ℕ → Entry
entry k v = record { key = k ∷ []; value = v ∷ []; flag = 0 }

IsWord-of_A : IsWord (65 ∷ [])
IsWord-of_A = record { nonempty = λ e. cc; bytes = ((refl, omega arith), tt) }

IsWord-of_B : IsWord (66 ∷ [])
IsWord-of_B = record { nonempty = λ e. cc; bytes = ((refl, omega arith), tt) }

IsStorable-A : IsStorable (entry 65 66)
unfolding print_int
IsStorable-A = record { key_word = IsWord-of_A; value_word = IsWord-of_B; fits = omega arith }

IsStorable-B : IsStorable (entry 66 65)
unfolding print_int
IsStorable-B = record { key_word = IsWord-of_B; value_word = IsWord-of_A; fits = omega arith }

IsStorable-B_new : IsStorable (entry 66 66)
unfolding print_int
IsStorable-B_new = record { key_word = IsWord-of_B; value_word = IsWord-of_B; fits = omega arith }

-- the old record is written
merged_old : merged (entry 66 66 ∷ []) (entry 66 65 ∷ []) ≡ format_line (entry 66 65) ∷ []
unfolding merged strcmp
merged_old = refl

-- behind the last record of the second file an empty one follows
merged_empty_record :
    merged (entry 66 66 ∷ []) (entry 65 66 ∷ [])
    ≡ format_line (entry 65 66) ∷ format_line (entry 66 66) ∷ empty_block ∷ []
unfolding merged strcmp
merged_empty_record = refl

IsAscending-ab : IsAscending (entry 65 66 ∷ entry 66 65 ∷ [])
unfolding IsAscending strcmp
IsAscending-ab = ((refl, tt), (tt, tt))

c1_search_lem_example :
    c1_search 3 (format_lines (entry 65 66 ∷ entry 66 65 ∷ [])) (66 ∷ []) 0 2
    ≡ some (value_of (find (66 ∷ []) (lines (entry 65 66 ∷ entry 66 65 ∷ []) 0 2)))
c1_search_lem_example =
    c1_search_lem 3 (entry 65 66 ∷ entry 66 65 ∷ []) (66 ∷ []) 0 2
      (IsStorable-A, (IsStorable-B, tt)) IsAscending-ab (omega arith) (omega arith)

-- a store whose file 0 holds one record
abbrev one_file : Store
one_file = record {
  files = write_file 0 (format_lines (entry 65 66 ∷ [])) (λ k. none);
  file_counter = some 0;
  metadata = record { counter_value = none; ssindex = replicate index_size (some 0) };
}

c1_batch_insert_above_example :
    c1_batch_insert all_open (entry 65 66 ∷ entry 66 66 ∷ []) one_file ≡ none
unfolding strcmp
c1_batch_insert_above_example =
    c1_batch_insert_above (entry 65 66 ∷ []) [] (entry 65 66 ∷ []) (entry 66 66) 0 one_file
      (IsStorable-A, (IsStorable-B_new, tt)) (IsStorable-A, tt) (refl, tt) refl refl

-- an index whose keys start at 0 and at 431
abbrev metadata : Metadata
metadata = record { counter_value = some 3; ssindex = some 431 ∷ replicate 61 none }

All-Fits_of_none : (n : ℕ) → All (Fits long_size) (replicate n none)
All-Fits_of_none zero = tt
All-Fits_of_none (suc n) = (tt, All-Fits_of_none n)

load_metadata-dump_metadata_example :
    load_metadata (some (marshall_metadata metadata)) none ≡ (metadata, some 3)
unfolding dump_metadata
load_metadata-dump_metadata_example =
    load_metadata-dump_metadata metadata (marshall_metadata metadata) none refl (omega arith)
      (omega arith, All-Fits_of_none 61) refl

abbrev pub file_ab : List Entry
file_ab = entry 65 66 ∷ entry 66 65 ∷ []

-- a store without files, whose offsets are 0 as load_metadata leaves them
abbrev pub no_files : Store
no_files = record {
  files = λ k. none;
  file_counter = none;
  metadata = record { counter_value = none; ssindex = replicate index_size (some 0) };
}

AllIndexed-ab : AllIndexed file_ab
unfolding char_to_idx
AllIndexed-ab = ((10, refl, omega arith), ((11, refl, omega arith), tt))

get_elem?-replicate_zero :
    (n i : ℕ) → i < n → get_elem? {A = Option ℕ} (replicate n (some 0)) i ≡ some (some 0)
get_elem?-replicate_zero zero i h = absurd (omega arith)
get_elem?-replicate_zero (suc n) zero h = refl
get_elem?-replicate_zero (suc n) (suc i) h = get_elem?-replicate_zero n i (omega arith)

pub IsUnset-no_files : IsUnset no_files.metadata.ssindex
IsUnset-no_files i h = (some 0, get_elem?-replicate_zero index_size i h, refl)

-- a batch that gives a key of the first one a new value
abbrev pub update_b : List Entry
update_b = entry 66 66 ∷ []

pub IsBatch-ab : IsBatch file_ab
IsBatch-ab = record {
  nonempty = λ p. cc;
  storable = (IsStorable-A, (IsStorable-B, tt));
  ascending = IsAscending-ab;
  indexed = AllIndexed-ab;
  valid = (refl, (refl, tt));
}

pub IsBatch-update_b : IsBatch update_b
unfolding char_to_idx IsAscending
IsBatch-update_b = record {
  nonempty = λ p. cc;
  storable = (IsStorable-B_new, tt);
  ascending = (tt, tt);
  indexed = ((11, refl, omega arith), tt);
  valid = (refl, tt);
}

pub b_not_behind : ¬ Below (66 ∷ []) file_ab
unfolding strcmp
b_not_behind (p, (q, u)) = cc

c1_get-batches_example :
    (st : Store) × (insert_batches (file_ab ∷ update_b ∷ []) no_files ≡ some st)
    × (c1_get true (66 ∷ []) st ≡ some (value_of (find_first (66 ∷ []) (file_ab ∷ update_b ∷ []))))
unfolding char_to_idx
c1_get-batches_example =
    c1_get-batches file_ab (update_b ∷ []) (66 ∷ []) 11 (λ k. none) no_files.metadata IsBatch-ab
      ((IsBatch-update_b, (b_not_behind, tt)), tt) IsUnset-no_files refl (omega arith)

-- the update does not reach the reader
update_lost : find_first (66 ∷ []) (file_ab ∷ update_b ∷ []) ≡ some (entry 66 65)
unfolding find_first find or_else strcmp
update_lost = refl
