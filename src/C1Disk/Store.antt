-- ===== src/C1Disk/Store.antt =====
-- The numbered files of c1.c, their index, and the calls that c0.c and server-part1.c make:
-- c1_batch_insert and c1_get. The file that
-- dump_metadata writes at the end of update_sstable is in Metadata.antt and not part of the store.
use cse511_lab.Prelude.{
  ℕ, zero, suc, ◌+◌, ◌*◌, ◌/◌, Bool, true, false, List, [], ◌∷◌, Option, none, some, ◌>>=◌, ltb,
  ◌==◌, if◌then◌else◌, length, get_elem?, get_or, set, map, replicate,
}
use cse511_lab.Prelude.Signed.{ℤ, pos, negsuc}
use cse511_lab.CString.{CString}
use cse511_lab.C0Tree.{Entry}
use cse511_lab.C1Disk.{Block, line_size, format_line, merge, c1_search}

-- `charset` with its terminator, which strchr finds too
abbrev pub charset : CString
charset =
    48 ∷ 49 ∷ 50 ∷ 51 ∷ 52 ∷ 53 ∷ 54 ∷ 55 ∷ 56 ∷ 57 ∷ 65 ∷ 66 ∷ 67 ∷ 68 ∷ 69 ∷ 70 ∷ 71 ∷ 72 ∷ 73
    ∷ 74 ∷ 75 ∷ 76 ∷ 77 ∷ 78 ∷ 79 ∷ 80 ∷ 81 ∷ 82 ∷ 83 ∷ 84 ∷ 85 ∷ 86 ∷ 87 ∷ 88 ∷ 89 ∷ 90 ∷ 97 ∷ 98
    ∷ 99 ∷ 100 ∷ 101 ∷ 102 ∷ 103 ∷ 104 ∷ 105 ∷ 106 ∷ 107 ∷ 108 ∷ 109 ∷ 110 ∷ 111 ∷ 112 ∷ 113 ∷ 114
    ∷ 115 ∷ 116 ∷ 117 ∷ 118 ∷ 119 ∷ 120 ∷ 121 ∷ 122 ∷ 0 ∷ []

-- `strchr(s, c) - s`
unfoldable pub position : ℕ → List ℕ → Option ℕ
position c [] = none
position c (x ∷ xs) = elim (x == c) [ true ↦ some 0 | false ↦ position c xs >>= λ i. some (suc i) ]

-- none for -1, an index outside every array
unfoldable pub char_to_idx : ℕ → Option ℕ
unfolding position
char_to_idx c = position c charset

abbrev pub index_size : ℕ
index_size = 62

-- `c1_metadata`: a counter and offsets, where none is -1
pub record Metadata : Type 0 where
  pub counter_value : Option ℕ
  pub ssindex : List (Option ℕ)

-- The files of DB_DIR by their number, `file_counter` (none is -1) and `metadata`.
pub record Store : Type 0 where
  pub files : ℕ → Option (List Block)
  pub file_counter : Option ℕ
  pub metadata : Metadata

-- The loop of `update_sstable` from line `n` on; none where it reads outside `boolmask`.
unfoldable pub index_lines : List Block → ℕ → List Bool → List (Option ℕ) → Option (List (Option ℕ))
unfolding char_to_idx
index_lines [] n boolmask ssindex = some ssindex
index_lines (b ∷ bs) n boolmask ssindex = do
  idx ← char_to_idx (get_or b 0 0)
  seen ← get_elem? boolmask idx
  elim seen [
    | true ↦ index_lines bs (n + 1) boolmask ssindex
    | false ↦
        index_lines bs (n + 1) (set boolmask idx true) (set ssindex idx (some (n * line_size)))
  ]

-- `if (md->ssindex[i] == 0) md->ssindex[i] = -1;`
abbrev pub drop_zero : Option ℕ → Option ℕ
drop_zero none = none
drop_zero (some o) = if o == 0 then none else some o

unfoldable pub update_sstable : List Block → Option ℕ → Metadata → Option Metadata
unfolding index_lines
update_sstable file counter md = do
  ssindex ← index_lines file 0 (replicate index_size false) md.ssindex
  some (record { counter_value = counter; ssindex = map drop_zero ssindex })

-- `++file_counter`
abbrev pub next_counter : Option ℕ → ℕ
next_counter none = 0
next_counter (some n) = suc n

abbrev pub write_file : ℕ → List Block → (ℕ → Option (List Block)) → ℕ → Option (List Block)
write_file n bs files k = if k == n then some bs else files k

-- Which files the calls of `open` and `fopen` succeed on: the new one, the old one, the merged one,
-- and the one that is read at the end.
pub record Opens : Type 0 where
  pub new_opens : Bool
  pub old_opens : Bool
  pub merged_opens : Bool
  pub current_opens : Bool

-- a file that is read: it is there, and opens
abbrev pub open_file : Bool → Option (List Block) → Option (List Block)
open_file ok file = if ok then file else none

-- `merge(file1, file2)` with its counter and its new file
unfoldable pub merge_files : Bool → List Block → List Block → Store → Option (Store × ℤ)
merge_files opens file1 file2 st =
    let n = next_counter st.file_counter in
    if opens
    then (do
      out ← merge file1 file2
      some (record st { files = write_file n out st.files; file_counter = some n }, pos 0))
    else some (record st { file_counter = some n }, negsuc 0)

-- `if (file_counter > 0) …`, where the new file has the number and the records
unfoldable pub merge_old : Opens → ℕ → List Block → Store → Option (Store × ℤ)
unfolding merge_files
merge_old o zero file st = some (st, pos 0)
merge_old o (suc n) file st = elim (open_file o.old_opens (st.files n)) [
  | none ↦ some (st, negsuc 0)
  | some old ↦ merge_files o.merged_opens file old st
]

-- The end of `c1_batch_insert`: the index of the current file. On a file that does not open, the code
-- closes NULL.
unfoldable pub index_current : Opens → Store × ℤ → Option (Store × ℤ)
unfolding update_sstable
index_current o (st, negsuc n) = some (st, negsuc n)
index_current o (st, pos n) = do
  number ← st.file_counter
  file ← open_file o.current_opens (st.files number)
  md ← update_sstable file st.file_counter st.metadata
  some (record st { metadata = md }, pos 0)

-- `c1_batch_insert`, none where it is undefined
unfoldable pub c1_batch_insert : Opens → List Entry → Store → Option (Store × ℤ)
unfolding merge_old index_current
c1_batch_insert o nodes st =
    let n = next_counter st.file_counter in
    let file = map format_line nodes in
    if o.new_opens
    then merge_old o n file
        (record st { files = write_file n file st.files; file_counter = some n })
      >>= index_current o
    else some (record st { file_counter = some n }, negsuc 0)

-- `startline`
abbrev pub start_line : Option ℕ → ℕ
start_line none = 0
start_line (some offset) = offset / line_size

-- `endline`, cut to the number of lines
abbrev pub end_line : ℕ → Option ℕ → ℕ
end_line numlines none = numlines
end_line numlines (some offset) =
    if ltb numlines (offset / line_size) then numlines else offset / line_size

-- `c1_get`; the inner option is NULL, the outer one also none where the code reads outside `ssindex`
unfoldable pub c1_get : Bool → CString → Store → Option (Option CString)
unfolding char_to_idx
c1_get opens key st = elim (open_file opens (st.file_counter >>= st.files)) [
  | none ↦ some none
  | some file ↦ do
    idx ← char_to_idx (get_or key 0 0)
    start ← get_elem? st.metadata.ssindex idx
    stop ← get_elem? st.metadata.ssindex (idx + 1)
    c1_search (length file + 1) file key (start_line start) (end_line (length file) stop)
]
