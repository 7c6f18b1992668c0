-- ===== src/C1Disk.antt =====
-- c1.c and c1.h: the part of the store on disk. A file is the list of its records of LINE_SIZE
-- bytes; `none` is undefined behaviour of the C code: a read of a variable that sscanf did not
-- set, or an access outside an array. Reads and writes of an open file succeed.
pub mod Line
pub mod Merge
pub mod Search
pub mod Store
pub mod Metadata
pub mod Charset
pub mod Index
pub mod Ranges
pub mod Lookup
pub mod Appended
pub mod Fused
pub mod Oldest
pub mod Fresh
pub mod Holds
pub mod Batches
pub mod Tests
use Prim.Native.Nat.Ordering.{lt, eq, gt}
use cse511_lab.Prelude.{
  ℕ, zero, suc, ◌+◌, ◌-◌, ◌*◌, ◌/◌, Bool, true, false, List, [], ◌∷◌, ◌++◌, Option, none, some,
  ◌>>=◌, ltb, ◌==◌, if◌then◌else◌, length, get_elem?, take, replicate,
}
use cse511_lab.CString.{CString, strcmp, until_nul, scan_word, scan_int, print_int}
use cse511_lab.C0Tree.{Entry}

-- `LINE_SIZE` of common.h
abbrev pub line_size : ℕ
line_size = 431

-- a record of a file, or a buffer that holds one
abbrev pub Block : Type 0
Block = List ℕ

-- what `calloc(LINE_SIZE, 1)` returns
abbrev pub empty_block : Block
empty_block = replicate line_size 0

abbrev pub line_text : Entry → CString
line_text e = e.key ++ 32 ∷ (e.value ++ 32 ∷ (print_int e.flag ++ 10 ∷ []))

-- `snprintf(keyval, LINE_SIZE, "%s %s %d\n", …)` on a fresh buffer
unfoldable pub format_line : Entry → Block
format_line e =
    let text = take (line_size - 1) (line_text e) in text ++ replicate (line_size - length text) 0

-- `sscanf(line, "%ms %ms %d", …)`, where it sets all three
unfoldable pub parse_line : Block → Option Entry
unfolding until_nul scan_word scan_int
parse_line b = do
  (key, s) ← scan_word (until_nul b)
  (value, t) ← scan_word s
  (flag, _) ← scan_int t
  some (record { key = key; value = value; flag = flag })

-- A buffer and its file after `if (line == NULL) …`: a record, or the end of the file.
pub data Filled : Type 0 where
  got : Block → List Block → Filled
  ended : Filled

unfoldable pub fill : Option Block → List Block → Filled
fill (some b) file = got b file
fill none (b ∷ file) = got b file
fill none [] = ended

-- `if (!valid) write(mergefd, line, LINE_SIZE)`
abbrev pub write_valid : Entry → Block → List Block → List Block
write_valid e b out = if e.flag == 0 then out ++ b ∷ [] else out

-- the variables of `merge` when its loop breaks
pub record Broken : Type 0 where
  pub line1 : Block
  pub rest1 : List Block
  pub size1 : ℕ
  pub line2 : Option Block
  pub rest2 : List Block
  pub size2 : ℕ
  pub out : List Block

-- The `while (1)` of `merge`; `none` also where the fuel runs out.
unfoldable pub merge_loop :
    ℕ → Option Block → List Block → Option Block → List Block → ℕ → List Block → Option Broken
unfolding fill parse_line
merge_loop zero line1 file1 line2 file2 size2 out = none
merge_loop (suc fuel) line1 file1 line2 file2 size2 out = elim (fill line1 file1) [
  | ended ↦ some (record {
    line1 = empty_block;
    rest1 = [];
    size1 = 0;
    line2 = line2;
    rest2 = file2;
    size2 = size2;
    out = out;
  })
  | got b1 rest1 ↦ elim (fill line2 file2) [
    | ended ↦ some (record {
      line1 = b1;
      rest1 = rest1;
      size1 = 1;
      line2 = some empty_block;
      rest2 = [];
      size2 = 0;
      out = out;
    })
    | got b2 rest2 ↦ do
      e1 ← parse_line b1
      e2 ← parse_line b2
      elim (strcmp e1.key e2.key) [
        | lt ↦ merge_loop fuel none rest1 (some b2) rest2 1 (write_valid e1 b1 out)
        | gt ↦ merge_loop fuel (some b1) rest1 none rest2 1 (write_valid e2 b2 out)
        | eq ↦ merge_loop fuel none rest1 none rest2 1 (write_valid e2 b2 out)
      ]
  ]
]

-- `if (line2 != NULL) …` and the copy of the rest of file 2
abbrev pub copy_second : Option Block → List Block → List Block → List Block
copy_second none rest out = out ++ rest
copy_second (some b) rest out = out ++ b ∷ rest

-- The two copies behind the loop; the first one ends with a read that sets `size1` to 0.
unfoldable pub merge_tail : Broken → List Block
merge_tail b =
    if b.size2 == 0
    then copy_second b.line2 b.rest2 (b.out ++ b.line1 ∷ b.rest1)
    else if b.size1 == 0
    then copy_second b.line2 b.rest2 b.out
    else b.out

-- The records that `merge(file1, file2)` writes to the merged file.
unfoldable pub merge : List Block → List Block → Option (List Block)
unfolding merge_loop merge_tail
merge file1 file2 = do
  b ← merge_loop (length file1 + length file2 + 1) none file1 none file2 0 []
  some (merge_tail b)

-- `c1_search(file, key, startline, endline)` with `stop` for `endline + 1`, since `endline` is -1
-- for an empty range; the inner option is NULL, the outer one also none where the fuel runs out.
unfoldable pub c1_search : ℕ → List Block → CString → ℕ → ℕ → Option (Option CString)
unfolding parse_line
c1_search zero file key start stop = none
c1_search (suc fuel) file key start stop = elim (ltb start stop) [
  | false ↦ some none
  | true ↦
      let mid = (stop - 1 - start) / 2 + start in
      do
        b ← get_elem? file mid
        e ← parse_line b
        elim (strcmp e.key key) [
          | eq ↦ some (some e.value)
          | gt ↦ c1_search fuel file key start mid
          | lt ↦ c1_search fuel file key (mid + 1) stop
        ]
]
