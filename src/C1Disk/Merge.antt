-- ===== src/C1Disk/Merge.antt =====
-- What `merge` of c1.c writes for two files of storable entries.
use Prim.Native.Nat.Ordering.{lt, eq, gt}
use cse511_lab.Prelude.{
  ℕ, zero, suc, ◌+◌, ◌<◌, List, [], ◌∷◌, ◌++◌, Option, none, some, ◌≡◌, refl, ap, ◌∙◌, arith,
  length, ◌==◌, if◌then◌else◌, append_assoc, ◌>>=◌, Bool-cases, Ordering-cases, inl, inr,
}
use cse511_lab.CString.{strcmp}
use cse511_lab.C0Tree.{Entry}
use cse511_lab.C1Disk.{
  Block, empty_block, format_line, parse_line, Filled, got, ended, fill, write_valid, Broken,
  merge_loop, merge_tail, merge, copy_second,
}
use cse511_lab.C1Disk.Line.{parse_line-format_line, AllStorable, format_lines}

-- `if (!valid)`: an invalid entry is left out while both files have records.
abbrev pub keep : Entry → List Block → List Block
keep e bs = if e.flag == 0 then format_line e ∷ bs else bs

-- The records of the merged file: entries in the order of the keys, of two entries with one key
-- the second file's. Behind the last record of the second file, the rest of the first file is
-- copied as it is, and one empty record follows; the rest of the second file is copied as it is.
unfoldable pub merged : List Entry → List Entry → List Block
merged [] second = format_lines second
merged (e1 ∷ first) [] = format_lines (e1 ∷ first) ++ empty_block ∷ []
merged (e1 ∷ first) (e2 ∷ second) = elim (strcmp e1.key e2.key) [
  | lt ↦ keep e1 (merged first (e2 ∷ second))
  | gt ↦ keep e2 (merged (e1 ∷ first) second)
  | eq ↦ keep e2 (merged first second)
]

-- the records that a buffer and its file still hold
abbrev pending : Option Block → List Block → List Block
pending none file = file
pending (some b) file = b ∷ file

abbrev filled : List Block → Filled
filled [] = ended
filled (b ∷ bs) = got b bs

fill_lem : (line : Option Block) (file : List Block) → fill line file ≡ filled (pending line file)
unfolding fill
fill_lem none [] = refl
fill_lem none (b ∷ file) = refl
fill_lem (some b) file = refl

copy_second_lem :
    (line : Option Block) (file out : List Block)
    → copy_second line file out ≡ out ++ pending line file
copy_second_lem none file out = refl
copy_second_lem (some b) file out = refl

abbrev finish : Option Broken → Option (List Block)
finish o = o >>= λ b. some (merge_tail b)

write_valid-keep :
    (e : Entry) (out rest : List Block)
    → write_valid e (format_line e) out ++ rest ≡ out ++ keep e rest
write_valid-keep e out rest = elim (Bool-cases (e.flag == 0)) [
  | inl v ↦ rw v (append_assoc out (format_line e ∷ []) rest)
  | inr i ↦ rw i
]

module _ (fuel : ℕ) (line1 : Option Block) (file1 : List Block) (line2 : Option Block)
    (file2 : List Block) (size2 : ℕ) (out : List Block) where
  first_ended :
      fill line1 file1 ≡ ended
      → size2 ≡ 1
      → finish (merge_loop (suc fuel) line1 file1 line2 file2 size2 out)
        ≡ some (copy_second line2 file2 out)
  unfolding merge_loop merge_tail
  first_ended p k = rw (p, finish, merge_loop) (rw (k, merge_tail))

  second_ended :
      (b1 : Block) (rest1 : List Block)
      → fill line1 file1 ≡ got b1 rest1
      → fill line2 file2 ≡ ended
      → finish (merge_loop (suc fuel) line1 file1 line2 file2 size2 out)
        ≡ some ((out ++ b1 ∷ rest1) ++ empty_block ∷ [])
  unfolding merge_loop merge_tail
  second_ended b1 rest1 p q = rw (p, finish, merge_loop) (rw q)

  both_read :
      (b1 b2 : Block) (rest1 rest2 : List Block) (e1 e2 : Entry)
      → fill line1 file1 ≡ got b1 rest1
      → fill line2 file2 ≡ got b2 rest2
      → parse_line b1 ≡ some e1
      → parse_line b2 ≡ some e2
      → merge_loop (suc fuel) line1 file1 line2 file2 size2 out ≡ (elim (strcmp e1.key e2.key) [
        | lt ↦ merge_loop fuel none rest1 (some b2) rest2 1 (write_valid e1 b1 out)
        | gt ↦ merge_loop fuel (some b1) rest1 none rest2 1 (write_valid e2 b2 out)
        | eq ↦ merge_loop fuel none rest1 none rest2 1 (write_valid e2 b2 out)
      ])
  unfolding merge_loop
  both_read b1 b2 rest1 rest2 e1 e2 p q r t = rw (p, merge_loop) (rw (q, r, t))

-- The loop and the copies behind it, from buffers and files that hold the entries, with a record
-- of the second file read before, or one of the first file left.
merge_loop_lem :
    (fuel : ℕ) (first second : List Entry) (line1 : Option Block) (file1 : List Block)
    (line2 : Option Block) (file2 : List Block) (size2 : ℕ) (out : List Block)
    → AllStorable first
    → AllStorable second
    → pending line1 file1 ≡ format_lines first
    → pending line2 file2 ≡ format_lines second
    → length first + length second < fuel
    → (first ≡ [] → size2 ≡ 1)
    → finish (merge_loop fuel line1 file1 line2 file2 size2 out) ≡ some (out ++ merged first second)
unfolding merge_loop merged
merge_loop_lem zero first second line1 file1 line2 file2 size2 out s1 s2 p1 p2 h k =
    absurd (omega arith)
merge_loop_lem (suc fuel) [] second line1 file1 line2 file2 size2 out s1 s2 p1 p2 h k =
    first_ended fuel line1 file1 line2 file2 size2 out (fill_lem line1 file1 ∙ ap filled p1)
      (k refl)
    ∙ ap some (copy_second_lem line2 file2 out ∙ ap (λ bs. out ++ bs) p2)
merge_loop_lem (suc fuel) (e1 ∷ first) [] line1 file1 line2 file2 size2 out s1 s2 p1 p2 h k =
    second_ended fuel line1 file1 line2 file2 size2 out (format_line e1) (format_lines first)
      (fill_lem line1 file1 ∙ ap filled p1) (fill_lem line2 file2 ∙ ap filled p2)
    ∙ ap some (append_assoc out (format_lines (e1 ∷ first)) (empty_block ∷ []))
merge_loop_lem (suc fuel) (e1 ∷ first) (e2 ∷ second) line1 file1 line2 file2 size2 out s1 s2 p1 p2 h
      k =
    let step =
      both_read fuel line1 file1 line2 file2 size2 out (format_line e1) (format_line e2)
        (format_lines first) (format_lines second) e1 e2 (fill_lem line1 file1 ∙ ap filled p1)
        (fill_lem line2 file2 ∙ ap filled p2) (parse_line-format_line e1 s1.0)
        (parse_line-format_line e2 s2.0) in
    rw step (elim (Ordering-cases (strcmp e1.key e2.key)) [
      | inl o ↦
          rw (o, merged)
            (merge_loop_lem fuel first (e2 ∷ second) none (format_lines first)
                (some (format_line e2)) (format_lines second) 1
                (write_valid e1 (format_line e1) out) s1.1 s2 refl refl (omega arith) (λ _. refl)
              ∙ ap some (write_valid-keep e1 out _))
      | inr (inl o) ↦
          rw (o, merged)
            (merge_loop_lem fuel first second none (format_lines first) none (format_lines second) 1
                (write_valid e2 (format_line e2) out) s1.1 s2.1 refl refl (omega arith) (λ _. refl)
              ∙ ap some (write_valid-keep e2 out _))
      | inr (inr o) ↦
          rw (o, merged)
            (merge_loop_lem fuel (e1 ∷ first) second (some (format_line e1)) (format_lines first)
                none (format_lines second) 1 (write_valid e2 (format_line e2) out) s1 s2.1 refl refl
                (omega arith) (λ _. refl)
              ∙ ap some (write_valid-keep e2 out _))
    ])

pub length-format_lines : (es : List Entry) → length (format_lines es) ≡ length es
length-format_lines [] = refl
length-format_lines (e ∷ es) = ap suc (length-format_lines es)

-- merge of two files of storable entries, the first not empty, ends and writes exactly the records
-- of `merged`: of two entries with one key it keeps the second file's, it leaves out invalid
-- entries while both files have records, and it adds an empty record where the second file runs
-- out first.
pub merge-merged :
    (e : Entry) (first second : List Entry)
    → AllStorable (e ∷ first)
    → AllStorable second
    → merge (format_lines (e ∷ first)) (format_lines second) ≡ some (merged (e ∷ first) second)
unfolding merge
merge-merged e first second s1 s2 =
    merge_loop_lem _ (e ∷ first) second none (format_lines (e ∷ first)) none (format_lines second) 0
      [] s1 s2 refl refl
      (omega (arith, length-format_lines (e ∷ first), length-format_lines second))
      (λ same. absurd (cc))
