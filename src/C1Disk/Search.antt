-- ===== src/C1Disk/Search.antt =====
-- The binary search of c1.c on a range of a sorted file.
use Prim.Native.Nat.Ordering.{lt, eq, gt}
use cse511_lab.Prelude.{
  ℕ, zero, suc, ◌+◌, ◌-◌, ◌/◌, ◌≤◌, ◌<◌, true, false, List, [], ◌∷◌, ◌++◌, Option, none, some, ◌≡◌,
  refl, sym, ap, ap₂, subst, ◌∙◌, arith, length, get_elem?, take, drop, Bool-cases, Ordering-cases,
  inl, inr, ltb, get_elem?-drop, drop-drop, take_at, length-drop,
}
use cse511_lab.CString.{CString, strcmp}
use cse511_lab.CString.Order.{lt_of_gt, gt_of_lt, strcmp_refl, eq_of_strcmp}
use cse511_lab.C0Tree.{Entry}
use cse511_lab.C0Tree.Ascending.{
  IsAscending, find, SplitAt, split_at, find_left, find_right, find_middle, take-IsAscending,
  drop-IsAscending,
}
use cse511_lab.C1Disk.{format_line, c1_search}
use cse511_lab.C1Disk.Line.{IsStorable, parse_line-format_line, AllStorable, format_lines}

-- the entries of the lines from `start` to `stop - 1`
abbrev pub lines : List Entry → ℕ → ℕ → List Entry
lines es start stop = take (stop - start) (drop start es)

-- what a search returns for the entry that it finds
abbrev pub value_of : Option Entry → Option CString
value_of none = none
value_of (some e) = some e.value

get_elem?-format_lines :
    (es : List Entry) (i : ℕ) (e : Entry)
    → get_elem? es i ≡ some e
    → get_elem? (format_lines es) i ≡ some (format_line e)
get_elem?-format_lines [] i e h = cc
get_elem?-format_lines (x ∷ es) zero e h = ground arith
get_elem?-format_lines (x ∷ es) (suc i) e h = get_elem?-format_lines es i e h

get_elem?-All :
    (es : List Entry) (i : ℕ) (e : Entry) → AllStorable es → get_elem? es i ≡ some e → IsStorable e
get_elem?-All [] i e a h = cc
get_elem?-All (x ∷ es) zero e (p, a) h = subst IsStorable (ground arith) p
get_elem?-All (x ∷ es) (suc i) e (p, a) h = get_elem?-All es i e a h

-- the middle line of a range, and the ranges on its two sides
record Middle (es : List Entry) (start mid stop : ℕ) : Type 0 where
  entry : Entry
  found : get_elem? es mid ≡ some entry
  split : lines es start stop ≡ lines es start mid ++ entry ∷ lines es (mid + 1) stop

Middle-of :
    (es : List Entry) (start mid stop : ℕ)
    → start ≤ mid
    → mid < stop
    → stop ≤ length es
    → Middle es start mid stop
Middle-of es start mid stop h k m =
    let (e, found, split) =
      take_at (mid - start) (stop - start) (drop start es) (omega arith)
        (omega (arith, length-drop start es)) in
    let place : start + (mid - start) ≡ mid = omega arith in
    let behind : start + suc (mid - start) ≡ mid + 1 = omega arith in
    let count : stop - start - suc (mid - start) ≡ stop - (mid + 1) = omega arith in
    record {
      entry = e;
      found = ap (get_elem? es) (sym place) ∙ sym (get_elem?-drop start (mid - start) es) ∙ found;
      split =
          split
          ∙ ap (λ r. lines es start mid ++ e ∷ r)
              (ap₂ take count
                (drop-drop start (suc (mid - start)) es ∙ ap (λ i. drop i es) behind));
    }

-- the three outcomes of the comparison with the middle entry
find_in :
    (key : CString) (l : List Entry) (e : Entry) (r : List Entry)
    → IsAscending (l ++ e ∷ r)
    → find key (l ++ e ∷ r)
      ≡ (elim (strcmp e.key key) [ lt ↦ find key r | eq ↦ some e | gt ↦ find key l ])
find_in key l e r s =
    let parts : SplitAt l e r = split_at l e r s in
    elim (Ordering-cases (strcmp e.key key)) [
      | inl o ↦ rw o (find_right key l e r (gt_of_lt e.key key o) parts.below)
      | inr (inl o) ↦
          let same : e.key ≡ key = eq_of_strcmp e.key key o in
          rw o (find_middle key l e r parts.below (ap (strcmp key) same ∙ strcmp_refl key))
      | inr (inr o) ↦ rw o (find_left key l e r (lt_of_gt e.key key o) parts.above)
    ]

lines-IsAscending :
    (es : List Entry) (start stop : ℕ) → IsAscending es → IsAscending (lines es start stop)
lines-IsAscending es start stop s =
    take-IsAscending (stop - start) (drop start es) (drop-IsAscending start es s)

lines_nil : (es : List Entry) (start stop : ℕ) → stop ≤ start → lines es start stop ≡ []
lines_nil es start stop h =
    let none_left : stop - start ≡ 0 = omega arith in ap (λ n. take n (drop start es)) none_left

-- one round of the search, when the range is not empty
search_step :
    (fuel : ℕ) (es : List Entry) (key : CString) (start stop : ℕ) (e : Entry)
    → start < stop
    → IsStorable e
    → get_elem? es ((stop - 1 - start) / 2 + start) ≡ some e
    → c1_search (suc fuel) (format_lines es) key start stop ≡ (elim (strcmp e.key key) [
      | eq ↦ some (some e.value)
      | gt ↦ c1_search fuel (format_lines es) key start ((stop - 1 - start) / 2 + start)
      | lt ↦ c1_search fuel (format_lines es) key ((stop - 1 - start) / 2 + start + 1) stop
    ])
unfolding c1_search
search_step fuel es key start stop e h k found =
    let more : ltb start stop ≡ true = ground arith in
    rw (more, c1_search, get_elem?-format_lines es _ e found, parse_line-format_line e k)

search_done :
    (fuel : ℕ) (es : List Entry) (key : CString) (start stop : ℕ)
    → ltb start stop ≡ false
    → c1_search (suc fuel) (format_lines es) key start stop
      ≡ some (value_of (find key (lines es start stop)))
unfolding c1_search find
search_done fuel es key start stop h = rw (h, c1_search, lines_nil es start stop (ground arith))

-- On a file of storable entries in ascending order of their keys, with as much fuel as the range
-- from `start` to `stop - 1` has lines and one more, c1_search ends and returns the value of the
-- entry of the range with the key, valid or not, and NULL when the range has none.
pub c1_search_lem :
    (fuel : ℕ) (es : List Entry) (key : CString) (start stop : ℕ)
    → AllStorable es
    → IsAscending es
    → stop ≤ length es
    → stop - start < fuel
    → c1_search fuel (format_lines es) key start stop
      ≡ some (value_of (find key (lines es start stop)))
c1_search_lem zero es key start stop a s h k = absurd (omega arith)
c1_search_lem (suc fuel) es key start stop a s h k = elim (Bool-cases (ltb start stop)) [
  | inl more ↦
      let mid = (stop - 1 - start) / 2 + start in
      let m : Middle es start mid stop =
        Middle-of es start mid stop (omega arith) (ground arith) h in
      let asc : IsAscending (lines es start mid ++ m.entry ∷ lines es (mid + 1) stop) =
        subst IsAscending m.split (lines-IsAscending es start stop s) in
      search_step fuel es key start stop m.entry (ground arith)
        (get_elem?-All es mid m.entry a m.found) m.found
      ∙ sym (
          ap (λ l. some (value_of (find key l))) m.split
          ∙ ap (λ o. some (value_of o))
              (find_in key (lines es start mid) m.entry (lines es (mid + 1) stop) asc)
          ∙ elim (Ordering-cases (strcmp m.entry.key key)) [
            | inl o ↦ rw o (sym (c1_search_lem fuel es key (mid + 1) stop a s h (ground arith)))
            | inr (inl o) ↦ rw o refl
            | inr (inr o) ↦
                rw o (sym (c1_search_lem fuel es key start mid a s (ground arith) (ground arith)))
          ])
  | inr done ↦ search_done fuel es key start stop done
]
