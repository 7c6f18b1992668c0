-- ===== src/C1Disk/Fused.antt =====
-- The entries of the file that merge of c1.c writes, where the older file does not run out first.
use Prim.Native.Nat.Ordering.{lt, eq, gt}
use cse511_lab.Prelude.{
  List, [], ◌∷◌, ◌≡◌, refl, ap, All, Ordering-cases, inl, inr, subst, true, ◌==◌,
}
use cse511_lab.CString.{CString, strcmp}
use cse511_lab.CString.Order.{eq_of_strcmp, lt_of_gt, strcmp_trans}
use cse511_lab.C0Tree.{Entry}
use cse511_lab.C0Tree.Ascending.{IsAscending, Above, Below, Above-trans}
use cse511_lab.C1Disk.Line.{format_lines}
use cse511_lab.C1Disk.Merge.{merged, keep}
use cse511_lab.C1Disk.{Block, format_line}

-- Entries in the order of the keys; of two entries with one key the older.
unfoldable pub fused : List Entry → List Entry → List Entry
fused [] old = old
fused (e ∷ new) [] = e ∷ new
fused (e ∷ new) (f ∷ old) = elim (strcmp e.key f.key) [
  | lt ↦ e ∷ fused new (f ∷ old)
  | gt ↦ f ∷ fused (e ∷ new) old
  | eq ↦ f ∷ fused new old
]

-- no entry is marked as deleted
abbrev pub AllValid : List Entry → Type 0
AllValid = All (λ e. e.flag ≡ 0)

-- no entry comes behind all of the older ones
abbrev pub AllCovered : List Entry → List Entry → Type 0
AllCovered new old = All (λ e. ¬ Below e.key old) new

-- what holds of all the entries of both holds of all of these
pub fused-All :
    (P : Entry → Type 0) (new old : List Entry) → All P new → All P old → All P (fused new old)
unfolding fused
fused-All P [] old a b = b
fused-All P (e ∷ new) [] a b = a
fused-All P (e ∷ new) (f ∷ old) (p, a) (q, b) = elim (Ordering-cases (strcmp e.key f.key)) [
  | inl o ↦ rw (o, fused) (p, fused-All P new (f ∷ old) a (q, b))
  | inr (inl o) ↦ rw (o, fused) (q, fused-All P new old a b)
  | inr (inr o) ↦ rw (o, fused) (q, fused-All P (e ∷ new) old (p, a) b)
]

-- and the older entries are among them
pub fused-All_old : (P : Entry → Type 0) (new old : List Entry) → All P (fused new old) → All P old
unfolding fused
fused-All_old P [] old a = a
fused-All_old P (e ∷ new) [] a = tt
fused-All_old P (e ∷ new) (f ∷ old) a = elim (Ordering-cases (strcmp e.key f.key)) [
  | inl o ↦ let rest = rw (o, fused) at a in fused-All_old P new (f ∷ old) rest.1
  | inr (inl o) ↦ let rest = rw (o, fused) at a in (rest.0, fused-All_old P new old rest.1)
  | inr (inr o) ↦ let rest = rw (o, fused) at a in (rest.0, fused-All_old P (e ∷ new) old rest.1)
]

pub fused-IsAscending :
    (new old : List Entry) → IsAscending new → IsAscending old → IsAscending (fused new old)
unfolding fused IsAscending
fused-IsAscending [] old a b = b
fused-IsAscending (e ∷ new) [] a b = a
fused-IsAscending (e ∷ new) (f ∷ old) (p, a) (q, b) = elim (Ordering-cases (strcmp e.key f.key)) [
  | inl o ↦
      rw (o, fused)
        (
          fused-All _ new (f ∷ old) p (o, Above-trans e.key f.key old o q),
          fused-IsAscending new (f ∷ old) a (q, b),
        )
  | inr (inl o) ↦
      let same : e.key ≡ f.key = eq_of_strcmp e.key f.key o in
      rw (o, fused)
        (fused-All _ new old (subst (λ k. Above k new) same p) q, fused-IsAscending new old a b)
  | inr (inr o) ↦
      let less = lt_of_gt e.key f.key o in
      rw (o, fused)
        (
          fused-All _ (e ∷ new) old (less, Above-trans f.key e.key new less p) q,
          fused-IsAscending (e ∷ new) old (p, a) b,
        )
]

-- the entries behind one that is not behind all of the older ones are not either
covered_behind :
    (k : CString) (f : Entry) (new old : List Entry)
    → strcmp f.key k ≡ lt
    → Above k new
    → AllCovered new (f ∷ old)
    → AllCovered new old
covered_behind k f [] old h a c = tt
covered_behind k f (x ∷ new) old h (p, a) (q, c) =
    (λ b. q (strcmp_trans f.key k x.key h p, b), covered_behind k f new old h a c)

covered_equal :
    (f : Entry) (new old : List Entry)
    → Above f.key new
    → AllCovered new (f ∷ old)
    → AllCovered new old
covered_equal f [] old a c = tt
covered_equal f (x ∷ new) old (p, a) (q, c) = (λ b. q (p, b), covered_equal f new old a c)

keep-AllValid :
    (e : Entry) (bs : List Block) (es : List Entry)
    → e.flag ≡ 0
    → bs ≡ format_lines es
    → keep e bs ≡ format_lines (e ∷ es)
keep-AllValid e bs es v p =
    let valid : (e.flag == 0) ≡ true = ap (λ n. n == 0) v in
    rw valid (ap (λ x. format_line e ∷ x) p)

-- merge writes these entries, and no empty record
pub merged-fused :
    (new old : List Entry)
    → IsAscending new
    → AllValid new
    → AllValid old
    → AllCovered new old
    → merged new old ≡ format_lines (fused new old)
unfolding merged fused IsAscending
merged-fused [] old s v w c = refl
merged-fused (e ∷ new) [] s v w c = absurd (c.0 tt)
merged-fused (e ∷ new) (f ∷ old) (a, s) (p, v) (q, w) (c, d) =
    elim (Ordering-cases (strcmp e.key f.key)) [
      | inl o ↦
          rw (o, merged, fused) (keep-AllValid e _ _ p (merged-fused new (f ∷ old) s v (q, w) d))
      | inr (inl o) ↦
          let same : e.key ≡ f.key = eq_of_strcmp e.key f.key o in
          let covered = covered_equal f new old (subst (λ k. Above k new) same a) d in
          rw (o, merged, fused) (keep-AllValid f _ _ q (merged-fused new old s v w covered))
      | inr (inr o) ↦
          let less = lt_of_gt e.key f.key o in
          rw (o, merged, fused)
            (keep-AllValid f _ _ q (
              merged-fused (e ∷ new) old (a, s) (p, v) w
                (λ b. c (less, b), covered_behind e.key f new old less a d)))
    ]
