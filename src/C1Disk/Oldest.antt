-- ===== src/C1Disk/Oldest.antt =====
-- What the file that merge of c1.c writes says of a key: the older entry, where there is one.
use Prim.Native.Nat.Ordering.{eq}
use cse511_lab.Prelude.{
  List, [], ◌∷◌, Option, none, some, ◌≡◌, ◌≢◌, refl, sym, ap, ◌∙◌, arith, Ordering-cases, inl, inr,
  subst, ◌⊎◌,
}
use cse511_lab.CString.{CString, strcmp}
use cse511_lab.CString.Order.{eq_of_strcmp}
use cse511_lab.C0Tree.{Entry}
use cse511_lab.C0Tree.Ascending.{IsAscending, Above, Above-trans, find, find-Above}
use cse511_lab.C1Disk.Fused.{fused}
use cse511_lab.C1Disk.Ranges.{find_next}

-- the entry that is there, or another
unfoldable pub or_else : Option Entry → Option Entry → Option Entry
or_else (some e) o = some e
or_else none o = o

same_or_other : (key k : CString) → (strcmp key k ≡ eq) ⊎ (strcmp key k ≢ eq)
same_or_other key k = elim (Ordering-cases (strcmp key k)) [
  | inl o ↦ inr (λ p. cc)
  | inr (inl o) ↦ inl o
  | inr (inr o) ↦ inr (λ p. cc)
]

find_here :
    (key : CString) (e : Entry) (es : List Entry)
    → strcmp key e.key ≡ eq
    → find key (e ∷ es) ≡ some e
unfolding find
find_here key e es p = rw (p, find)

or_else-some :
    (key : CString) (e : Entry) (es : List Entry) (o o' : Option Entry)
    → strcmp key e.key ≡ eq
    → o ≡ some e
    → o ≡ or_else (find key (e ∷ es)) o'
unfolding or_else
or_else-some key e es o o' p q = q ∙ sym (rw (find_here key e es p))

or_else-none :
    (key : CString) (old : List Entry) (o : Option Entry)
    → Above key old
    → o ≡ or_else (find key old) o
unfolding or_else
or_else-none key old o a = sym (rw (find-Above key old a))

-- a key is found among the older entries, and among the new ones where it is not there
pub find-fused :
    (key : CString) (new old : List Entry)
    → IsAscending new
    → IsAscending old
    → find key (fused new old) ≡ or_else (find key old) (find key new)
unfolding fused IsAscending or_else
find-fused key [] old s t = unfold find in ground arith
find-fused key (e ∷ new) [] s t = unfold find in refl
find-fused key (e ∷ new) (f ∷ old) s t = elim (Ordering-cases (strcmp e.key f.key)) [
  | inl o ↦ elim (same_or_other key e.key) [
    | inl p ↦
        let same : e.key ≡ key = sym (eq_of_strcmp key e.key p) in
        let above : Above key (f ∷ old) =
          subst (λ k. Above k (f ∷ old)) same (o, Above-trans e.key f.key old o t.0) in
        rw (o, fused)
          (find_here key e _ p
            ∙ sym (find_here key e new p)
            ∙ or_else-none key (f ∷ old) (find key (e ∷ new)) above)
    | inr n ↦
        rw (o, fused)
          (find_next key e _ n
            ∙ find-fused key new (f ∷ old) s.1 t
            ∙ ap (or_else (find key (f ∷ old))) (sym (find_next key e new n)))
  ]
  | inr (inl o) ↦ elim (same_or_other key f.key) [
    | inl p ↦ rw (o, fused) (or_else-some key f old _ _ p (find_here key f _ p))
    | inr n ↦
        let same : e.key ≡ f.key = eq_of_strcmp e.key f.key o in
        let other : strcmp key e.key ≢ eq = subst (λ k. strcmp key k ≢ eq) (sym same) n in
        rw (o, fused)
          (find_next key f _ n
            ∙ find-fused key new old s.1 t.1
            ∙ ap (λ x. or_else x (find key new)) (sym (find_next key f old n))
            ∙ ap (or_else (find key (f ∷ old))) (sym (find_next key e new other)))
  ]
  | inr (inr o) ↦ elim (same_or_other key f.key) [
    | inl p ↦ rw (o, fused) (or_else-some key f old _ _ p (find_here key f _ p))
    | inr n ↦
        rw (o, fused)
          (find_next key f _ n
            ∙ find-fused key (e ∷ new) old s t.1
            ∙ ap (λ x. or_else x (find key (e ∷ new))) (sym (find_next key f old n)))
  ]
]
