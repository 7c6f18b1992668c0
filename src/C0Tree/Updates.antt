-- ===== src/C0Tree/Updates.antt =====
-- `Update` of c0.c: the tree that its writes leave behind.
use Prim.Native.Nat.Ordering.{lt}
use cse511_lab.Prelude.{
  ℕ, List, [], ◌∷◌, ◌++◌, ◌≡◌, refl, sym, ap, ◌∙◌, arith, inl, inr, Ordering-cases,
}
use cse511_lab.CString.{CString, strcmp}
use cse511_lab.CString.Order.{eq_of_strcmp, gt_of_lt, lt_of_gt}
use cse511_lab.C0Tree.{Entry, Tree, null, node, update}
use cse511_lab.C0Tree.Ascending.{
  IsAscending, Above, Above-trans, Below, Below-trans, SplitAt, split_at, amend,
}
use cse511_lab.C0Tree.Inorder.{inorder}

module _ (key value : CString) (flag : ℕ) where
  amend-Above : (l : List Entry) → Above key l → amend key value flag l ≡ l
  unfolding amend
  amend-Above [] a = refl
  amend-Above (e ∷ l) (p, a) = ground (arith, amend-Above l a)

  amend-append_left :
      (l : List Entry) (e : Entry) (r : List Entry)
      → strcmp key e.key ≡ lt
      → Above e.key r
      → amend key value flag (l ++ e ∷ r) ≡ amend key value flag l ++ e ∷ r
  unfolding amend
  amend-append_left [] e r p a = ground (arith, amend-Above r (Above-trans key e.key r p a))
  amend-append_left (f ∷ l) e r p a = ground (arith, amend-append_left l e r p a)

  amend-append_right :
      (l r : List Entry) → Below key l → amend key value flag (l ++ r) ≡ l ++ amend key value flag r
  unfolding amend
  amend-append_right [] r b = refl
  amend-append_right (f ∷ l) r (p, b) =
      ground (arith, gt_of_lt f.key key p, amend-append_right l r b)

  -- Update writes the value and the flag of the key's entry wherever in the tree it stands, and
  -- changes no other entry.
  pub update-amend :
      (t : Tree)
      → IsAscending (inorder t)
      → inorder (update t key value flag).0 ≡ amend key value flag (inorder t)
  unfolding update inorder
  update-amend null s = unfold amend in refl
  update-amend (node l e h r) s =
      let parts : SplitAt (inorder l) e (inorder r) = split_at (inorder l) e (inorder r) s in
      elim (Ordering-cases (strcmp key e.key)) [
        | inl p ↦
            rw (p, update)
              (ap (λ es. es ++ e ∷ inorder r) (update-amend l parts.left)
                ∙ sym (amend-append_left (inorder l) e (inorder r) p parts.above))
        | inr (inl p) ↦
            let same : key ≡ e.key = eq_of_strcmp key e.key p in
            rw (p, update)
              (sym (
                amend-append_right (inorder l) (e ∷ inorder r) (rw same parts.below)
                ∙ ap (λ es. inorder l ++ es) (unfold amend in ground arith)))
        | inr (inr p) ↦
            rw (p, update)
              (ap (λ es. inorder l ++ e ∷ es) (update-amend r parts.right)
                ∙ sym (
                    amend-append_right (inorder l) (e ∷ inorder r)
                      (Below-trans e.key key (inorder l) (lt_of_gt key e.key p) parts.below)
                    ∙ ap (λ es. inorder l ++ es) (unfold amend in ground arith)))
      ]
