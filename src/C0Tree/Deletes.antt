-- ===== src/C0Tree/Deletes.antt =====
-- What `Delete` of c0.c does to the entries of the tree it returns.
use Prim.Native.Nat.Ordering.{lt, eq, gt}
use cse511_lab.Prelude.{
  ℕ, List, [], ◌∷◌, ◌++◌, ◌≡◌, refl, sym, ap, ◌∙◌, inl, inr, map, Ordering-cases, append-nil,
}
use cse511_lab.CString.{CString, strcmp}
use cse511_lab.C0Tree.{
  Entry, Tree, null, node, ◌>>=◌, set_height, delete_fix_left_heavy, delete_fix_right_heavy,
  leftmost, take_over, delete,
}
use cse511_lab.C0Tree.Ascending.{IsAscending, SplitAt, split_at}
use cse511_lab.C0Tree.Inorder.{inorder}
use cse511_lab.C0Tree.Removes.{
  remove, unflag, remove_left, remove_right, remove_middle, leftmost-inorder, remove_first, Keeps,
  delete_fix_left_heavy-Holds, delete_fix_right_heavy-Holds, fixed-Keeps, replaced,
}

module _ (key : CString) (l : Tree) (e : Entry) (h : ℕ) (r : Tree)
    (s : IsAscending (inorder l ++ e ∷ inorder r)) where
  left-Keeps :
      strcmp key e.key ≡ lt
      → Keeps (remove key (inorder l)) (delete l key)
      → Keeps
          (remove key (inorder l ++ e ∷ inorder r))
          (delete l key >>= λ l'. delete_fix_right_heavy (node l' e h r) >>= set_height)
  unfolding inorder
  left-Keeps p k =
      let parts : SplitAt (inorder l) e (inorder r) = split_at (inorder l) e (inorder r) s in
      fixed-Keeps (delete l key) delete_fix_right_heavy (λ l'. node l' e h r)
        (remove key (inorder l)) _ k delete_fix_right_heavy-Holds
        (λ l' q.
          replaced (inorder l') (remove key (inorder l)) e e (inorder r) (inorder r) q refl refl
          ∙ ap (map unflag) (sym (remove_left key (inorder l) e (inorder r) p parts.above)))

  right-Keeps :
      strcmp key e.key ≡ gt
      → Keeps (remove key (inorder r)) (delete r key)
      → Keeps
          (remove key (inorder l ++ e ∷ inorder r))
          (delete r key >>= λ r'. delete_fix_left_heavy (node l e h r') >>= set_height)
  unfolding inorder
  right-Keeps p k =
      let parts : SplitAt (inorder l) e (inorder r) = split_at (inorder l) e (inorder r) s in
      fixed-Keeps (delete r key) delete_fix_left_heavy (λ r'. node l e h r')
        (remove key (inorder r)) _ k delete_fix_left_heavy-Holds
        (λ r' q.
          replaced (inorder l) (inorder l) e e (inorder r') (remove key (inorder r)) refl refl q
          ∙ ap (map unflag) (sym (remove_right key (inorder l) e (inorder r) p parts.below)))

  -- the successor goes to the place of the key
  middle-Keeps :
      (p : Entry) (rest : List Entry)
      → strcmp key e.key ≡ eq
      → inorder r ≡ p ∷ rest
      → Keeps (remove p.key (inorder r)) (delete r p.key)
      → Keeps (remove key (inorder l ++ e ∷ inorder r)) (
          delete r p.key >>= λ r'.
          delete_fix_left_heavy (node l (take_over e p) h r') >>= set_height)
  unfolding inorder
  middle-Keeps p rest same first k =
      let parts : SplitAt (inorder l) e (inorder r) = split_at (inorder l) e (inorder r) s in
      let removed : remove p.key (inorder r) ≡ rest =
        ap (remove p.key) first ∙ remove_first p rest in
      fixed-Keeps (delete r p.key) delete_fix_left_heavy (λ r'. node l (take_over e p) h r')
        (remove p.key (inorder r)) _ k delete_fix_left_heavy-Holds
        (λ r' q.
          replaced (inorder l) (inorder l) (take_over e p) p (inorder r') rest refl refl
            (q ∙ ap (map unflag) removed)
          ∙ ap (λ es. map unflag (inorder l ++ es)) (sym first)
          ∙ ap (map unflag) (sym (remove_middle key (inorder l) e (inorder r) same parts.below)))

-- Delete, where it returns a tree, has taken out the entry of its key.
pub delete-Keeps :
    (t : Tree) (key : CString)
    → IsAscending (inorder t)
    → Keeps (remove key (inorder t)) (delete t key)
unfolding delete inorder
delete-Keeps null key s = unfold remove in refl
delete-Keeps (node l e h null) key s =
    let parts : SplitAt (inorder l) e [] = split_at (inorder l) e [] s in
    elim (Ordering-cases (strcmp key e.key)) [
      | inl p ↦ rw (p, delete) (left-Keeps key l e h null s p (delete-Keeps l key parts.left))
      | inr (inl p) ↦
          rw (p, delete)
            (ap (map unflag)
              (sym (remove_middle key (inorder l) e [] p parts.below ∙ append-nil (inorder l))))
      | inr (inr p) ↦
          rw (p, delete) (right-Keeps key l e h null s p (delete-Keeps null key parts.right))
    ]
delete-Keeps (node l e h (node rl re rh rr)) key s =
    let r : Tree = node rl re rh rr in
    let parts : SplitAt (inorder l) e (inorder r) = split_at (inorder l) e (inorder r) s in
    elim (Ordering-cases (strcmp key e.key)) [
      | inl p ↦ rw (p, delete) (left-Keeps key l e h r s p (delete-Keeps l key parts.left))
      | inr (inl p) ↦
          let (rest, first) = leftmost-inorder rl re rh rr in
          rw (p, delete)
            (middle-Keeps key l e h r s (leftmost rl re) rest p first
              (delete-Keeps (node rl re rh rr) (leftmost rl re).key parts.right))
      | inr (inr p) ↦
          rw (p, delete)
            (right-Keeps key l e h r s p (delete-Keeps (node rl re rh rr) key parts.right))
    ]
