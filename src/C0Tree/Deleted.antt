-- ===== src/C0Tree/Deleted.antt =====
-- `Delete` of c0.c as the removal of a key from an ascending list.
use cse511_lab.Prelude.{suc, ◌≤◌, Option, some, List, [], ◌∷◌, ◌≡◌, map, ap, arith}
use cse511_lab.CString.{CString}
use cse511_lab.C0Tree.{Entry, Tree, delete}
use cse511_lab.C0Tree.Ascending.{IsAscending, Above}
use cse511_lab.C0Tree.Heights.{levels}
use cse511_lab.C0Tree.Inorder.{inorder}
use cse511_lab.C0Tree.Ordered.{IsValid}
use cse511_lab.C0Tree.Removes.{remove, unflag, Keeps}
use cse511_lab.C0Tree.Deletes.{delete-Keeps}
use cse511_lab.C0Tree.Shrinks.{Shrunk, delete-Shrunk}

-- What `Delete` has done to a valid tree.
pub record DeleteResult (t : Tree) (key : CString) : Type 0 where
  pub after : Tree
  pub returns : delete t key ≡ some after
  pub valid : IsValid after
  pub entries : map unflag (inorder after) ≡ map unflag (remove key (inorder t))
  pub not_higher : levels after ≤ levels t
  pub at_most_one : levels t ≤ suc (levels after)

Above-remove : (top key : CString) (l : List Entry) → Above top l → Above top (remove key l)
unfolding remove
Above-remove top key [] a = tt
Above-remove top key (e ∷ l) (p, a) = ground (arith, Above-remove top key l a)

remove-IsAscending : (key : CString) (l : List Entry) → IsAscending l → IsAscending (remove key l)
unfolding remove IsAscending
remove-IsAscending key [] s = tt
remove-IsAscending key (e ∷ l) (a, s) =
    ground (arith, remove-IsAscending key l s, Above-remove e.key key l a)

-- the order of the keys does not depend on the flags
Above-unflagged :
    (key : CString) (l m : List Entry) → map unflag l ≡ map unflag m → Above key m → Above key l
Above-unflagged key [] m h a = tt
Above-unflagged key (e ∷ l) [] h a = cc
Above-unflagged key (e ∷ l) (f ∷ m) h (p, a) =
    let heads : unflag e ≡ unflag f = cc in
    let same : e.key ≡ f.key = ap (λ x. x.key) heads in
    let tails : map unflag l ≡ map unflag m = cc in (rw same p, Above-unflagged key l m tails a)

IsAscending-unflagged :
    (l m : List Entry) → map unflag l ≡ map unflag m → IsAscending m → IsAscending l
unfolding IsAscending
IsAscending-unflagged [] m h s = tt
IsAscending-unflagged (e ∷ l) [] h s = cc
IsAscending-unflagged (e ∷ l) (f ∷ m) h (a, s) =
    let heads : unflag e ≡ unflag f = cc in
    let same : e.key ≡ f.key = ap (λ x. x.key) heads in
    let tails : map unflag l ≡ map unflag m = cc in
    (Above-unflagged e.key l m tails (rw same a), IsAscending-unflagged l m tails s)

Keeps-of_some :
    (es : List Entry) (o : Option Tree) (u : Tree)
    → o ≡ some u
    → Keeps es o
    → map unflag (inorder u) ≡ map unflag es
Keeps-of_some es o u e h = rw e at h

-- Delete on a valid tree reads through no NULL pointer and returns a valid tree, whose keys and values
-- are those of the tree without the entry of the key, where the tree has one; the tree has as many
-- levels as before or one less. Of the flags it says nothing.
pub delete_refines : (t : Tree) (key : CString) → IsValid t → DeleteResult t key
delete_refines t key v =
    let g : Shrunk (levels t) (delete t key) = delete-Shrunk t key v.balanced in
    let same : map unflag (inorder g.after) ≡ map unflag (remove key (inorder t)) =
      Keeps-of_some _ (delete t key) g.after g.returns (delete-Keeps t key v.ascending) in
    record {
      after = g.after;
      returns = g.returns;
      valid = record {
        balanced = g.balanced;
        ascending =
            IsAscending-unflagged (inorder g.after) (remove key (inorder t)) same
              (remove-IsAscending key (inorder t) v.ascending);
      };
      entries = same;
      not_higher = g.not_higher;
      at_most_one = g.at_most_one;
    }
