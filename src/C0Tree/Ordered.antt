-- ===== src/C0Tree/Ordered.antt =====
-- `Insert` of c0.c as an insertion into an ascending list.
use cse511_lab.Prelude.{suc, ◌≤◌, some, ◌≡◌}
use cse511_lab.C0Tree.{Entry, Tree, insert}
use cse511_lab.C0Tree.Heights.{levels, IsBalanced}
use cse511_lab.C0Tree.Balance.{insert-Grown}
use cse511_lab.C0Tree.Rebalance.{Grown}
use cse511_lab.C0Tree.Ascending.{IsAscending, add, add-IsAscending}
use cse511_lab.C0Tree.Inorder.{inorder, Holds, insert-Holds}

-- the search tree is balanced, and its keys ascend from left to right
pub record IsValid (t : Tree) : Type 0 where
  pub balanced : IsBalanced t
  pub ascending : IsAscending (inorder t)

-- What `Insert` has done to a valid tree.
pub record Inserted (t : Tree) (x : Entry) : Type 0 where
  pub after : Tree
  pub returns : insert t x ≡ some after
  pub valid : IsValid after
  pub entries : inorder after ≡ add x (inorder t)
  pub no_lower : levels t ≤ levels after
  pub at_most_one : levels after ≤ suc (levels t)

Holds-of_some :
    (t : Tree) (x : Entry) (u : Tree)
    → insert t x ≡ some u
    → Holds (add x (inorder t)) (insert t x)
    → inorder u ≡ add x (inorder t)
Holds-of_some t x u e h = rw e at h

-- Insert on a valid tree reads through no NULL pointer and returns a valid tree, whose entries are
-- those of the tree with the new one added in the place of its key, unless the key was there; the
-- tree has as many levels as before or one more.
pub insert_refines : (t : Tree) (x : Entry) → IsValid t → Inserted t x
insert_refines t x v =
    let g : Grown t x (insert t x) = insert-Grown t x v.balanced in
    let same : inorder g.after ≡ add x (inorder t) =
      Holds-of_some t x g.after g.returns (insert-Holds t x v.ascending) in
    record {
      after = g.after;
      returns = g.returns;
      valid = record {
        balanced = g.balanced;
        ascending = rw same (add-IsAscending x (inorder t) v.ascending);
      };
      entries = same;
      no_lower = g.not_lower;
      at_most_one = g.at_most_one;
    }
