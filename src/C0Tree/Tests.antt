-- ===== src/C0Tree/Tests.antt =====
-- Instances of the theorems about c0.c, and tests.
use cse511_lab.Prelude.{ℕ, ◌≤◌, [], ◌∷◌, none, some, ◌≡◌, refl, arith}
use cse511_lab.CString.{strcmp}
use cse511_lab.C0Tree.{Entry, Tree, null, node, insert, delete, get, update, size}
use cse511_lab.C0Tree.Ascending.{IsAscending, amend}
use cse511_lab.C0Tree.Depth.{insert-levels}
use cse511_lab.C0Tree.Heights.{levels}
use cse511_lab.C0Tree.Inorder.{inorder}
use cse511_lab.C0Tree.Ordered.{IsValid, Inserted, insert_refines}
use cse511_lab.C0Tree.Deleted.{DeleteResult, delete_refines}
use cse511_lab.C0Tree.Updates.{update-amend}

-- a valid entry whose key and value are one byte each
abbrev entry : ℕ → ℕ → Entry
entry k v = record { key = k ∷ []; value = v ∷ []; flag = 0 }

abbrev leaf : Entry → Tree
leaf e = node null e 0 null

-- the keys a to c under b, the right side still empty below
abbrev sample : Tree
sample = node (leaf (entry 97 1)) (entry 98 2) 1 (leaf (entry 99 3))

sample-IsValid : IsValid sample
unfolding IsAscending inorder strcmp
sample-IsValid = record {
  balanced = omega arith;
  ascending = ((refl, (refl, tt)), ((refl, tt), (tt, tt)));
}

insert_refines_example : Inserted sample (entry 100 4)
insert_refines_example = insert_refines sample (entry 100 4) sample-IsValid

delete_refines_example : DeleteResult sample (98 ∷ [])
delete_refines_example = delete_refines sample (98 ∷ []) sample-IsValid

-- the successor of a deleted root takes the flag of the root
delete_gives_flag :
    delete (node null (record (entry 97 1) { flag = 1 }) 1 (leaf (entry 98 2))) (97 ∷ [])
    ≡ some (leaf (record (entry 98 2) { flag = 1 }))
unfolding delete strcmp
delete_gives_flag = refl

update-amend_example :
    inorder (update sample (99 ∷ []) (7 ∷ []) 1).0 ≡ amend (99 ∷ []) (7 ∷ []) 1 (inorder sample)
update-amend_example = update-amend (99 ∷ []) (7 ∷ []) 1 sample sample-IsValid.ascending

-- a double rotation: c, a, then b
insert_lr : insert (node (leaf (entry 97 1)) (entry 99 3) 1 null) (entry 98 2) ≡ some sample
unfolding insert strcmp
insert_lr = refl

-- deleting the root lifts its successor, and the root's left subtree is the higher one
delete_root : delete sample (98 ∷ []) ≡ some (node (leaf (entry 97 1)) (entry 99 3) 1 null)
unfolding delete strcmp
delete_root = refl

get_root_only : (get sample (98 ∷ []) ≡ some (entry 98 2)) × (get sample (99 ∷ []) ≡ none)
unfolding get strcmp
get_root_only = (refl, refl)

insert-levels_example : (u : Tree) × (insert sample (entry 100 4) ≡ some u) × (levels u ≤ 9)
unfolding size
insert-levels_example = insert-levels sample (entry 100 4) sample-IsValid (omega arith)
