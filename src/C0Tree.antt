-- ===== src/C0Tree.antt =====
-- c0.c and c0.h: the memory-resident part of the store, a height-balanced search tree. A pointer to
-- a node is the tree below it; `none` is a read through a NULL pointer.
pub mod Ascending
pub mod Inorder
pub mod Heights
pub mod Rebalance
pub mod Balance
pub mod Depth
pub mod Ordered
pub mod Reads
pub mod Updates
pub mod Removes
pub mod Deletes
pub mod Shrinks
pub mod Deleted
mod Tests
use Prim.Native.Nat.Ordering.{lt, eq, gt}
use cse511_lab.Prelude.{
  ℕ, suc, ◌+◌, Bool, true, false, Option, none, some, List, ltb, if◌then◌else◌, set,
}
pub use cse511_lab.Prelude.{◌>>=◌}
use cse511_lab.Prelude.Signed.{ℤ, pos, negsuc, sub_ℕ, eq_ℤ, is_nonneg, is_nonpos}
use cse511_lab.CString.{CString, strcmp}

-- The fields of `c0_node` that hold the user's data; `flag` is 0 for valid, 1 for invalid.
pub record Entry : Type 0 where
  pub key : CString
  pub value : CString
  pub flag : ℕ

-- `c0_node *`: NULL, or the fields `left`, the data, `ht` and `right`.
pub data Tree : Type 0 where
  null : Tree
  node : Tree → Entry → ℕ → Tree → Tree

-- `lh` and `rh` of `height` and `BF`
unfoldable pub child_height : Tree → ℕ
child_height null = 0
child_height (node l e h r) = 1 + h

unfoldable pub height : Tree → ℕ
unfolding child_height
height null = 0
height (node l e h r) =
    let lh = child_height l in let rh = child_height r in if ltb rh lh then lh else rh

-- `BF`
unfoldable pub balance_factor : Tree → ℤ
unfolding child_height
balance_factor null = pos 0
balance_factor (node l e h r) = sub_ℕ (child_height l) (child_height r)

-- `T->ht = height(T); return T;`
unfoldable pub set_height : Tree → Option Tree
unfolding height
set_height null = none
set_height (node l e h r) = some (node l e (height (node l e h r)) r)

unfoldable pub rotate_right : Tree → Option Tree
unfolding height
rotate_right (node (node a y hy b) x hx c) =
    let x' = node b x (height (node b x hx c)) c in some (node a y (height (node a y hy x')) x')
rotate_right _ = none

unfoldable pub rotate_left : Tree → Option Tree
unfolding height
rotate_left (node a x hx (node b y hy c)) =
    let x' = node a x (height (node a x hx b)) b in some (node x' y (height (node x' y hy c)) c)
rotate_left _ = none

-- `LR`: the left child is rotated left, then the node right.
unfoldable pub left_right : Tree → Option Tree
unfolding rotate_left rotate_right
left_right null = none
left_right (node l e h r) = do l' ← rotate_left l; rotate_right (node l' e h r)

-- `RL`
unfoldable pub right_left : Tree → Option Tree
unfolding rotate_left rotate_right
right_left null = none
right_left (node l e h r) = do r' ← rotate_right r; rotate_left (node l e h r')

-- `if (strcmp(key, T->right->key) > 0) T = RR(T); else T = RL(T);`
unfoldable pub insert_rr_rl : CString → Tree → Option Tree
unfolding rotate_left right_left
insert_rr_rl key (node l e h (node rl re rh rr)) = elim (strcmp key re.key) [
  | gt ↦ rotate_left (node l e h (node rl re rh rr))
  | _ ↦ right_left (node l e h (node rl re rh rr))
]
insert_rr_rl key _ = none

-- `if (strcmp(key, T->left->key) <= 0) T = LL(T); else T = LR(T);`
unfoldable pub insert_ll_lr : CString → Tree → Option Tree
unfolding rotate_right left_right
insert_ll_lr key (node (node ll le lh lr) e h r) = elim (strcmp key le.key) [
  | gt ↦ left_right (node (node ll le lh lr) e h r)
  | _ ↦ rotate_right (node (node ll le lh lr) e h r)
]
insert_ll_lr key _ = none

-- what follows the insertion into the right subtree
unfoldable pub insert_fix_right : CString → Tree → Option Tree
unfolding balance_factor insert_rr_rl
insert_fix_right key t = if eq_ℤ (balance_factor t) (negsuc 1) then insert_rr_rl key t else some t

-- what follows the insertion into the left subtree
unfoldable pub insert_fix_left : CString → Tree → Option Tree
unfolding balance_factor insert_ll_lr
insert_fix_left key t = if eq_ℤ (balance_factor t) (pos 2) then insert_ll_lr key t else some t

-- `Insert`; a key that is there already keeps its value and flag.
unfoldable pub insert : Tree → Entry → Option Tree
unfolding set_height insert_fix_left insert_fix_right
insert null x = set_height (node null x 0 null)
insert (node l e h r) x = elim (strcmp x.key e.key) [
  | gt ↦ do r' ← insert r x; t ← insert_fix_right x.key (node l e h r'); set_height t
  | lt ↦ do l' ← insert l x; t ← insert_fix_left x.key (node l' e h r); set_height t
  | eq ↦ set_height (node l e h r)
]

-- the left child of a node; NULL has none
abbrev pub left_of : Tree → Tree
left_of null = null
left_of (node l e h r) = l

abbrev pub right_of : Tree → Tree
right_of null = null
right_of (node l e h r) = r

-- `if (BF(T) == 2) if (BF(T->left) >= 0) T = LL(T); else T = LR(T);`
unfoldable pub delete_fix_left_heavy : Tree → Option Tree
unfolding balance_factor rotate_right left_right
delete_fix_left_heavy t =
    if eq_ℤ (balance_factor t) (pos 2)
    then if is_nonneg (balance_factor (left_of t)) then rotate_right t else left_right t
    else some t

-- `if (BF(T) == -2) if (BF(T->right) <= 0) T = RR(T); else T = RL(T);`
unfoldable pub delete_fix_right_heavy : Tree → Option Tree
unfolding balance_factor rotate_left right_left
delete_fix_right_heavy t =
    if eq_ℤ (balance_factor t) (negsuc 1)
    then if is_nonpos (balance_factor (right_of t)) then rotate_left t else right_left t
    else some t

-- `while (p->left != NULL) p = p->left;`: the entry of the node where it stops, started at a node
-- with this left subtree and entry.
unfoldable pub leftmost : Tree → Entry → Entry
leftmost null e = e
leftmost (node l e' h r) e = leftmost l e'

-- The node takes the key and the value of its successor, and keeps its flag.
abbrev pub take_over : Entry → Entry → Entry
take_over e p = record e { key = p.key; value = p.value }

-- `Delete`
unfoldable pub delete : Tree → CString → Option Tree
unfolding set_height delete_fix_left_heavy delete_fix_right_heavy leftmost
delete null key = some null
delete (node l e h null) key = elim (strcmp key e.key) [
  | gt ↦ do t ← delete_fix_left_heavy (node l e h null); set_height t
  | lt ↦ do l' ← delete l key; t ← delete_fix_right_heavy (node l' e h null); set_height t
  | eq ↦ some l
]
delete (node l e h (node rl re rh rr)) key = elim (strcmp key e.key) [
  | gt ↦ do
    r' ← delete (node rl re rh rr) key
    t ← delete_fix_left_heavy (node l e h r')
    set_height t
  | lt ↦ do
    l' ← delete l key
    t ← delete_fix_right_heavy (node l' e h (node rl re rh rr))
    set_height t
  | eq ↦ do
    let p = leftmost rl re
    r' ← delete (node rl re rh rr) p.key
    t ← delete_fix_left_heavy (node l (take_over e p) h r')
    set_height t
]

-- `Get`: the calls on the subtrees are made, and what they return is dropped.
unfoldable pub get : Tree → CString → Option Entry
get null key = none
get (node l e h r) key = elim (strcmp key e.key) [ eq ↦ some e | _ ↦ none ]

-- `Update`: the tree after the writes through its pointers, and the tree that the call returns;
-- the calls on the subtrees write, and what they return is dropped.
unfoldable pub update : Tree → CString → CString → ℕ → Tree × Tree
update null key value flag = (null, null)
update (node l e h r) key value flag = elim (strcmp key e.key) [
  | eq ↦ let t = node l (record e { value = value; flag = flag }) h r in (t, t)
  | lt ↦ (node (update l key value flag).0 e h r, null)
  | gt ↦ (node l e h (update r key value flag).0, null)
]

-- `c0_size`
unfoldable pub size : Tree → ℕ
size null = 0
size (node l e h r) = size l + 1 + size r

-- `dumpToArray`: the array after the writes, and the next free index.
unfoldable pub dump_to_array : Tree → List Entry → ℕ → List Entry × ℕ
dump_to_array null nodes i = (nodes, i)
dump_to_array (node l e h r) nodes i =
    let (nodes', i') = dump_to_array l nodes i in dump_to_array r (set nodes' i' e) (i' + 1)
