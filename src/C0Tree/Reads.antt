-- ===== src/C0Tree/Reads.antt =====
-- What `Get`, `Update`, `c0_size` and `dumpToArray` of c0.c do with the entries of a tree.
use Prim.Native.Nat.Ordering.{lt, eq}
use cse511_lab.Prelude.{
  ℕ, zero, suc, ◌+◌, List, [], ◌∷◌, ◌++◌, none, some, ◌≡◌, ◌≢◌, ◌⊎◌, refl, sym, ap, ap₂, ◌∙◌, arith,
  length, length-append, set, append_assoc,
}
use cse511_lab.CString.{CString, strcmp}
use cse511_lab.C0Tree.{Entry, Tree, null, node, get, size, dump_to_array}
use cse511_lab.C0Tree.Ascending.{
  IsAscending, find, find-append_some, SplitAt, split_at, find-Below, find_middle,
}
use cse511_lab.C0Tree.Inorder.{inorder}

-- Get finds a key exactly at the root: it returns the root's entry for the root's key, and NULL for
-- every other key.
pub get_at_root :
    (l : Tree) (e : Entry) (h : ℕ) (r : Tree) (key : CString)
    → ((strcmp key e.key ≡ eq) × (get (node l e h r) key ≡ some e))
      ⊎ ((strcmp key e.key ≢ eq) × (get (node l e h r) key ≡ none))
unfolding get
get_at_root l e h r key = ground arith

-- what Get returns is the entry that the tree holds for the key
pub get_sound :
    (t : Tree) (key : CString) (f : Entry)
    → IsAscending (inorder t)
    → get t key ≡ some f
    → find key (inorder t) ≡ some f
unfolding get inorder
get_sound null key f s h = cc
get_sound (node l e h r) key f s g =
    let parts : SplitAt (inorder l) e (inorder r) = split_at (inorder l) e (inorder r) s in
    ground (arith, find_middle key (inorder l) e (inorder r) parts.below)

-- An entry of a valid tree's left subtree is in the tree, and Get does not find it.
pub get_misses_left :
    (l : Tree) (e : Entry) (h : ℕ) (r : Tree) (key : CString) (f : Entry)
    → IsAscending (inorder (node l e h r))
    → find key (inorder l) ≡ some f
    → (find key (inorder (node l e h r)) ≡ some f) × (get (node l e h r) key ≡ none)
unfolding get inorder
get_misses_left l e h r key f s g =
    let parts : SplitAt (inorder l) e (inorder r) = split_at (inorder l) e (inorder r) s in
    let lower : strcmp key e.key ≡ lt = find-Below key e.key (inorder l) f parts.below g in
    (find-append_some key (inorder l) (e ∷ inorder r) f g, rw (lower, get))

-- c0_size counts the entries.
pub size-inorder : (t : Tree) → size t ≡ length (inorder t)
unfolding size inorder
size-inorder null = refl
size-inorder (node l e h r) =
    omega (arith, size-inorder l, size-inorder r, length-append (inorder l) (e ∷ inorder r))

set-append :
    (pre post : List Entry) (y x : Entry) → set (pre ++ y ∷ post) (length pre) x ≡ pre ++ x ∷ post
set-append [] post y x = refl
set-append (z ∷ pre) post y x = ap (◌∷◌ z) (set-append pre post y x)

-- a stretch of slots for a left subtree, a node and a right subtree
record Cut (room : List Entry) (n m : ℕ) : Type 0 where
  front : List Entry
  slot : Entry
  back : List Entry
  whole : room ≡ front ++ slot ∷ back
  front_length : length front ≡ n
  back_length : length back ≡ m

Cut-at : (n m : ℕ) (room : List Entry) → length room ≡ n + 1 + m → Cut room n m
Cut-at n m [] h = absurd (omega arith)
Cut-at zero m (x ∷ room) h = record {
  front = [];
  slot = x;
  back = room;
  whole = refl;
  front_length = refl;
  back_length = omega arith;
}
Cut-at (suc n) m (x ∷ room) h =
    let c : Cut room n m = Cut-at n m room (omega arith) in
    record {
      front = x ∷ c.front;
      slot = c.slot;
      back = c.back;
      whole = ap (◌∷◌ x) c.whole;
      front_length = ap suc c.front_length;
      back_length = c.back_length;
    }

dump_node :
    (l : Tree) (e : Entry) (h : ℕ) (r : Tree) (nodes mid out : List Entry) (i j k : ℕ)
    → dump_to_array l nodes i ≡ (mid, j)
    → dump_to_array r (set mid j e) (j + 1) ≡ (out, k)
    → dump_to_array (node l e h r) nodes i ≡ (out, k)
unfolding dump_to_array
dump_node l e h r nodes mid out i j k p q = rw (p, dump_to_array) q

-- dumpToArray fills as many slots from the index on as the tree has nodes, with the entries in
-- order; it leaves the other slots and returns the index behind the last one that it wrote.
pub dump_to_array_lem :
    (t : Tree) (pre room post : List Entry)
    → length room ≡ size t
    → dump_to_array t (pre ++ (room ++ post)) (length pre)
      ≡ (pre ++ (inorder t ++ post), length pre + size t)
unfolding dump_to_array size inorder
dump_to_array_lem null pre [] post h = ap (λ n. (pre ++ post, n)) (omega arith)
dump_to_array_lem null pre (x ∷ room) post h = absurd (omega arith)
dump_to_array_lem (node l e h r) pre room post q =
    let c : Cut room (size l) (size r) = Cut-at (size l) (size r) room q in
    let tail : List Entry = c.back ++ post in
    let ready : List Entry = pre ++ inorder l ++ e ∷ [] in
    let arranged : pre ++ (room ++ post) ≡ pre ++ (c.front ++ c.slot ∷ tail) =
      ap (λ es. pre ++ es)
        (ap (λ es. es ++ post) c.whole ∙ append_assoc c.front (c.slot ∷ c.back) post) in
    let first : dump_to_array l (pre ++ (room ++ post)) (length pre)
        ≡ (pre ++ (inorder l ++ c.slot ∷ tail), length pre + size l) =
      ap (λ es. dump_to_array l es (length pre)) arranged
      ∙ dump_to_array_lem l pre c.front (c.slot ∷ tail) c.front_length in
    let count : length pre + size l ≡ length (pre ++ inorder l) =
      omega (arith, length-append pre (inorder l), size-inorder l) in
    let next : length pre + size l + 1 ≡ length ready =
      omega (arith, count, length-append (pre ++ inorder l) (e ∷ [])) in
    let written : set (pre ++ (inorder l ++ c.slot ∷ tail)) (length pre + size l) e
        ≡ ready ++ tail =
      ap₂ (λ es n. set es n e) (sym (append_assoc pre (inorder l) (c.slot ∷ tail))) count
      ∙ set-append (pre ++ inorder l) tail c.slot e
      ∙ sym (append_assoc (pre ++ inorder l) (e ∷ []) tail) in
    let second : dump_to_array r (ready ++ tail) (length ready)
        ≡ (ready ++ (inorder r ++ post), length ready + size r) =
      dump_to_array_lem r ready c.back post c.back_length in
    let entries : ready ++ (inorder r ++ post) ≡ pre ++ ((inorder l ++ e ∷ inorder r) ++ post) =
      simp append_assoc in
    let index : length ready + size r ≡ length pre + (size l + 1 + size r) = omega (arith, next) in
    dump_node l e h r _ _ _ _ _ _ first
      (ap₂ (dump_to_array r) written next ∙ second ∙ ap₂ (λ es n. (es, n)) entries index)
