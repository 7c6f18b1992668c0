-- ===== src/ServerPart1/Lost.antt =====
-- A put request of server-part1.c for a key that the tree of c0.c holds below its root.
use cse511_lab.Prelude.{
  ℕ, List, [], ◌∷◌, none, some, ◌≡◌, ◌≢◌, refl, sym, ap, ◌∙◌, arith, false, ◌==◌, length,
}
use cse511_lab.CString.{CString}
use cse511_lab.C0Tree.{Entry, Tree, node, insert, get, size}
use cse511_lab.C0Tree.Ascending.{IsAscending, add, find, find-Above, Above-trans}
use cse511_lab.C0Tree.Inorder.{inorder}
use cse511_lab.C0Tree.Ordered.{IsValid, Inserted, insert_refines}
use cse511_lab.C0Tree.Reads.{get_misses_left, size-inorder}
use cse511_lab.C1Disk.Store.{Opens}
use cse511_lab.ServerPart1.{Server, max_c0_size, put_c0, insert_c0}

add_found :
    (x : Entry) (es : List Entry) (f : Entry)
    → IsAscending es
    → find x.key es ≡ some f
    → add x es ≡ es
unfolding add find IsAscending
add_found x [] f s h = cc
add_found x (e ∷ es) f (a, s) h =
    ground (arith, add_found x es f s, find-Above x.key es, Above-trans x.key e.key es)

insert_c0_lem :
    (o : Opens) (x : Entry) (st : Server) (t : Tree)
    → insert st.tree x ≡ some t
    → size t ≢ max_c0_size
    → insert_c0 o x st ≡ some (record st { tree = t })
unfolding insert_c0
insert_c0_lem o x st t h k =
    let more : (size t == max_c0_size) ≡ false = ground arith in rw (h, insert_c0) (rw more refl)

-- Where the tree of c0 is valid, is not about to be dumped, and holds the key in the left subtree of its
-- root, the part of server_1_put_request on c0 succeeds and leaves the entries of the tree as they were:
-- the new value is not in it.
pub put_c0_lost :
    (o : Opens) (l : Tree) (e : Entry) (h : ℕ) (r : Tree) (key value : CString) (f : Entry)
    (st : Server)
    → st.tree ≡ node l e h r
    → IsValid (node l e h r)
    → size (node l e h r) ≢ max_c0_size
    → find key (inorder l) ≡ some f
    → (t : Tree) × (put_c0 o key value st ≡ some (record st { tree = t }))
      × (inorder t ≡ inorder (node l e h r))
unfolding put_c0
put_c0_lost o l e h r key value f st same v small held =
    let x : Entry = record { key = key; value = value; flag = 0 } in
    let (present, missed) = get_misses_left l e h r key f v.ascending held in
    let done : Inserted (node l e h r) x = insert_refines (node l e h r) x v in
    let kept : inorder done.after ≡ inorder (node l e h r) =
      done.entries ∙ add_found x (inorder (node l e h r)) f v.ascending present in
    let room : size done.after ≢ max_c0_size = λ p.
      small
        (size-inorder (node l e h r) ∙ ap length (sym kept) ∙ sym (size-inorder done.after) ∙ p) in
    let unseen : get st.tree key ≡ none = ap (λ t. get t key) same ∙ missed in
    (
      done.after,
      rw (unseen, put_c0)
          (insert_c0_lem o x st done.after (ap (λ t. insert t x) same ∙ done.returns) room),
      kept,
    )
