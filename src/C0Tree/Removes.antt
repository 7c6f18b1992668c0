-- ===== src/C0Tree/Removes.antt =====
-- `Delete` of c0.c on the list of a tree's entries, in order, up to their flags.
use Prim.Native.Nat.Ordering.{lt, eq, gt}
use cse511_lab.Prelude.{
  ℕ, List, [], ◌∷◌, ◌++◌, Option, none, some, ◌≡◌, refl, sym, ap, ◌∙◌, map, arith,
}
use cse511_lab.Prelude.Signed.{is_nonneg, is_nonpos}
use cse511_lab.CString.{CString, strcmp}
use cse511_lab.CString.Order.{strcmp_refl, eq_of_strcmp, lt_of_gt, gt_of_lt}
use cse511_lab.C0Tree.{
  Entry, Tree, null, node, ◌>>=◌, set_height, delete_fix_left_heavy, delete_fix_right_heavy,
  leftmost, balance_factor, left_of, right_of,
}
use cse511_lab.C0Tree.Ascending.{Below, Above, Above-trans, Below-trans}
use cse511_lab.C0Tree.Inorder.{
  inorder, Holds, rotate_left-Holds, rotate_right-Holds, left_right-Holds, right_left-Holds,
  Holds-if,
}

-- the entry with the key is taken out
unfoldable pub remove : CString → List Entry → List Entry
remove key [] = []
remove key (e ∷ es) = elim (strcmp key e.key) [ eq ↦ es | _ ↦ e ∷ remove key es ]

-- an entry as if it were valid
abbrev pub unflag : Entry → Entry
unflag e = record e { flag = 0 }

remove-Above : (key : CString) (l : List Entry) → Above key l → remove key l ≡ l
unfolding remove
remove-Above key [] a = refl
remove-Above key (e ∷ l) (p, a) = ground (arith, remove-Above key l a)

remove-Below :
    (key : CString) (l r : List Entry) → Below key l → remove key (l ++ r) ≡ l ++ remove key r
unfolding remove
remove-Below key [] r b = refl
remove-Below key (e ∷ l) r (p, b) = ground (arith, gt_of_lt e.key key p, remove-Below key l r b)

pub remove_left :
    (key : CString) (l : List Entry) (e : Entry) (r : List Entry)
    → strcmp key e.key ≡ lt
    → Above e.key r
    → remove key (l ++ e ∷ r) ≡ remove key l ++ e ∷ r
unfolding remove
remove_left key [] e r p a = ground (arith, remove-Above key r (Above-trans key e.key r p a))
remove_left key (f ∷ l) e r p a = ground (arith, remove_left key l e r p a)

pub remove_right :
    (key : CString) (l : List Entry) (e : Entry) (r : List Entry)
    → strcmp key e.key ≡ gt
    → Below e.key l
    → remove key (l ++ e ∷ r) ≡ l ++ e ∷ remove key r
unfolding remove
remove_right key l e r p b =
    remove-Below key l (e ∷ r) (Below-trans e.key key l (lt_of_gt key e.key p) b)
    ∙ ap (λ es. l ++ es) (ground arith)

pub remove_middle :
    (key : CString) (l : List Entry) (e : Entry) (r : List Entry)
    → strcmp key e.key ≡ eq
    → Below e.key l
    → remove key (l ++ e ∷ r) ≡ l ++ r
unfolding remove
remove_middle key l e r p b =
    let same : key ≡ e.key = eq_of_strcmp key e.key p in
    remove-Below key l (e ∷ r) (rw same b) ∙ ap (λ es. l ++ es) (ground arith)

-- the node where the walk to the left ends holds the first entry
pub leftmost-inorder :
    (l : Tree) (e : Entry) (h : ℕ) (r : Tree)
    → (rest : List Entry) × (inorder (node l e h r) ≡ leftmost l e ∷ rest)
unfolding inorder leftmost
leftmost-inorder null e h r = (inorder r, refl)
leftmost-inorder (node l f k m) e h r =
    let (rest, p) = leftmost-inorder l f k m in
    (rest ++ e ∷ inorder r, ap (λ es. es ++ e ∷ inorder r) p)

pub remove_first : (e : Entry) (rest : List Entry) → remove e.key (e ∷ rest) ≡ rest
unfolding remove
remove_first e rest = ground (arith, strcmp_refl e.key)

-- if the call returns a tree, then one with these entries but for their flags
abbrev pub Keeps : List Entry → Option Tree → Type 0
Keeps es none = Unit {0}
Keeps es (some t) = map unflag (inorder t) ≡ map unflag es

pub Keeps-bind :
    (o : Option Tree) (f : Tree → Option Tree) (es fs : List Entry)
    → Keeps es o
    → ((t : Tree) → map unflag (inorder t) ≡ map unflag es → Keeps fs (f t))
    → Keeps fs (o >>= f)
Keeps-bind none f es fs h k = tt
Keeps-bind (some t) f es fs h k = k t h

Holds-Keeps : (es : List Entry) (o : Option Tree) → Holds es o → Keeps es o
Holds-Keeps es none h = tt
Holds-Keeps es (some t) h = ap (map unflag) h

set_height-Keeps :
    (t : Tree) (es : List Entry) → map unflag (inorder t) ≡ map unflag es → Keeps es (set_height t)
unfolding set_height inorder
set_height-Keeps null es e = tt
set_height-Keeps (node l x h r) es e = e

pub delete_fix_left_heavy-Holds : (t : Tree) → Holds (inorder t) (delete_fix_left_heavy t)
unfolding delete_fix_left_heavy
delete_fix_left_heavy-Holds t =
    Holds-if _ _ _ (some t)
      (Holds-if _ (is_nonneg (balance_factor (left_of t))) _ _ (rotate_right-Holds t)
        (left_right-Holds t))
      refl

pub delete_fix_right_heavy-Holds : (t : Tree) → Holds (inorder t) (delete_fix_right_heavy t)
unfolding delete_fix_right_heavy
delete_fix_right_heavy-Holds t =
    Holds-if _ _ _ (some t)
      (Holds-if _ (is_nonpos (balance_factor (right_of t))) _ _ (rotate_left-Holds t)
        (right_left-Holds t))
      refl

-- the recursive call, the rebalancing and the new height, one after another
pub fixed-Keeps :
    (o : Option Tree) (fix : Tree → Option Tree) (build : Tree → Tree) (es fs : List Entry)
    → Keeps es o
    → ((t : Tree) → Holds (inorder t) (fix t))
    → ((t : Tree)
        → map unflag (inorder t) ≡ map unflag es
        → map unflag (inorder (build t)) ≡ map unflag fs)
    → Keeps fs (o >>= λ t. fix (build t) >>= set_height)
fixed-Keeps o fix build es fs h keep built = Keeps-bind o _ es fs h λ t q.
    Keeps-bind (fix (build t)) _ (inorder (build t)) fs
      (Holds-Keeps _ (fix (build t)) (keep (build t)))
      (λ u s. set_height-Keeps u fs (s ∙ built t q))

map-append_entries : (l r : List Entry) → map unflag (l ++ r) ≡ map unflag l ++ map unflag r
map-append_entries [] r = refl
map-append_entries (e ∷ l) r = ap (◌∷◌ (unflag e)) (map-append_entries l r)

-- a list with one part replaced by another of the same entries but for their flags
pub replaced :
    (l l' : List Entry) (e f : Entry) (r r' : List Entry)
    → map unflag l ≡ map unflag l'
    → unflag e ≡ unflag f
    → map unflag r ≡ map unflag r'
    → map unflag (l ++ e ∷ r) ≡ map unflag (l' ++ f ∷ r')
replaced l l' e f r r' p q s =
    map-append_entries l (e ∷ r) ∙ (λ i. p i ++ q i ∷ s i) ∙ sym (map-append_entries l' (f ∷ r'))
