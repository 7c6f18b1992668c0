-- ===== src/C0Tree/Inorder.antt =====
-- The functions of c0.c on the list of a tree's entries, in order.
use Prim.Native.Nat.Ordering.{lt, eq, gt}
use cse511_lab.Prelude.{
  ℕ, List, [], ◌∷◌, ◌++◌, Option, none, some, ◌≡◌, refl, sym, ap, ◌∙◌, append_assoc, inl, inr,
  Ordering-cases, Ordering, Bool, true, false, if◌then◌else◌, subst,
}
use cse511_lab.CString.{CString, strcmp}
use cse511_lab.C0Tree.{
  Entry, Tree, null, node, ◌>>=◌, set_height, rotate_left, rotate_right, left_right, right_left,
  insert_rr_rl, insert_ll_lr, insert_fix_left, insert_fix_right, insert,
}
use cse511_lab.C0Tree.Ascending.{
  IsAscending, add, SplitAt, split_at, add-append_below, add_right, add_same,
}

-- the entries of a tree, left to right
unfoldable pub inorder : Tree → List Entry
inorder null = []
inorder (node l e h r) = inorder l ++ e ∷ inorder r

-- if the call returns a tree, then one with these entries
abbrev pub Holds : List Entry → Option Tree → Type 0
Holds es none = Unit {0}
Holds es (some t) = inorder t ≡ es

pub Holds-bind :
    (o : Option Tree) (f : Tree → Option Tree) (es fs : List Entry)
    → Holds es o
    → ((t : Tree) → inorder t ≡ es → Holds fs (f t))
    → Holds fs (o >>= f)
Holds-bind none f es fs h k = tt
Holds-bind (some t) f es fs h k = k t h

pub set_height-Holds : (t : Tree) (es : List Entry) → inorder t ≡ es → Holds es (set_height t)
unfolding set_height inorder
set_height-Holds null es e = tt
set_height-Holds (node l x h r) es e = e

Holds-cast : (es fs : List Entry) (o : Option Tree) → es ≡ fs → Holds es o → Holds fs o
Holds-cast es fs o e h = subst (λ gs. Holds gs o) e h

pub Holds-if :
    (es : List Entry) (b : Bool) (o p : Option Tree)
    → Holds es o
    → Holds es p
    → Holds es (if b then o else p)
Holds-if es true o p h k = h
Holds-if es false o p h k = k

Holds-elim :
    (es : List Entry) (c : Ordering) (o p q : Option Tree)
    → Holds es o
    → Holds es p
    → Holds es q
    → Holds es (elim c [ lt ↦ o | eq ↦ p | gt ↦ q ])
Holds-elim es lt o p q h k m = h
Holds-elim es eq o p q h k m = k
Holds-elim es gt o p q h k m = m

pub rotate_left-Holds : (t : Tree) → Holds (inorder t) (rotate_left t)
unfolding rotate_left inorder
rotate_left-Holds (node a x hx (node b y hy c)) =
    append_assoc (inorder a) (x ∷ inorder b) (y ∷ inorder c)
rotate_left-Holds _ = tt

pub rotate_right-Holds : (t : Tree) → Holds (inorder t) (rotate_right t)
unfolding rotate_right inorder
rotate_right-Holds (node (node a y hy b) x hx c) =
    sym (append_assoc (inorder a) (y ∷ inorder b) (x ∷ inorder c))
rotate_right-Holds _ = tt

-- a tree with one subtree replaced by another of the same entries
inorder-left :
    (l l' : Tree) (e : Entry) (h : ℕ) (r : Tree)
    → inorder l' ≡ inorder l
    → inorder (node l' e h r) ≡ inorder (node l e h r)
unfolding inorder
inorder-left l l' e h r q = ap (λ es. es ++ e ∷ inorder r) q

inorder-right :
    (l : Tree) (e : Entry) (h : ℕ) (r r' : Tree)
    → inorder r' ≡ inorder r
    → inorder (node l e h r') ≡ inorder (node l e h r)
unfolding inorder
inorder-right l e h r r' q = ap (λ es. inorder l ++ e ∷ es) q

pub left_right-Holds : (t : Tree) → Holds (inorder t) (left_right t)
unfolding left_right
left_right-Holds null = tt
left_right-Holds (node l e h r) =
    Holds-bind (rotate_left l) _ (inorder l) (inorder (node l e h r)) (rotate_left-Holds l)
      (λ l' q. Holds-cast _ _ _ (inorder-left l l' e h r q) (rotate_right-Holds (node l' e h r)))

pub right_left-Holds : (t : Tree) → Holds (inorder t) (right_left t)
unfolding right_left
right_left-Holds null = tt
right_left-Holds (node l e h r) =
    Holds-bind (rotate_right r) _ (inorder r) (inorder (node l e h r)) (rotate_right-Holds r)
      (λ r' q. Holds-cast _ _ _ (inorder-right l e h r r' q) (rotate_left-Holds (node l e h r')))

insert_rr_rl-Holds : (key : CString) (t : Tree) → Holds (inorder t) (insert_rr_rl key t)
unfolding insert_rr_rl
insert_rr_rl-Holds key (node l e h (node a f k b)) =
    let t : Tree = node l e h (node a f k b) in
    Holds-elim _ (strcmp key f.key) _ _ _ (right_left-Holds t) (right_left-Holds t)
      (rotate_left-Holds t)
insert_rr_rl-Holds key _ = tt

insert_ll_lr-Holds : (key : CString) (t : Tree) → Holds (inorder t) (insert_ll_lr key t)
unfolding insert_ll_lr
insert_ll_lr-Holds key (node (node a f k b) e h r) =
    let t : Tree = node (node a f k b) e h r in
    Holds-elim _ (strcmp key f.key) _ _ _ (rotate_right-Holds t) (rotate_right-Holds t)
      (left_right-Holds t)
insert_ll_lr-Holds key _ = tt

insert_fix_right-Holds : (key : CString) (t : Tree) → Holds (inorder t) (insert_fix_right key t)
unfolding insert_fix_right
insert_fix_right-Holds key t = Holds-if _ _ _ (some t) (insert_rr_rl-Holds key t) refl

insert_fix_left-Holds : (key : CString) (t : Tree) → Holds (inorder t) (insert_fix_left key t)
unfolding insert_fix_left
insert_fix_left-Holds key t = Holds-if _ _ _ (some t) (insert_ll_lr-Holds key t) refl

-- the recursive call, the rebalancing and the new height, one after another
fixed-Holds :
    (o : Option Tree) (fix : Tree → Option Tree) (build : Tree → Tree) (es fs : List Entry)
    → Holds es o
    → ((t : Tree) → Holds (inorder t) (fix t))
    → ((t : Tree) → inorder t ≡ es → inorder (build t) ≡ fs)
    → Holds fs (o >>= λ t. fix (build t) >>= set_height)
fixed-Holds o fix build es fs h keep built = Holds-bind o _ es fs h λ t q.
    Holds-bind (fix (build t)) _ (inorder (build t)) fs (keep (build t))
      (λ u s. set_height-Holds u fs (s ∙ built t q))

-- Insert, where it returns a tree, has added the entry in the place of its key.
pub insert-Holds :
    (t : Tree) (x : Entry) → IsAscending (inorder t) → Holds (add x (inorder t)) (insert t x)
unfolding insert inorder
insert-Holds null x s = unfold add in refl
insert-Holds (node l e h r) x s =
    let parts : SplitAt (inorder l) e (inorder r) = split_at (inorder l) e (inorder r) s in
    elim (Ordering-cases (strcmp x.key e.key)) [
      | inl p ↦
          rw (p, insert)
            (fixed-Holds (insert l x) (insert_fix_left x.key) (λ l'. node l' e h r)
              (add x (inorder l)) _ (insert-Holds l x parts.left) (insert_fix_left-Holds x.key)
              (λ l' q.
                ap (λ es. es ++ e ∷ inorder r) q
                ∙ sym (add-append_below x (inorder l) e (inorder r) p)))
      | inr (inl p) ↦ rw (p, insert) (sym (add_same x (inorder l) e (inorder r) parts.below p))
      | inr (inr p) ↦
          rw (p, insert)
            (fixed-Holds (insert r x) (insert_fix_right x.key) (λ r'. node l e h r')
              (add x (inorder r)) _ (insert-Holds r x parts.right) (insert_fix_right-Holds x.key)
              (λ r' q.
                ap (λ es. inorder l ++ e ∷ es) q
                ∙ sym (add_right x (inorder l) e (inorder r) parts.below p)))
    ]
