-- ===== src/C0Tree/Heights.antt =====
-- The number of levels of a c0 tree, what it means to be balanced, and the rotations of c0.c.
use cse511_lab.Prelude.{ℕ, suc, ◌≤◌, Option, some, ◌≡◌, refl, max, arith, subst}
use cse511_lab.C0Tree.{
  Entry, Tree, null, node, ◌>>=◌, child_height, height, set_height, rotate_left, rotate_right,
  left_right, right_left,
}

abbrev pub levels : Tree → ℕ
levels null = 0
levels (node l e h r) = suc (max (levels l) (levels r))

-- the subtrees of every node differ by one level at most, and `ht` is the height, 0 for a leaf
abbrev pub IsBalanced : Tree → Type 0
IsBalanced null = Unit {0}
IsBalanced (node l e h r) =
    (h ≡ max (levels l) (levels r))
    × (levels l ≤ suc (levels r))
    × (levels r ≤ suc (levels l))
    × IsBalanced l
    × IsBalanced r

pub child_height-levels : (t : Tree) → IsBalanced t → child_height t ≡ levels t
unfolding child_height
child_height-levels null b = refl
child_height-levels (node l e h r) b = omega arith

pub height_lem :
    (l : Tree) (e : Entry) (h : ℕ) (r : Tree)
    → IsBalanced l
    → IsBalanced r
    → height (node l e h r) ≡ max (levels l) (levels r)
unfolding height
height_lem l e h r bl br = ground (arith, child_height-levels l bl, child_height-levels r br)

-- The call returns a balanced tree of `n` levels.
pub record Rebuilt (o : Option Tree) (n : ℕ) : Type 0 where
  pub after : Tree
  pub returns : o ≡ some after
  pub balanced : IsBalanced after
  pub levels_are : levels after ≡ n

pub Rebuilt-of_eq : (o : Option Tree) {m n : ℕ} → m ≡ n → Rebuilt o m → Rebuilt o n
Rebuilt-of_eq o e b = subst (Rebuilt o) e b

pub set_height-Rebuilt :
    (l : Tree) (e : Entry) (h : ℕ) (r : Tree)
    → IsBalanced l
    → IsBalanced r
    → levels l ≤ suc (levels r)
    → levels r ≤ suc (levels l)
    → Rebuilt (set_height (node l e h r)) (suc (max (levels l) (levels r)))
unfolding set_height
set_height-Rebuilt l e h r bl br hl hr = record {
  after = node l e (height (node l e h r)) r;
  returns = refl;
  balanced = (height_lem l e h r bl br, hl, hr, bl, br);
  levels_are = refl;
}

pub rotate_left-Rebuilt :
    (a b c : Tree) (x y : Entry) (hx hy : ℕ)
    → IsBalanced a
    → IsBalanced b
    → IsBalanced c
    → levels a ≤ suc (levels b)
    → levels b ≤ suc (levels a)
    → max (levels a) (levels b) ≤ levels c
    → levels c ≤ suc (suc (max (levels a) (levels b)))
    → Rebuilt
        (rotate_left (node a x hx (node b y hy c)) >>= set_height)
        (suc (max (suc (max (levels a) (levels b))) (levels c)))
unfolding rotate_left
rotate_left-Rebuilt a b c x y hx hy ba bb bc hab hba low high =
    set_height-Rebuilt (node a x (height (node a x hx b)) b) y _ c
      (height_lem a x hx b ba bb, hab, hba, ba, bb) bc (omega arith) (omega arith)

pub rotate_right-Rebuilt :
    (a b c : Tree) (x y : Entry) (hx hy : ℕ)
    → IsBalanced a
    → IsBalanced b
    → IsBalanced c
    → levels b ≤ suc (levels c)
    → levels c ≤ suc (levels b)
    → max (levels b) (levels c) ≤ levels a
    → levels a ≤ suc (suc (max (levels b) (levels c)))
    → Rebuilt
        (rotate_right (node (node a y hy b) x hx c) >>= set_height)
        (suc (max (levels a) (suc (max (levels b) (levels c)))))
unfolding rotate_right
rotate_right-Rebuilt a b c x y hx hy ba bb bc hbc hcb low high =
    set_height-Rebuilt a y _ (node b x (height (node b x hx c)) c) ba
      (height_lem b x hx c bb bc, hbc, hcb, bb, bc) (omega arith) (omega arith)

module _ (a b c d : Tree) (x y z : Entry) (hx hy hz n : ℕ) (ba : IsBalanced a) (bb : IsBalanced b)
    (bc : IsBalanced c) (bd : IsBalanced d) (la : levels a ≡ n) (ld : levels d ≡ n)
    (inner : max (levels b) (levels c) ≡ n) (hb : n ≤ suc (levels b))
    (hc : n ≤ suc (levels c)) where
  -- `RL`: the middle tree becomes the root
  pub right_left-Rebuilt :
      Rebuilt (right_left (node a x hx (node (node b y hy c) z hz d)) >>= set_height) (suc (suc n))
  unfolding right_left rotate_right rotate_left
  right_left-Rebuilt =
      let left : IsBalanced (node a x (height (node a x hx b)) b) =
        (height_lem a x hx b ba bb, omega arith, omega arith, ba, bb) in
      let right : IsBalanced (node c z (height (node c z hz d)) d) =
        (height_lem c z hz d bc bd, omega arith, omega arith, bc, bd) in
      Rebuilt-of_eq _ (omega arith) (
        set_height-Rebuilt (node a x (height (node a x hx b)) b) y _
          (node c z (height (node c z hz d)) d) left right (omega arith) (omega arith))

  -- `LR`
  pub left_right-Rebuilt :
      Rebuilt (left_right (node (node a x hx (node b y hy c)) z hz d) >>= set_height) (suc (suc n))
  unfolding left_right rotate_right rotate_left
  left_right-Rebuilt =
      let left : IsBalanced (node a x (height (node a x hx b)) b) =
        (height_lem a x hx b ba bb, omega arith, omega arith, ba, bb) in
      let right : IsBalanced (node c z (height (node c z hz d)) d) =
        (height_lem c z hz d bc bd, omega arith, omega arith, bc, bd) in
      Rebuilt-of_eq _ (omega arith) (
        set_height-Rebuilt (node a x (height (node a x hx b)) b) y _
          (node c z (height (node c z hz d)) d) left right (omega arith) (omega arith))

-- A right subtree that is two levels higher, and leans to the left: RL.
pub double_left :
    (l : Tree) (e : Entry) (h : ℕ) (rl : Tree) (re : Entry) (rh : ℕ) (rr : Tree)
    → IsBalanced l
    → IsBalanced (node rl re rh rr)
    → levels rl ≡ suc (levels l)
    → levels rr ≡ levels l
    → Rebuilt (right_left (node l e h (node rl re rh rr)) >>= set_height) (suc (suc (levels l)))
double_left l e h null re rh rr bl br high low = absurd (omega arith)
double_left l e h (node b y hy c) re rh rr bl br high low =
    right_left-Rebuilt l b c rr e y re h hy rh (levels l) bl br.3.3 br.3.4 br.4 refl low
      (omega arith) (omega arith) (omega arith)

-- A left subtree that is two levels higher, and leans to the right: LR.
pub double_right :
    (ll : Tree) (le : Entry) (lh : ℕ) (lr : Tree) (e : Entry) (h : ℕ) (r : Tree)
    → IsBalanced (node ll le lh lr)
    → IsBalanced r
    → levels lr ≡ suc (levels r)
    → levels ll ≡ levels r
    → Rebuilt (left_right (node (node ll le lh lr) e h r) >>= set_height) (suc (suc (levels r)))
double_right ll le lh null e h r bl br high low = absurd (omega arith)
double_right ll le lh (node b y hy c) e h r bl br high low =
    left_right-Rebuilt ll b c r le y e lh hy h (levels r) bl.3 bl.4.3 bl.4.4 br low refl
      (omega arith) (omega arith) (omega arith)
