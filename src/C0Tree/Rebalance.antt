-- ===== src/C0Tree/Rebalance.antt =====
-- The rotations of `Insert` of c0.c on a tree that leans.
use Prim.Native.Nat.Ordering.{lt, eq, gt}
use cse511_lab.Prelude.{
  ℕ, suc, ◌≤◌, ◌<◌, Option, some, ◌≡◌, arith, inl, inr, Ordering-cases, true, false,
}
use cse511_lab.Prelude.Signed.{pos, negsuc, eq_ℤ, sub_ℕ}
use cse511_lab.CString.{CString, strcmp}
use cse511_lab.C0Tree.{
  Entry, Tree, null, node, ◌>>=◌, balance_factor, set_height, rotate_left, rotate_right, left_right,
  right_left, insert_rr_rl, insert_ll_lr,
}
use cse511_lab.C0Tree.Heights.{
  levels, IsBalanced, child_height-levels, Rebuilt, Rebuilt-of_eq, rotate_left-Rebuilt,
  rotate_right-Rebuilt, double_left, double_right,
}

-- The subtree on the key's side is the higher one.
abbrev pub Leans : CString → Tree → Type 0
Leans key null = ⊥
Leans key (node l e h r) = elim (strcmp key e.key) [
  | gt ↦ levels r ≡ suc (levels l)
  | lt ↦ levels l ≡ suc (levels r)
  | eq ↦ ⊥
]

-- What `Insert` returns for a balanced tree: a balanced one, higher by one level at most, and then
-- higher on the side where the key went.
pub record Grown (t : Tree) (x : Entry) (o : Option Tree) : Type 0 where
  pub after : Tree
  pub returns : o ≡ some after
  pub balanced : IsBalanced after
  pub not_lower : levels t ≤ levels after
  pub at_most_one : levels after ≤ suc (levels t)
  pub leans : levels after ≡ suc (levels t) → 1 < levels after → Leans x.key after

pub balance_factor_lem :
    (l : Tree) (e : Entry) (h : ℕ) (r : Tree)
    → IsBalanced l
    → IsBalanced r
    → balance_factor (node l e h r) ≡ sub_ℕ (levels l) (levels r)
unfolding balance_factor
balance_factor_lem l e h r bl br = rw (child_height-levels l bl, child_height-levels r br)

pub right_heavy : (a b : ℕ) → b ≡ suc (suc a) → eq_ℤ (sub_ℕ a b) (negsuc 1) ≡ true
right_heavy a b e = ground arith

pub not_right_heavy : (a b : ℕ) → b ≤ suc a → eq_ℤ (sub_ℕ a b) (negsuc 1) ≡ false
not_right_heavy a b h = ground arith

pub left_heavy : (a b : ℕ) → a ≡ suc (suc b) → eq_ℤ (sub_ℕ a b) (pos 2) ≡ true
left_heavy a b e = ground arith

pub not_left_heavy : (a b : ℕ) → a ≤ suc b → eq_ℤ (sub_ℕ a b) (pos 2) ≡ false
not_left_heavy a b h = ground arith

module _ (key : CString) (l : Tree) (e : Entry) (h : ℕ) (a : Tree) (f : Entry) (k : ℕ)
    (b : Tree) where
  rr_of_gt :
      strcmp key f.key ≡ gt
      → insert_rr_rl key (node l e h (node a f k b)) ≡ rotate_left (node l e h (node a f k b))
  unfolding insert_rr_rl
  rr_of_gt p = rw (p, insert_rr_rl)

  rl_of_lt :
      strcmp key f.key ≡ lt
      → insert_rr_rl key (node l e h (node a f k b)) ≡ right_left (node l e h (node a f k b))
  unfolding insert_rr_rl
  rl_of_lt p = rw (p, insert_rr_rl)

  lr_of_gt :
      strcmp key f.key ≡ gt
      → insert_ll_lr key (node (node a f k b) e h l) ≡ left_right (node (node a f k b) e h l)
  unfolding insert_ll_lr
  lr_of_gt p = rw (p, insert_ll_lr)

  ll_of_lt :
      strcmp key f.key ≡ lt
      → insert_ll_lr key (node (node a f k b) e h l) ≡ rotate_right (node (node a f k b) e h l)
  unfolding insert_ll_lr
  ll_of_lt p = rw (p, insert_ll_lr)

-- RR or RL restores the height that the tree had.
pub rr_rl-Rebuilt :
    (key : CString) (l : Tree) (e : Entry) (h : ℕ) (r : Tree)
    → IsBalanced l
    → IsBalanced r
    → levels r ≡ suc (suc (levels l))
    → Leans key r
    → Rebuilt (insert_rr_rl key (node l e h r) >>= set_height) (levels r)
rr_rl-Rebuilt key l e h null bl br d lean = absurd lean
rr_rl-Rebuilt key l e h (node rl re rh rr) bl br d lean =
    elim (Ordering-cases (strcmp key re.key)) [
      | inl p ↦
          let low : levels rl ≡ suc (levels rr) = rw (p, Leans) at lean in
          rw (rl_of_lt key l e h rl re rh rr p) (
            Rebuilt-of_eq _ (omega arith)
              (double_left l e h rl re rh rr bl br (omega arith) (omega arith)))
      | inr (inl p) ↦ absurd (rw (p, Leans) at lean)
      | inr (inr p) ↦
          let high : levels rr ≡ suc (levels rl) = rw (p, Leans) at lean in
          rw (rr_of_gt key l e h rl re rh rr p) (
            Rebuilt-of_eq _ (omega arith) (
              rotate_left-Rebuilt l rl rr e re h rh bl br.3 br.4 (omega arith) (omega arith)
                (omega arith) (omega arith)))
    ]

-- LL or LR restores the height that the tree had.
pub ll_lr-Rebuilt :
    (key : CString) (l : Tree) (e : Entry) (h : ℕ) (r : Tree)
    → IsBalanced l
    → IsBalanced r
    → levels l ≡ suc (suc (levels r))
    → Leans key l
    → Rebuilt (insert_ll_lr key (node l e h r) >>= set_height) (levels l)
ll_lr-Rebuilt key null e h r bl br d lean = absurd lean
ll_lr-Rebuilt key (node ll le lh lr) e h r bl br d lean =
    elim (Ordering-cases (strcmp key le.key)) [
      | inl p ↦
          let high : levels ll ≡ suc (levels lr) = rw (p, Leans) at lean in
          rw (ll_of_lt key r e h ll le lh lr p) (
            Rebuilt-of_eq _ (omega arith) (
              rotate_right-Rebuilt ll lr r e le h lh bl.3 bl.4 br (omega arith) (omega arith)
                (omega arith) (omega arith)))
      | inr (inl p) ↦ absurd (rw (p, Leans) at lean)
      | inr (inr p) ↦
          let low : levels lr ≡ suc (levels ll) = rw (p, Leans) at lean in
          rw (lr_of_gt key r e h ll le lh lr p) (
            Rebuilt-of_eq _ (omega arith)
              (double_right ll le lh lr e h r bl br (omega arith) (omega arith)))
    ]
