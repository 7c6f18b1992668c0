-- ===== src/C0Tree/Balance.antt =====
-- The heights of the trees that `Insert` of c0.c returns.
use Prim.Native.Nat.Ordering.{lt, gt}
use cse511_lab.Prelude.{ℕ, suc, ◌≤◌, Option, some, ◌≡◌, refl, max, arith, inl, inr, Ordering-cases}
use cse511_lab.CString.{CString, strcmp}
use cse511_lab.C0Tree.{
  Entry, Tree, null, node, ◌>>=◌, height, set_height, insert_fix_left, insert_fix_right, insert,
}
use native.Mathlib.Decide.{ℕ_discrete}
use cse511_lab.C0Tree.Heights.{height_lem, levels, IsBalanced, Rebuilt}
use cse511_lab.C0Tree.Rebalance.{
  Leans, Grown, balance_factor_lem, right_heavy, not_right_heavy, left_heavy, not_left_heavy,
  rr_rl-Rebuilt, ll_lr-Rebuilt,
}

-- The tree after an insertion on the right: rebalanced where it has to be.
module _ (key : CString) (l : Tree) (e : Entry) (h : ℕ) (r : Tree) (bl : IsBalanced l)
    (br : IsBalanced r) where
  fix_right_heavy :
      levels r ≡ suc (suc (levels l))
      → Leans key r
      → Rebuilt (insert_fix_right key (node l e h r) >>= set_height) (levels r)
  unfolding insert_fix_right
  fix_right_heavy d lean =
      rw (balance_factor_lem l e h r bl br, right_heavy (levels l) (levels r) d)
        (rr_rl-Rebuilt key l e h r bl br d lean)

  fix_right_light :
      levels l ≤ suc (levels r)
      → levels r ≤ suc (levels l)
      → (insert_fix_right key (node l e h r) >>= set_height)
        ≡ some (node l e (max (levels l) (levels r)) r)
  unfolding insert_fix_right set_height
  fix_right_light hl hr = rw (
    balance_factor_lem l e h r bl br,
    not_right_heavy (levels l) (levels r) hr,
    height_lem l e h r bl br,
  )

  fix_left_heavy :
      levels l ≡ suc (suc (levels r))
      → Leans key l
      → Rebuilt (insert_fix_left key (node l e h r) >>= set_height) (levels l)
  unfolding insert_fix_left
  fix_left_heavy d lean =
      rw (balance_factor_lem l e h r bl br, left_heavy (levels l) (levels r) d)
        (ll_lr-Rebuilt key l e h r bl br d lean)

  fix_left_light :
      levels l ≤ suc (levels r)
      → levels r ≤ suc (levels l)
      → (insert_fix_left key (node l e h r) >>= set_height)
        ≡ some (node l e (max (levels l) (levels r)) r)
  unfolding insert_fix_left set_height
  fix_left_light hl hr = rw (
    balance_factor_lem l e h r bl br,
    not_left_heavy (levels l) (levels r) hl,
    height_lem l e h r bl br,
  )

Grown-right :
    (l : Tree) (e : Entry) (h : ℕ) (r : Tree) (x : Entry) (o : Option Tree)
    → IsBalanced (node l e h r)
    → strcmp x.key e.key ≡ gt
    → (g : Grown r x o)
    → Grown (node l e h r) x (insert_fix_right x.key (node l e h g.after) >>= set_height)
Grown-right l e h r x o b p g = elim (ℕ_discrete (levels g.after) (suc (suc (levels l)))) [
  | yes d ↦
      let m : Rebuilt (insert_fix_right x.key (node l e h g.after) >>= set_height)
          (levels g.after) =
        fix_right_heavy x.key l e h g.after b.3 g.balanced d
          (g.leans (omega arith) (omega arith)) in
      record {
        after = m.after;
        returns = m.returns;
        balanced = m.balanced;
        not_lower = omega (arith, m.levels_are);
        at_most_one = omega (arith, m.levels_are);
        leans = λ up high. absurd (omega (arith, m.levels_are));
      }
  | no nd ↦ record {
    after = node l e (max (levels l) (levels g.after)) g.after;
    returns = fix_right_light x.key l e h g.after b.3 g.balanced (omega arith) (omega arith);
    balanced = (refl, omega arith, omega arith, b.3, g.balanced);
    not_lower = omega arith;
    at_most_one = omega arith;
    leans = λ up high. rw (p, Leans) (omega arith);
  }
]

Grown-left :
    (l : Tree) (e : Entry) (h : ℕ) (r : Tree) (x : Entry) (o : Option Tree)
    → IsBalanced (node l e h r)
    → strcmp x.key e.key ≡ lt
    → (g : Grown l x o)
    → Grown (node l e h r) x (insert_fix_left x.key (node g.after e h r) >>= set_height)
Grown-left l e h r x o b p g = elim (ℕ_discrete (levels g.after) (suc (suc (levels r)))) [
  | yes d ↦
      let m : Rebuilt (insert_fix_left x.key (node g.after e h r) >>= set_height) (levels g.after) =
        fix_left_heavy x.key g.after e h r g.balanced b.4 d (g.leans (omega arith) (omega arith)) in
      record {
        after = m.after;
        returns = m.returns;
        balanced = m.balanced;
        not_lower = omega (arith, m.levels_are);
        at_most_one = omega (arith, m.levels_are);
        leans = λ up high. absurd (omega (arith, m.levels_are));
      }
  | no nd ↦ record {
    after = node g.after e (max (levels g.after) (levels r)) r;
    returns = fix_left_light x.key g.after e h r g.balanced b.4 (omega arith) (omega arith);
    balanced = (refl, omega arith, omega arith, g.balanced, b.4);
    not_lower = omega arith;
    at_most_one = omega arith;
    leans = λ up high. rw (p, Leans) (omega arith);
  }
]

same :
    (l : Tree) (e : Entry) (h : ℕ) (r : Tree) (x : Entry)
    → IsBalanced (node l e h r)
    → Grown (node l e h r) x (set_height (node l e h r))
unfolding set_height
same l e h r x b = record {
  after = node l e (height (node l e h r)) r;
  returns = refl;
  balanced = (height_lem l e h r b.3 b.4, b.1, b.2, b.3, b.4);
  not_lower = omega arith;
  at_most_one = omega arith;
  leans = λ up high. absurd (omega arith);
}

-- Insert on a balanced tree never reads through a NULL pointer; it returns a balanced tree with
-- exact heights, of as many levels as before or one more.
pub insert-Grown : (t : Tree) (x : Entry) → IsBalanced t → Grown t x (insert t x)
unfolding insert
insert-Grown null x b = record {
  after = node null x 0 null;
  returns = refl;
  balanced = (omega arith, omega arith, omega arith, tt, tt);
  not_lower = omega arith;
  at_most_one = omega arith;
  leans = λ up high. absurd (omega arith);
}
insert-Grown (node l e h r) x b = elim (Ordering-cases (strcmp x.key e.key)) [
  | inl p ↦
      let g : Grown l x (insert l x) = insert-Grown l x b.3 in
      rw (p, insert, g.returns) (Grown-left l e h r x (insert l x) b p g)
  | inr (inl p) ↦ rw (p, insert) (same l e h r x b)
  | inr (inr p) ↦
      let g : Grown r x (insert r x) = insert-Grown r x b.4 in
      rw (p, insert, g.returns) (Grown-right l e h r x (insert r x) b p g)
]
