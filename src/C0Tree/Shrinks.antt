-- ===== src/C0Tree/Shrinks.antt =====
-- The heights of the trees that `Delete` of c0.c returns.
use native.Mathlib.Decide.{ℕ_discrete, dec_le}
use cse511_lab.Prelude.{
  ℕ, suc, ◌≤◌, Option, some, ◌≡◌, refl, max, arith, inl, inr, Ordering-cases, true, false,
}
use cse511_lab.Prelude.Signed.{is_nonneg, is_nonpos, sub_ℕ}
use cse511_lab.CString.{CString, strcmp}
use cse511_lab.C0Tree.{
  Entry, Tree, null, node, ◌>>=◌, set_height, delete_fix_left_heavy, delete_fix_right_heavy,
  leftmost, take_over, delete,
}
use cse511_lab.C0Tree.Heights.{
  height_lem, levels, IsBalanced, Rebuilt, rotate_left-Rebuilt, rotate_right-Rebuilt, double_left,
  double_right,
}
use cse511_lab.C0Tree.Rebalance.{
  balance_factor_lem, right_heavy, not_right_heavy, left_heavy, not_left_heavy,
}

-- The call returns a balanced tree, of `n` levels or one less.
pub record Shrunk (n : ℕ) (o : Option Tree) : Type 0 where
  pub after : Tree
  pub returns : o ≡ some after
  pub balanced : IsBalanced after
  pub not_higher : levels after ≤ n
  pub at_most_one : n ≤ suc (levels after)

Shrunk-Rebuilt : (n m : ℕ) (o : Option Tree) → m ≤ n → n ≤ suc m → Rebuilt o m → Shrunk n o
Shrunk-Rebuilt n m o low high b = record {
  after = b.after;
  returns = b.returns;
  balanced = b.balanced;
  not_higher = omega (arith, b.levels_are);
  at_most_one = omega (arith, b.levels_are);
}

nonneg_of_le : (a b : ℕ) → b ≤ a → is_nonneg (sub_ℕ a b) ≡ true
nonneg_of_le a b h = ground arith

negative_of_lt : (a b : ℕ) → suc a ≤ b → is_nonneg (sub_ℕ a b) ≡ false
negative_of_lt a b h = ground arith

nonpos_of_le : (a b : ℕ) → a ≤ b → is_nonpos (sub_ℕ a b) ≡ true
nonpos_of_le a b h = ground arith

positive_of_lt : (a b : ℕ) → suc b ≤ a → is_nonpos (sub_ℕ a b) ≡ false
positive_of_lt a b h = ground arith

-- a left subtree that is two levels higher
fix_left :
    (l : Tree) (e : Entry) (h : ℕ) (r : Tree)
    → IsBalanced l
    → IsBalanced r
    → levels l ≡ suc (suc (levels r))
    → Shrunk (suc (levels l)) (delete_fix_left_heavy (node l e h r) >>= set_height)
unfolding delete_fix_left_heavy
fix_left null e h r bl br d = absurd (omega arith)
fix_left (node ll le lh lr) e h r bl br d =
    let l : Tree = node ll le lh lr in
    let outer = balance_factor_lem l e h r bl br in
    let inner = balance_factor_lem ll le lh lr bl.3 bl.4 in
    elim (dec_le (levels lr) (levels ll)) [
      | yes p ↦
          rw
            (
              outer,
              left_heavy (levels l) (levels r) d,
              inner,
              nonneg_of_le (levels ll) (levels lr) p,
            )
            (Shrunk-Rebuilt _ _ _ (omega arith) (omega arith) (
              rotate_right-Rebuilt ll lr r e le h lh bl.3 bl.4 br (omega arith) (omega arith)
                (omega arith) (omega arith)))
      | no p ↦
          rw
            (
              outer,
              left_heavy (levels l) (levels r) d,
              inner,
              negative_of_lt (levels ll) (levels lr) (omega arith),
            )
            (Shrunk-Rebuilt _ _ _ (omega arith) (omega arith)
              (double_right ll le lh lr e h r bl br (omega arith) (omega arith)))
    ]

-- a right subtree that is two levels higher
fix_right :
    (l : Tree) (e : Entry) (h : ℕ) (r : Tree)
    → IsBalanced l
    → IsBalanced r
    → levels r ≡ suc (suc (levels l))
    → Shrunk (suc (levels r)) (delete_fix_right_heavy (node l e h r) >>= set_height)
unfolding delete_fix_right_heavy
fix_right l e h null bl br d = absurd (omega arith)
fix_right l e h (node rl re rh rr) bl br d =
    let r : Tree = node rl re rh rr in
    let outer = balance_factor_lem l e h r bl br in
    let inner = balance_factor_lem rl re rh rr br.3 br.4 in
    elim (dec_le (levels rl) (levels rr)) [
      | yes p ↦
          rw
            (
              outer,
              right_heavy (levels l) (levels r) d,
              inner,
              nonpos_of_le (levels rl) (levels rr) p,
            )
            (Shrunk-Rebuilt _ _ _ (omega arith) (omega arith) (
              rotate_left-Rebuilt l rl rr e re h rh bl br.3 br.4 (omega arith) (omega arith)
                (omega arith) (omega arith)))
      | no p ↦
          rw
            (
              outer,
              right_heavy (levels l) (levels r) d,
              inner,
              positive_of_lt (levels rl) (levels rr) (omega arith),
            )
            (Shrunk-Rebuilt _ _ _ (omega arith) (omega arith)
              (double_left l e h rl re rh rr bl br (omega arith) (omega arith)))
    ]

module _ (l : Tree) (e : Entry) (h : ℕ) (r : Tree) (bl : IsBalanced l) (br : IsBalanced r)
    (hl : levels l ≤ suc (levels r)) (hr : levels r ≤ suc (levels l)) where
  fix_left_light :
      (delete_fix_left_heavy (node l e h r) >>= set_height)
      ≡ some (node l e (max (levels l) (levels r)) r)
  unfolding delete_fix_left_heavy set_height
  fix_left_light = rw (
    balance_factor_lem l e h r bl br,
    not_left_heavy (levels l) (levels r) hl,
    height_lem l e h r bl br,
  )

  fix_right_light :
      (delete_fix_right_heavy (node l e h r) >>= set_height)
      ≡ some (node l e (max (levels l) (levels r)) r)
  unfolding delete_fix_right_heavy set_height
  fix_right_light = rw (
    balance_factor_lem l e h r bl br,
    not_right_heavy (levels l) (levels r) hr,
    height_lem l e h r bl br,
  )

-- the node behind a deletion on the right, with the entry that it has then
Shrunk-right :
    (l : Tree) (e f : Entry) (h : ℕ) (r : Tree) (o : Option Tree)
    → IsBalanced (node l e h r)
    → (g : Shrunk (levels r) o)
    → Shrunk (levels (node l e h r)) (delete_fix_left_heavy (node l f h g.after) >>= set_height)
Shrunk-right l e f h r o b g = elim (ℕ_discrete (levels l) (suc (suc (levels g.after)))) [
  | yes d ↦
      let m : Shrunk (suc (levels l)) (delete_fix_left_heavy (node l f h g.after) >>= set_height) =
        fix_left l f h g.after b.3 g.balanced d in
      record {
        after = m.after;
        returns = m.returns;
        balanced = m.balanced;
        not_higher = omega (arith, m.not_higher, g.not_higher, g.at_most_one);
        at_most_one = omega (arith, m.at_most_one, g.not_higher, g.at_most_one);
      }
  | no nd ↦ record {
    after = node l f (max (levels l) (levels g.after)) g.after;
    returns =
        fix_left_light l f h g.after b.3 g.balanced (omega (arith, g.not_higher, g.at_most_one))
          (omega (arith, g.not_higher, g.at_most_one));
    balanced = (
      refl,
      omega (arith, g.not_higher, g.at_most_one),
      omega (arith, g.not_higher, g.at_most_one),
      b.3,
      g.balanced,
    );
    not_higher = omega (arith, g.not_higher);
    at_most_one = omega (arith, g.at_most_one);
  }
]

Shrunk-left :
    (l : Tree) (e : Entry) (h : ℕ) (r : Tree) (o : Option Tree)
    → IsBalanced (node l e h r)
    → (g : Shrunk (levels l) o)
    → Shrunk (levels (node l e h r)) (delete_fix_right_heavy (node g.after e h r) >>= set_height)
Shrunk-left l e h r o b g = elim (ℕ_discrete (levels r) (suc (suc (levels g.after)))) [
  | yes d ↦
      let m : Shrunk (suc (levels r)) (delete_fix_right_heavy (node g.after e h r) >>= set_height) =
        fix_right g.after e h r g.balanced b.4 d in
      record {
        after = m.after;
        returns = m.returns;
        balanced = m.balanced;
        not_higher = omega (arith, m.not_higher, g.not_higher, g.at_most_one);
        at_most_one = omega (arith, m.at_most_one, g.not_higher, g.at_most_one);
      }
  | no nd ↦ record {
    after = node g.after e (max (levels g.after) (levels r)) r;
    returns =
        fix_right_light g.after e h r g.balanced b.4 (omega (arith, g.not_higher, g.at_most_one))
          (omega (arith, g.not_higher, g.at_most_one));
    balanced = (
      refl,
      omega (arith, g.not_higher, g.at_most_one),
      omega (arith, g.not_higher, g.at_most_one),
      g.balanced,
      b.4,
    );
    not_higher = omega (arith, g.not_higher);
    at_most_one = omega (arith, g.at_most_one);
  }
]

-- Delete on a balanced tree never reads through a NULL pointer; it returns a balanced tree with
-- exact heights, of as many levels as before or one less.
pub delete-Shrunk : (t : Tree) (key : CString) → IsBalanced t → Shrunk (levels t) (delete t key)
unfolding delete
delete-Shrunk null key b = record {
  after = null;
  returns = refl;
  balanced = tt;
  not_higher = omega arith;
  at_most_one = omega arith;
}
delete-Shrunk (node l e h null) key b = elim (Ordering-cases (strcmp key e.key)) [
  | inl p ↦
      let g : Shrunk (levels l) (delete l key) = delete-Shrunk l key b.3 in
      rw (p, delete, g.returns) (Shrunk-left l e h null (delete l key) b g)
  | inr (inl p) ↦
      rw (p, delete)
        (record {
          after = l;
          returns = refl;
          balanced = b.3;
          not_higher = omega arith;
          at_most_one = omega arith;
        })
  | inr (inr p) ↦
      let g : Shrunk (levels null) (some null) = record {
        after = null;
        returns = refl;
        balanced = tt;
        not_higher = omega arith;
        at_most_one = omega arith;
      } in
      rw (p, delete) (Shrunk-right l e e h null (some null) b g)
]
delete-Shrunk (node l e h (node rl re rh rr)) key b = elim (Ordering-cases (strcmp key e.key)) [
  | inl p ↦
      let g : Shrunk (levels l) (delete l key) = delete-Shrunk l key b.3 in
      rw (p, delete, g.returns) (Shrunk-left l e h (node rl re rh rr) (delete l key) b g)
  | inr (inl p) ↦
      let q = leftmost rl re in
      let g : Shrunk (levels (node rl re rh rr)) (delete (node rl re rh rr) q.key) =
        delete-Shrunk (node rl re rh rr) q.key b.4 in
      rw (p, delete, g.returns)
        (Shrunk-right l e (take_over e q) h (node rl re rh rr) (delete (node rl re rh rr) q.key) b
          g)
  | inr (inr p) ↦
      let g : Shrunk (levels (node rl re rh rr)) (delete (node rl re rh rr) key) =
        delete-Shrunk (node rl re rh rr) key b.4 in
      rw (p, delete, g.returns)
        (Shrunk-right l e e h (node rl re rh rr) (delete (node rl re rh rr) key) b g)
]
