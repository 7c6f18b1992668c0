-- ===== src/C0Tree/Depth.antt =====
-- How deep a tree of c0.c is, for the number of its entries.
use cse511_lab.Prelude.{
  ℕ, zero, suc, List, [], ◌∷◌, some, length, ◌+◌, ◌≤◌, ◌<◌, ◌≡◌, refl, ◌∙◌, arith, max, inl, inr,
  leb, Bool-cases,
}
use cse511_lab.C0Tree.{Entry, Tree, null, node, size, insert}
use cse511_lab.C0Tree.Ascending.{add}
use cse511_lab.C0Tree.Inorder.{inorder}
use cse511_lab.C0Tree.Reads.{size-inorder}
use cse511_lab.C0Tree.Heights.{levels, IsBalanced}
use cse511_lab.C0Tree.Ordered.{IsValid, insert_refines}

-- the fewest entries of a balanced tree of so many levels
abbrev pub fewest : ℕ → ℕ
fewest zero = 0
fewest (suc zero) = 1
fewest (suc (suc n)) = 1 + fewest (suc n) + fewest n

fewest_step : (n : ℕ) → fewest n ≤ fewest (suc n)
fewest_step zero = omega arith
fewest_step (suc n) = omega arith

fewest_mono : (m n : ℕ) → m ≤ n → fewest m ≤ fewest n
fewest_mono m zero h = let none_less : m ≡ 0 = omega arith in rw none_less (omega arith)
fewest_mono m (suc n) h = elim (Bool-cases (leb m n)) [
  | inl p ↦ let below = fewest_mono m n (ground arith) in let next = fewest_step n in omega arith
  | inr p ↦ let same : m ≡ suc n = ground arith in rw same (omega arith)
]

fewest_even : (a : ℕ) → fewest (suc a) ≤ suc (fewest a + fewest a)
fewest_even zero = omega arith
fewest_even (suc a) = omega (arith, fewest_step a)

fewest_above : (a b m : ℕ) → a ≡ suc b → m ≡ a → fewest (suc m) ≤ suc (fewest a + fewest b)
fewest_above a b m e k = let top : m ≡ suc b = k ∙ e in rw (top, e) (omega arith)

-- two subtrees of a balanced node
fewest_node : (a b : ℕ) → a ≤ suc b → b ≤ suc a → fewest (suc (max a b)) ≤ suc (fewest a + fewest b)
fewest_node a b h k = elim (Bool-cases (leb a b)) [
  | inl p ↦ elim (Bool-cases (leb b a)) [
    | inl q ↦
        let same : b ≡ a = ground arith in
        let top : max a b ≡ a = ground arith in rw (top, same) (fewest_even a)
    | inr q ↦ let swapped = fewest_above b a (max a b) (ground arith) (ground arith) in omega arith
  ]
  | inr p ↦ fewest_above a b (max a b) (ground arith) (ground arith)
]

-- A balanced tree has at least the fewest entries of its levels.
pub fewest-size : (t : Tree) → IsBalanced t → fewest (levels t) ≤ size t
unfolding size
fewest-size null b = omega arith
fewest-size (node l e h r) (ht, hl, hr, bl, br) =
    let left = fewest-size l bl in
    let right = fewest-size r br in omega (arith, fewest_node (levels l) (levels r) hl hr)

-- A valid tree of at most 100 entries, the number at which server-part1.c dumps it, has at most nine
-- levels.
pub levels_of_c0 : (t : Tree) → IsValid t → size t ≤ 100 → levels t ≤ 9
levels_of_c0 t v h = elim (Bool-cases (leb (levels t) 9)) [
  | inl p ↦ ground arith
  | inr p ↦
      let many : fewest 10 ≤ fewest (levels t) = fewest_mono 10 (levels t) (ground arith) in
      let few = fewest-size t v.balanced in
      let count : fewest 10 ≡ 143 = refl in absurd (omega arith)
]

length-add : (x : Entry) (es : List Entry) → length (add x es) ≤ suc (length es)
unfolding add
length-add x [] = omega arith
length-add x (e ∷ es) = let rest = length-add x es in ground arith

-- Insert on a valid tree of fewer than 100 entries, at which number server-part1.c dumps the tree,
-- returns a tree of at most nine levels.
pub insert-levels :
    (t : Tree) (x : Entry)
    → IsValid t
    → size t < 100
    → (u : Tree) × (insert t x ≡ some u) × (levels u ≤ 9)
insert-levels t x v h =
    let i = insert_refines t x v in
    let entries : length (inorder i.after) ≤ suc (length (inorder t)) =
      rw i.entries (length-add x (inorder t)) in
    let small : size i.after ≤ 100 = omega (arith, size-inorder t, size-inorder i.after) in
    (i.after, i.returns, levels_of_c0 i.after i.valid small)
