-- ===== src/CString/Order.antt =====
-- The order of strings that strcmp decides.
use cse511_lab.Prelude.{◌≡◌, refl, ◌∷◌, [], Ordering, arith}
use cse511_lab.CString.{CString, strcmp}

pub strcmp_refl : (s : CString) → strcmp s s ≡ Ordering.eq
unfolding strcmp
strcmp_refl [] = refl
strcmp_refl (a ∷ s) = ground (arith, strcmp_refl s)

pub eq_of_strcmp : (s t : CString) → strcmp s t ≡ Ordering.eq → s ≡ t
unfolding strcmp
eq_of_strcmp [] [] h = refl
eq_of_strcmp [] (b ∷ t) h = cc
eq_of_strcmp (a ∷ s) [] h = cc
eq_of_strcmp (a ∷ s) (b ∷ t) h = ground (arith, eq_of_strcmp s t)

pub lt_of_gt : (s t : CString) → strcmp s t ≡ Ordering.gt → strcmp t s ≡ Ordering.lt
unfolding strcmp
lt_of_gt [] [] h = cc
lt_of_gt [] (b ∷ t) h = cc
lt_of_gt (a ∷ s) [] h = refl
lt_of_gt (a ∷ s) (b ∷ t) h = ground (arith, lt_of_gt s t)

pub gt_of_lt : (s t : CString) → strcmp s t ≡ Ordering.lt → strcmp t s ≡ Ordering.gt
unfolding strcmp
gt_of_lt [] [] h = cc
gt_of_lt [] (b ∷ t) h = refl
gt_of_lt (a ∷ s) [] h = cc
gt_of_lt (a ∷ s) (b ∷ t) h = ground (arith, gt_of_lt s t)

pub strcmp_trans :
    (s t u : CString)
    → strcmp s t ≡ Ordering.lt
    → strcmp t u ≡ Ordering.lt
    → strcmp s u ≡ Ordering.lt
unfolding strcmp
strcmp_trans [] [] u h k = cc
strcmp_trans [] (b ∷ t) [] h k = cc
strcmp_trans [] (b ∷ t) (c ∷ u) h k = refl
strcmp_trans (a ∷ s) [] u h k = cc
strcmp_trans (a ∷ s) (b ∷ t) [] h k = cc
strcmp_trans (a ∷ s) (b ∷ t) (c ∷ u) h k = ground (arith, strcmp_trans s t u)
