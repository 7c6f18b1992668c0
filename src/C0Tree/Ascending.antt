-- ===== src/C0Tree/Ascending.antt =====
-- What the tree of c0.c stands for: a list of entries in ascending order of their keys.
use Prim.Native.Nat.Ordering.{lt, eq, gt}
use cse511_lab.Prelude.{
  zero, suc, take, drop, ℕ, List, [], ◌∷◌, ◌++◌, Option, none, some, ◌≡◌, refl, ap, ◌∙◌, All, arith,
}
use cse511_lab.CString.{CString, strcmp}
use cse511_lab.CString.Order.{strcmp_refl, eq_of_strcmp, lt_of_gt, gt_of_lt, strcmp_trans}
use cse511_lab.C0Tree.{Entry}

-- every entry's key comes before the key
abbrev pub Below : CString → List Entry → Type 0
Below key = All (λ e. strcmp e.key key ≡ lt)

abbrev pub Above : CString → List Entry → Type 0
Above key = All (λ e. strcmp key e.key ≡ lt)

-- the keys ascend, so no key stands twice
unfoldable pub IsAscending : List Entry → Type 0
IsAscending [] = Unit {0}
IsAscending (e ∷ es) = Above e.key es × IsAscending es

-- A new key goes to its place; a key that is there keeps its entry.
unfoldable pub add : Entry → List Entry → List Entry
add x [] = x ∷ []
add x (e ∷ es) = elim (strcmp x.key e.key) [ lt ↦ x ∷ e ∷ es | eq ↦ e ∷ es | gt ↦ e ∷ add x es ]

-- the first entry with the key
unfoldable pub find : CString → List Entry → Option Entry
find key [] = none
find key (e ∷ es) = elim (strcmp key e.key) [ eq ↦ some e | _ ↦ find key es ]

-- the entry with the key gets a value and a flag
unfoldable pub amend : CString → CString → ℕ → List Entry → List Entry
amend key value flag [] = []
amend key value flag (e ∷ es) = elim (strcmp key e.key) [
  | eq ↦ record e { value = value; flag = flag } ∷ es
  | _ ↦ e ∷ amend key value flag es
]

pub Above-trans : (a b : CString) (l : List Entry) → strcmp a b ≡ lt → Above b l → Above a l
Above-trans a b [] h s = tt
Above-trans a b (e ∷ l) h (p, s) = (strcmp_trans a b e.key h p, Above-trans a b l h s)

Above-add :
    (key : CString) (x : Entry) (l : List Entry)
    → strcmp key x.key ≡ lt
    → Above key l
    → Above key (add x l)
unfolding add
Above-add key x [] h s = (h, tt)
Above-add key x (e ∷ l) h (p, s) = ground (arith, Above-add key x l h s)

pub add-IsAscending : (x : Entry) (l : List Entry) → IsAscending l → IsAscending (add x l)
unfolding add IsAscending
add-IsAscending x [] s = (tt, tt)
add-IsAscending x (e ∷ l) (a, s) = ground (
  arith,
  add-IsAscending x l s,
  Above-trans x.key e.key l,
  lt_of_gt x.key e.key,
  Above-add e.key x l,
)

-- the three places where a key can stand against an entry in the middle of a list
pub add-append_above :
    (x : Entry) (l r : List Entry) → Below x.key l → add x (l ++ r) ≡ l ++ add x r
unfolding add
add-append_above x [] r b = refl
add-append_above x (e ∷ l) r (p, b) =
    ground (arith, gt_of_lt e.key x.key p, add-append_above x l r b)

pub add-append_below :
    (x : Entry) (l : List Entry) (e : Entry) (r : List Entry)
    → strcmp x.key e.key ≡ lt
    → add x (l ++ e ∷ r) ≡ add x l ++ e ∷ r
unfolding add
add-append_below x [] e r p = ground arith
add-append_below x (f ∷ l) e r p = ground (arith, add-append_below x l e r p)

pub find-append_above :
    (key : CString) (l r : List Entry) → Below key l → find key (l ++ r) ≡ find key r
unfolding find
find-append_above key [] r b = refl
find-append_above key (e ∷ l) r (p, b) =
    ground (arith, gt_of_lt e.key key p, find-append_above key l r b)

pub find-append_some :
    (key : CString) (l r : List Entry) (f : Entry)
    → find key l ≡ some f
    → find key (l ++ r) ≡ some f
unfolding find
find-append_some key [] r f h = cc
find-append_some key (e ∷ l) r f h = ground (arith, find-append_some key l r f)

-- an ascending list, taken apart at an entry
pub record SplitAt (l : List Entry) (e : Entry) (r : List Entry) : Type 0 where
  pub left : IsAscending l
  pub right : IsAscending r
  pub below : Below e.key l
  pub above : Above e.key r

Above-middle :
    (key : CString) (l : List Entry) (e : Entry) (r : List Entry)
    → Above key (l ++ e ∷ r)
    → Above key l × (strcmp key e.key ≡ lt)
Above-middle key [] e r (p, a) = (tt, p)
Above-middle key (f ∷ l) e r (p, a) = let (b, q) = Above-middle key l e r a in ((p, b), q)

pub split_at :
    (l : List Entry) (e : Entry) (r : List Entry) → IsAscending (l ++ e ∷ r) → SplitAt l e r
unfolding IsAscending
split_at [] e r (a, s) = record { left = tt; right = s; below = tt; above = a }
split_at (f ∷ l) e r (a, s) =
    let rest : SplitAt l e r = split_at l e r s in
    let (b, q) = Above-middle f.key l e r a in
    record {
      left = (b, rest.left);
      right = rest.right;
      below = (q, rest.below);
      above = rest.above;
    }

pub Below-trans : (a b : CString) (l : List Entry) → strcmp a b ≡ lt → Below a l → Below b l
Below-trans a b [] h s = tt
Below-trans a b (e ∷ l) h (p, s) = (strcmp_trans e.key a b p h, Below-trans a b l h s)

-- a key that comes before all of a list is not found in it
pub find-Above : (key : CString) (l : List Entry) → Above key l → find key l ≡ none
unfolding find
find-Above key [] a = refl
find-Above key (e ∷ l) (p, a) = ground (arith, find-Above key l a)

-- `Insert` never overwrites: a key that is there is found as before, and a new one is found.
pub find-add :
    (key : CString) (x : Entry) (l : List Entry)
    → IsAscending l
    → find key (add x l) ≡ (elim (find key l) [
      | some e ↦ some e
      | none ↦ elim (strcmp key x.key) [ eq ↦ some x | _ ↦ none ]
    ])
unfolding find add IsAscending
find-add key x [] s = refl
find-add key x (e ∷ l) s = ground (
  arith,
  find-add key x l s.1,
  eq_of_strcmp x.key e.key,
  eq_of_strcmp key e.key,
  eq_of_strcmp key x.key,
  strcmp_refl e.key,
  find-Above key l,
  Above-trans key e.key l,
)

-- the new key belongs behind the entry in the middle
pub add_right :
    (x : Entry) (l : List Entry) (e : Entry) (r : List Entry)
    → Below e.key l
    → strcmp x.key e.key ≡ gt
    → add x (l ++ e ∷ r) ≡ l ++ e ∷ add x r
unfolding add
add_right x l e r b p =
    add-append_above x l (e ∷ r) (Below-trans e.key x.key l (lt_of_gt x.key e.key p) b)
    ∙ ap (λ es. l ++ es) (ground arith)

-- the new key is that of the entry in the middle
pub add_same :
    (x : Entry) (l : List Entry) (e : Entry) (r : List Entry)
    → Below e.key l
    → strcmp x.key e.key ≡ eq
    → add x (l ++ e ∷ r) ≡ l ++ e ∷ r
unfolding add
add_same x l e r b p =
    let same : x.key ≡ e.key = eq_of_strcmp x.key e.key p in
    add-append_above x l (e ∷ r) (rw same b) ∙ ap (λ es. l ++ es) (ground arith)

-- a key that is found among entries below another key is below it too
pub find-Below :
    (key top : CString) (l : List Entry) (f : Entry)
    → Below top l
    → find key l ≡ some f
    → strcmp key top ≡ lt
unfolding find
find-Below key top [] f b h = cc
find-Below key top (e ∷ l) f (p, b) h =
    ground (arith, find-Below key top l f b, eq_of_strcmp key e.key)

-- the key of the entry in the middle is found there
pub find_middle :
    (key : CString) (l : List Entry) (e : Entry) (r : List Entry)
    → Below e.key l
    → strcmp key e.key ≡ eq
    → find key (l ++ e ∷ r) ≡ some e
unfolding find
find_middle key l e r b p =
    let same : key ≡ e.key = eq_of_strcmp key e.key p in
    find-append_above key l (e ∷ r) (rw same b) ∙ ground arith

-- a key below the entry in the middle is looked for to its left
pub find_left :
    (key : CString) (l : List Entry) (e : Entry) (r : List Entry)
    → strcmp key e.key ≡ lt
    → Above e.key r
    → find key (l ++ e ∷ r) ≡ find key l
unfolding find
find_left key [] e r p a = ground (arith, find-Above key r (Above-trans key e.key r p a))
find_left key (f ∷ l) e r p a = ground (arith, find_left key l e r p a)

-- a key above the entry in the middle is looked for to its right
pub find_right :
    (key : CString) (l : List Entry) (e : Entry) (r : List Entry)
    → strcmp key e.key ≡ gt
    → Below e.key l
    → find key (l ++ e ∷ r) ≡ find key r
unfolding find
find_right key l e r p b =
    find-append_above key l (e ∷ r) (Below-trans e.key key l (lt_of_gt key e.key p) b)
    ∙ ground arith

Above-take : (key : CString) (n : ℕ) (l : List Entry) → Above key l → Above key (take n l)
Above-take key zero l a = tt
Above-take key (suc n) [] a = tt
Above-take key (suc n) (e ∷ l) (p, a) = (p, Above-take key n l a)

pub take-IsAscending : (n : ℕ) (l : List Entry) → IsAscending l → IsAscending (take n l)
unfolding IsAscending
take-IsAscending zero l s = tt
take-IsAscending (suc n) [] s = tt
take-IsAscending (suc n) (e ∷ l) (a, s) = (Above-take e.key n l a, take-IsAscending n l s)

pub drop-IsAscending : (n : ℕ) (l : List Entry) → IsAscending l → IsAscending (drop n l)
unfolding IsAscending
drop-IsAscending zero l s = s
drop-IsAscending (suc n) [] s = tt
drop-IsAscending (suc n) (e ∷ l) (a, s) = drop-IsAscending n l s
