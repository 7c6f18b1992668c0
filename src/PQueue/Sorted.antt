-- ===== src/PQueue/Sorted.antt =====
-- The lists of messages in order of timestamp, then node, as which pqueue.c is read.
use cse511_lab.Prelude.{
  true, false, List, [], ◌∷◌, ◌++◌, ◌≡◌, refl, ap, if◌then◌else◌, All, arith, Bool-cases, inl, inr,
}
use cse511_lab.DataTypes.{MessagePtr}
use cse511_lab.PQueue.{pqueue_data_cmp, before}

-- A new message goes behind those that are not after it.
unfoldable pub insert : MessagePtr → List MessagePtr → List MessagePtr
insert x [] = x ∷ []
insert x (y ∷ ys) = if before x y then x ∷ y ∷ ys else y ∷ insert x ys

-- no message comes before one that stands ahead of it
unfoldable pub IsSorted : List MessagePtr → Type 0
IsSorted [] = Unit {0}
IsSorted (x ∷ xs) = All (λ y. before y x ≡ false) xs × IsSorted xs

before_asymm : (x y : MessagePtr) → before x y ≡ true → before y x ≡ false
unfolding pqueue_data_cmp
before_asymm x y h = ground arith

not_before_trans :
    (x y z : MessagePtr) → before y x ≡ false → before z y ≡ false → before z x ≡ false
unfolding pqueue_data_cmp
not_before_trans x y z h k = ground arith

All-not_before_trans :
    (x y : MessagePtr) (l : List MessagePtr)
    → before y x ≡ false
    → All (λ z. before z y ≡ false) l
    → All (λ z. before z x ≡ false) l
All-not_before_trans x y [] h a = tt
All-not_before_trans x y (z ∷ l) h (p, a) =
    (not_before_trans x y z h p, All-not_before_trans x y l h a)

All-insert :
    (w x : MessagePtr) (l : List MessagePtr)
    → before x w ≡ false
    → All (λ z. before z w ≡ false) l
    → All (λ z. before z w ≡ false) (insert x l)
unfolding insert
All-insert w x [] h a = (h, tt)
All-insert w x (y ∷ l) h (p, a) = elim (Bool-cases (before x y)) [
  | inl e ↦ rw e (h, (p, a))
  | inr e ↦ rw e (p, All-insert w x l h a)
]

pub insert-IsSorted : (x : MessagePtr) (l : List MessagePtr) → IsSorted l → IsSorted (insert x l)
unfolding insert IsSorted
insert-IsSorted x [] s = (tt, tt)
insert-IsSorted x (y ∷ l) (a, s) = elim (Bool-cases (before x y)) [
  | inl e ↦ rw e ((before_asymm x y e, All-not_before_trans x y l (before_asymm x y e) a), (a, s))
  | inr e ↦ rw e (All-insert y x l e a, insert-IsSorted x l s)
]

-- the last element is moved past, as the loop of `enqueue` does
pub insert-snoc :
    (x y : MessagePtr) (l : List MessagePtr)
    → before x y ≡ true
    → insert x (l ++ y ∷ []) ≡ insert x l ++ y ∷ []
unfolding insert
insert-snoc x y [] e = rw e
insert-snoc x y (w ∷ l) e = elim (Bool-cases (before x w)) [
  | inl t ↦ rw t
  | inr f ↦ rw f (ap (◌∷◌ w) (insert-snoc x y l e))
]

pub insert_last :
    (x : MessagePtr) (l : List MessagePtr)
    → All (λ w. before x w ≡ false) l
    → insert x l ≡ l ++ x ∷ []
unfolding insert
insert_last x [] a = refl
insert_last x (w ∷ l) (e, a) = rw e (ap (◌∷◌ w) (insert_last x l a))

All-init :
    (x w : MessagePtr) (l : List MessagePtr)
    → All (λ z. before z w ≡ false) (l ++ x ∷ [])
    → All (λ z. before z w ≡ false) l × (before x w ≡ false)
All-init x w [] (p, a) = (tt, p)
All-init x w (y ∷ l) (p, a) = let (b, q) = All-init x w l a in ((p, b), q)

pub IsSorted-init : (y : MessagePtr) (l : List MessagePtr) → IsSorted (l ++ y ∷ []) → IsSorted l
unfolding IsSorted
IsSorted-init y [] s = tt
IsSorted-init y (w ∷ l) (a, s) = ((All-init y w l a).0, IsSorted-init y l s)

-- a message that is not before the last of a sorted list is before none of it
pub not_before-All :
    (x y : MessagePtr) (l : List MessagePtr)
    → before x y ≡ false
    → IsSorted (l ++ y ∷ [])
    → All (λ w. before x w ≡ false) (l ++ y ∷ [])
unfolding IsSorted
not_before-All x y [] e s = (e, tt)
not_before-All x y (w ∷ l) e (a, s) =
    (not_before_trans w y x (All-init y w l a).1 e, not_before-All x y l e s)

pub IsSorted-tail : (x : MessagePtr) (l : List MessagePtr) → IsSorted (x ∷ l) → IsSorted l
unfolding IsSorted
IsSorted-tail x l s = s.1
