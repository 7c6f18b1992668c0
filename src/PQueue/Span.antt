-- ===== src/PQueue/Span.antt =====
-- The messages of a stretch of the circular array of pqueue.c, by their distance from the front.
use cse511_lab.Prelude.{
  ℕ, zero, suc, ◌+◌, ◌%◌, ◌≤◌, ◌<◌, List, [], ◌∷◌, ◌++◌, ◌≡◌, ◌≢◌, ◌⊎◌, refl, ap, ap₂, get_or, set,
  length, get_or-set_self, get_or-set_ne, arith,
}
use native.Mathlib.Nat.{zero-add, add-zero, suc-add}
use cse511_lab.DataTypes.{MessagePtr}
use cse511_lab.PQueue.{max_slots, no_message}

-- the slot at distance `a` from the front `f`
abbrev pub slot : ℕ → ℕ → ℕ
slot f a = (f + a) % max_slots

abbrev pub item : List MessagePtr → ℕ → ℕ → MessagePtr
item d f a = get_or d (slot f a) no_message

-- the `n` messages from distance `a` on
unfoldable pub span : List MessagePtr → ℕ → ℕ → ℕ → List MessagePtr
span d f a zero = []
span d f a (suc n) = item d f a ∷ span d f (suc a) n

pub length-span : (d : List MessagePtr) (f a n : ℕ) → length (span d f a n) ≡ n
unfolding span
length-span d f a zero = refl
length-span d f a (suc n) = ap suc (length-span d f (suc a) n)

pub item-set_self :
    (d : List MessagePtr) (f a : ℕ) (x : MessagePtr)
    → length d ≡ max_slots
    → item (set d (slot f a) x) f a ≡ x
item-set_self d f a x h = get_or-set_self d (slot f a) x no_message (omega arith)

pub item-set_ne :
    (d : List MessagePtr) (f a b : ℕ) (x : MessagePtr)
    → f < max_slots
    → a < max_slots
    → b < max_slots
    → a ≢ b
    → item (set d (slot f a) x) f b ≡ item d f b
item-set_ne d f a b x hf ha hb ne = get_or-set_ne d x no_message (omega arith)

pub span-set :
    (d : List MessagePtr) (f c : ℕ) (x : MessagePtr) (a n : ℕ)
    → f < max_slots
    → c < max_slots
    → a + n ≤ max_slots
    → (c < a) ⊎ (a + n ≤ c)
    → span (set d (slot f c) x) f a n ≡ span d f a n
unfolding span
span-set d f c x a zero hf hc hn out = refl
span-set d f c x a (suc n) hf hc hn out =
    ap₂ ◌∷◌ (item-set_ne d f c a x hf hc (omega arith) (omega arith))
      (span-set d f c x (suc a) n hf hc (omega arith) (omega arith))

pub span-add :
    (d : List MessagePtr) (f a m n : ℕ) → span d f a (m + n) ≡ span d f a m ++ span d f (a + m) n
unfolding span
span-add d f a zero n = rw (zero-add, add-zero)
span-add d f a (suc m) n =
    let here : a + suc m ≡ suc a + m = omega arith in
    rw (suc-add m n, here) (ap (◌∷◌ (item d f a)) (span-add d f (suc a) m n))

pub span-snoc :
    (d : List MessagePtr) (f a n : ℕ) → span d f a (suc n) ≡ span d f a n ++ item d f (a + n) ∷ []
unfolding span
span-snoc d f a zero = rw add-zero
span-snoc d f a (suc n) =
    let here : a + suc n ≡ suc a + n = omega arith in
    rw here (ap (◌∷◌ (item d f a)) (span-snoc d f (suc a) n))

pub span-suc :
    (d : List MessagePtr) (f a n : ℕ) → span d f a (suc n) ≡ item d f a ∷ span d f (suc a) n
unfolding span
span-suc d f a n = refl

pub span-snoc_front :
    (d : List MessagePtr) (f n : ℕ) → span d f 0 (suc n) ≡ span d f 0 n ++ item d f n ∷ []
span-snoc_front d f n = simp zero-add at (span-snoc d f 0 n)

-- a front one further on sees the same messages one nearer
pub span_front : (d : List MessagePtr) (f a n : ℕ) → span d (slot f 1) a n ≡ span d f (suc a) n
unfolding span
span_front d f a zero = refl
span_front d f a (suc n) =
    ap₂ ◌∷◌ (ap (λ i. get_or d i no_message) (omega arith)) (span_front d f (suc a) n)
