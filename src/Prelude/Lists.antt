-- ===== src/Prelude/Lists.antt =====
-- Arrays as lists measured and indexed by native numbers, under the library's names.
use Prim.Native.Nat.{ℕ, zero, suc, ◌+◌, ◌-◌, ◌<◌, ◌≤◌, min}
use mathlib.Core.Path.{◌≡◌, refl, ap, sym, ◌∙◌}
use mathlib.Core.Logic.{◌≢◌}
use mathlib.Core.List.{List, [], ◌∷◌, ◌++◌, append_assoc}
use mathlib.Core.Option.{Option, none, some}
use native.Mathlib.Omega.{arith}

module _ {ℓ} {A : Type ℓ} where
  abbrev pub length : List A → ℕ
  length [] = 0
  length (x ∷ xs) = suc (length xs)

  abbrev pub get_elem? : List A → ℕ → Option A
  get_elem? [] i = none
  get_elem? (x ∷ xs) zero = some x
  get_elem? (x ∷ xs) (suc i) = get_elem? xs i

  abbrev pub get_or : List A → ℕ → A → A
  get_or [] i d = d
  get_or (x ∷ xs) zero d = x
  get_or (x ∷ xs) (suc i) d = get_or xs i d

  -- A write out of bounds changes nothing.
  abbrev pub set : List A → ℕ → A → List A
  set [] i v = []
  set (x ∷ xs) zero v = v ∷ xs
  set (x ∷ xs) (suc i) v = x ∷ set xs i v

  abbrev pub take : ℕ → List A → List A
  take zero xs = []
  take (suc n) [] = []
  take (suc n) (x ∷ xs) = x ∷ take n xs

  abbrev pub drop : ℕ → List A → List A
  drop zero xs = xs
  drop (suc n) [] = []
  drop (suc n) (x ∷ xs) = drop n xs

  abbrev pub replicate : ℕ → A → List A
  replicate zero a = []
  replicate (suc n) a = a ∷ replicate n a

  -- every element of the list satisfies `P`
  abbrev pub All {κ} : (A → Type κ) → List A → Type κ
  All P [] = Unit
  All P (x ∷ xs) = P x × All P xs

module _ {ℓ} {A : Type ℓ} where
  pub length-append : (xs ys : List A) → length (xs ++ ys) ≡ length xs + length ys
  length-append [] ys = omega arith
  length-append (x ∷ xs) ys = omega (arith, length-append xs ys)

  pub length-set : (xs : List A) (i : ℕ) (v : A) → length (set xs i v) ≡ length xs
  length-set [] i v = refl
  length-set (x ∷ xs) zero v = refl
  length-set (x ∷ xs) (suc i) v = ap suc (length-set xs i v)

  pub get_or-set_self :
      (xs : List A) (i : ℕ) (v d : A) → i < length xs → get_or (set xs i v) i d ≡ v
  get_or-set_self [] i v d h = absurd (omega arith)
  get_or-set_self (x ∷ xs) zero v d h = refl
  get_or-set_self (x ∷ xs) (suc i) v d h = get_or-set_self xs i v d (omega arith)

  pub get_or-set_ne :
      (xs : List A) {i j : ℕ} (v d : A) → i ≢ j → get_or (set xs i v) j d ≡ get_or xs j d
  get_or-set_ne [] v d h = refl
  get_or-set_ne (x ∷ xs) {i = zero} {j = zero} v d h = absurd (h refl)
  get_or-set_ne (x ∷ xs) {i = zero} {j = suc j} v d h = refl
  get_or-set_ne (x ∷ xs) {i = suc i} {j = zero} v d h = refl
  get_or-set_ne (x ∷ xs) {i = suc i} {j = suc j} v d h = get_or-set_ne xs v d (λ e. h (ap suc e))

  pub length-replicate : (n : ℕ) (a : A) → length (replicate n a) ≡ n
  length-replicate zero a = refl
  length-replicate (suc n) a = ap suc (length-replicate n a)

  pub length-take : (n : ℕ) (xs : List A) → length (take n xs) ≡ min n (length xs)
  length-take zero xs = omega arith
  length-take (suc n) [] = omega arith
  length-take (suc n) (x ∷ xs) = omega (arith, length-take n xs)

  pub length-drop : (n : ℕ) (xs : List A) → length (drop n xs) ≡ length xs - n
  length-drop zero xs = omega arith
  length-drop (suc n) [] = omega arith
  length-drop (suc n) (x ∷ xs) = omega (arith, length-drop n xs)

  pub take-append : (xs ys : List A) → take (length xs) (xs ++ ys) ≡ xs
  take-append [] ys = refl
  take-append (x ∷ xs) ys = ap (◌∷◌ x) (take-append xs ys)

  pub drop-append : (xs ys : List A) → drop (length xs) (xs ++ ys) ≡ ys
  drop-append [] ys = refl
  drop-append (x ∷ xs) ys = drop-append xs ys

  pub All-append {κ} : (P : A → Type κ) (xs ys : List A) → All P xs → All P ys → All P (xs ++ ys)
  All-append P [] ys a b = b
  All-append P (x ∷ xs) ys (p, a) b = (p, All-append P xs ys a b)

  pub take_of_length_le : (n : ℕ) (xs : List A) → length xs ≤ n → take n xs ≡ xs
  take_of_length_le zero [] h = refl
  take_of_length_le zero (x ∷ xs) h = absurd (omega arith)
  take_of_length_le (suc n) [] h = refl
  take_of_length_le (suc n) (x ∷ xs) h = ap (◌∷◌ x) (take_of_length_le n xs (omega arith))

  pub All-imp {κ μ} :
      {P : A → Type κ} {Q : A → Type μ}
      → ((a : A) → P a → Q a)
      → (xs : List A) → All P xs
      → All Q xs
  All-imp f [] a = tt
  All-imp f (x ∷ xs) (p, a) = (f x p, All-imp f xs a)

  pub get_elem?-drop : (n i : ℕ) (xs : List A) → get_elem? (drop n xs) i ≡ get_elem? xs (n + i)
  get_elem?-drop zero i xs = ap (get_elem? xs) (omega arith)
  get_elem?-drop (suc n) i [] = refl
  get_elem?-drop (suc n) i (x ∷ xs) =
      let next : suc n + i ≡ suc (n + i) = omega arith in rw next (get_elem?-drop n i xs)

  pub drop-drop : (n m : ℕ) (xs : List A) → drop m (drop n xs) ≡ drop (n + m) xs
  drop-drop zero m xs = ap (λ k. drop k xs) (omega arith)
  drop-drop (suc n) zero [] = let next : suc n + 0 ≡ suc (n + 0) = omega arith in rw next refl
  drop-drop (suc n) (suc m) [] =
      let next : suc n + suc m ≡ suc (n + suc m) = omega arith in rw next refl
  drop-drop (suc n) m (x ∷ xs) =
      let next : suc n + m ≡ suc (n + m) = omega arith in rw next (drop-drop n m xs)

  -- the first `n` elements, taken apart at position `m`
  pub take_at :
      (m n : ℕ) (xs : List A)
      → m < n
      → n ≤ length xs
      → (x : A) × (get_elem? xs m ≡ some x)
        × (take n xs ≡ take m xs ++ x ∷ take (n - suc m) (drop (suc m) xs))
  take_at m n [] h k = absurd (omega arith)
  take_at m zero (x ∷ xs) h k = absurd (omega arith)
  take_at zero (suc n) (x ∷ xs) h k = (x, refl, ap (λ i. x ∷ take i xs) (omega arith))
  take_at (suc m) (suc n) (x ∷ xs) h k =
      let (y, found, split) = take_at m n xs (omega arith) (omega arith) in
      let count : suc n - suc (suc m) ≡ n - suc m = omega arith in
      (y, found, rw count (ap (◌∷◌ x) split))

  pub get_elem?_at_length : (xs : List A) (n : ℕ) → length xs ≡ n → get_elem? xs n ≡ none
  get_elem?_at_length [] zero h = refl
  get_elem?_at_length [] (suc n) h = absurd (omega arith)
  get_elem?_at_length (x ∷ xs) zero h = absurd (omega arith)
  get_elem?_at_length (x ∷ xs) (suc n) h = get_elem?_at_length xs n (omega arith)

  -- the elements at the front, whose number is known
  pub take_front : (n : ℕ) (xs ys : List A) → length xs ≡ n → take n (xs ++ ys) ≡ xs
  take_front n xs ys h = ap (λ k. take k (xs ++ ys)) (sym h) ∙ take-append xs ys

  pub drop_front : (n : ℕ) (xs ys : List A) → length xs ≡ n → drop n (xs ++ ys) ≡ ys
  drop_front n xs ys h = ap (λ k. drop k (xs ++ ys)) (sym h) ∙ drop-append xs ys

  -- and those behind a first part
  pub drop_second :
      (n : ℕ) (xs ys zs : List A) → length xs + length ys ≡ n → drop n (xs ++ (ys ++ zs)) ≡ zs
  drop_second n xs ys zs h =
      ap (drop n) (sym (append_assoc xs ys zs))
      ∙ drop_front n (xs ++ ys) zs (length-append xs ys ∙ h)

  -- an index within a list finds an element
  pub get_elem?_in : (xs : List A) (i : ℕ) → i < length xs → (x : A) × (get_elem? xs i ≡ some x)
  get_elem?_in [] i h = absurd (omega arith)
  get_elem?_in (x ∷ xs) zero h = (x, refl)
  get_elem?_in (x ∷ xs) (suc i) h = get_elem?_in xs i (omega arith)
