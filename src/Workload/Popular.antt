-- ===== src/Workload/Popular.antt =====
-- The choice of keys by their popularity: calc_cdf and next_key of blocking_client.c.
use cse511_lab.Prelude.{
  ℕ, zero, suc, ◌-◌, ◌≤◌, List, [], ◌∷◌, some, ◌≡◌, refl, ap, arith, All, true, false, Bool-cases,
  inl, inr, get_elem?, get_elem?_in, length, take, subst,
}
use cse511_lab.CString.{CString}
use cse511_lab.Workload.{Doubles, n_key, sums, calc_cdf, pick, fraction, next_key}

-- a double that is no less than 0, and so is not NaN
abbrev pub NonNegative : (d : Doubles) → d.Double → Type 0
NonNegative d x = d.le (d.of_int 0) x ≡ true

-- and one that is neither infinite nor NaN
abbrev pub IsFinite : (d : Doubles) → d.Double → Type 0
IsFinite d x = d.le x d.largest ≡ true

-- a list whose last sum is finite
abbrev pub IsFiniteSum : (d : Doubles) → List d.Double → Type 0
IsFiniteSum d ps =
    (all : d.Double) → get_elem? (calc_cdf d ps) (n_key - 1) ≡ some all → IsFinite d all

-- What the choice relies on: sums of numbers that are not negative are not negative, and the product of
-- such a number that is finite and a fraction below 1 is not above it.
pub record Laws (d : Doubles) : Type 0 where
  pub add_nonneg : (x y : d.Double) → NonNegative d x → NonNegative d y → NonNegative d (d.add x y)
  pub scale_le :
      (r : ℕ) (x : d.Double)
      → r ≤ d.rand_max
      → NonNegative d x
      → IsFinite d x
      → d.le (d.mul (d.div (d.of_int r) (d.add (d.of_int d.rand_max) (d.of_int 1))) x) x ≡ true

module _ (d : Doubles) (laws : Laws d) where
  sums_nonneg :
      (x : d.Double) (ps : List d.Double)
      → NonNegative d x
      → All (NonNegative d) ps
      → All (NonNegative d) (sums d x ps)
  unfolding sums
  sums_nonneg x [] h a = tt
  sums_nonneg x (p ∷ ps) h (q, a) =
      let next = laws.add_nonneg x p h q in (next, sums_nonneg (d.add x p) ps next a)

  calc_cdf_nonneg :
      (ps : List d.Double) → All (NonNegative d) ps → All (NonNegative d) (calc_cdf d ps)
  unfolding calc_cdf
  calc_cdf_nonneg [] a = tt
  calc_cdf_nonneg (p ∷ ps) (q, a) = (q, sums_nonneg p ps q a)

module _ (d : Doubles) where
  length-sums : (x : d.Double) (ps : List d.Double) → length (sums d x ps) ≡ length ps
  unfolding sums
  length-sums x [] = refl
  length-sums x (p ∷ ps) = ap suc (length-sums (d.add x p) ps)

  length-calc_cdf : (ps : List d.Double) → length (calc_cdf d ps) ≡ length ps
  unfolding calc_cdf
  length-calc_cdf [] = refl
  length-calc_cdf (p ∷ ps) = ap suc (length-sums p ps)

  -- The key of the first place where the sum reaches the number.
  pub record Picked (p : d.Double) (cdf : List d.Double) (keys : List CString) (key : CString)
      : Type 0 where
    pub index : ℕ
    pub key_at : get_elem? keys index ≡ some key
    pub reached : d.Double
    pub reached_at : get_elem? cdf index ≡ some reached
    pub reaches : d.le p reached ≡ true
    pub none_before : All (λ c. d.le p c ≡ false) (take index cdf)

  pick-Picked :
      (p : d.Double) (cdf : List d.Double) (keys : List CString) (i : ℕ) (c : d.Double)
      → length keys ≡ length cdf
      → get_elem? cdf i ≡ some c
      → d.le p c ≡ true
      → (key : CString) × (pick d p cdf keys ≡ some key) × Picked p cdf keys key
  unfolding pick
  pick-Picked p [] keys i c l h r = cc
  pick-Picked p (x ∷ cdf) [] i c l h r = absurd (omega arith)
  pick-Picked p (x ∷ cdf) (k ∷ keys) i c l h r = elim (Bool-cases (d.le p x)) [
    | inl e ↦ (
      k,
      rw e refl,
      record {
        index = 0;
        key_at = refl;
        reached = x;
        reached_at = refl;
        reaches = e;
        none_before = tt;
      },
    )
    | inr e ↦
        let (j, found) = later x cdf i c h e r in
        let (key, q, rest) = pick-Picked p cdf keys j c (omega arith) found r in
        (
          key,
          rw e q,
          record {
            index = suc rest.index;
            key_at = rest.key_at;
            reached = rest.reached;
            reached_at = rest.reached_at;
            reaches = rest.reaches;
            none_before = (e, rest.none_before);
          },
        )
  ]
    where
      later :
          (x : d.Double) (cdf : List d.Double) (i : ℕ) (c : d.Double)
          → get_elem? (x ∷ cdf) i ≡ some c
          → d.le p x ≡ false
          → d.le p c ≡ true
          → (j : ℕ) × (get_elem? cdf j ≡ some c)
      later x cdf zero c h e r = let same : x ≡ c = cc in absurd (cc)
      later x cdf (suc j) c h e r = (j, h)

pub All-get_elem? {ℓ} :
    {A : Type ℓ} (P : A → Type 0) (xs : List A) (i : ℕ) (x : A)
    → All P xs
    → get_elem? xs i ≡ some x
    → P x
All-get_elem? P [] i x a h = cc
All-get_elem? P (y ∷ ys) zero x (p, a) h = let same : y ≡ x = cc in subst P same p
All-get_elem? P (y ∷ ys) (suc i) x (p, a) h = All-get_elem? P ys i x a h

-- next_key, on the cdf of popularities that are not negative and have a finite sum, one for each key, never
-- returns NULL where rand returns no more than RAND_MAX: it returns the key of the first place where the cdf
-- is no less than the random fraction of its last element.
pub next_key-Picked :
    (d : Doubles) (laws : Laws d) (rand : ℕ → ℕ) (ps : List d.Double) (keys : List CString) (n : ℕ)
    → All (NonNegative d) ps
    → IsFiniteSum d ps
    → length ps ≡ n_key
    → length keys ≡ n_key
    → rand n ≤ d.rand_max
    → (key : CString) × (next_key d rand (calc_cdf d ps) keys n ≡ some key)
      × (all : d.Double) × (get_elem? (calc_cdf d ps) (n_key - 1) ≡ some all)
      × Picked d (d.mul (fraction d rand n) all) (calc_cdf d ps) keys key
unfolding next_key
next_key-Picked d laws rand ps keys n a fin size many r =
    let cdf = calc_cdf d ps in
    let same = length-calc_cdf d ps in
    let (all, last) = get_elem?_in cdf (n_key - 1) (omega arith) in
    let whole : NonNegative d all =
      All-get_elem? (NonNegative d) cdf (n_key - 1) all (calc_cdf_nonneg d laws ps a) last in
    let (key, found, picked) =
      pick-Picked d (d.mul (fraction d rand n) all) cdf keys (n_key - 1) all (omega arith) last
        (laws.scale_le (rand n) all r whole (fin all last)) in
    (key, rw last found, all, last, picked)
