-- ===== src/C1Disk/Charset.antt =====
-- The order of charset in c1.c, by which the index of a file ascends with its keys.
use Prim.Native.Nat.Ordering.{lt}
use cse511_lab.Prelude.{
  ℕ, suc, ◌<◌, ◌≤◌, Bool, true, false, List, [], ◌∷◌, some, ◌≡◌, ◌≢◌, refl, arith, Bool-cases,
  Option-cases, inl, inr, ◌==◌, ◌&&◌, ◌||◌, ltb,
}
use cse511_lab.CString.{CString, strcmp}
use cse511_lab.C1Disk.Store.{charset, position, char_to_idx}

-- a byte stands below all others of a list but the terminator
abbrev below_all : ℕ → List ℕ → Bool
below_all x [] = true
below_all x (y ∷ ys) = (ltb x y || y == 0) && below_all x ys

abbrev rising : List ℕ → Bool
rising [] = true
rising (x ∷ xs) = below_all x xs && rising xs

and_both : (a b : Bool) → (a && b) ≡ true → (a ≡ true) × (b ≡ true)
and_both true b h = (refl, h)
and_both false b h = cc

position_above :
    (x c : ℕ) (l : List ℕ) (i : ℕ) → below_all x l ≡ true → c ≢ 0 → position c l ≡ some i → x < c
unfolding position
position_above x c [] i b z h = cc
position_above x c (y ∷ l) i b z h =
    let (low, rest) = and_both (ltb x y || y == 0) (below_all x l) b in
    elim (Bool-cases (y == c)) [
      | inl e ↦ let same : y ≡ c = ground arith in ground arith
      | inr e ↦ elim (Option-cases (position c l)) [
        | inl p ↦ let none_there = rw (e, position) at h in let stuck = rw p at none_there in cc
        | inr (k, p) ↦ position_above x c l k rest z p
      ]
    ]

position_mono :
    (l : List ℕ) (c d i j : ℕ)
    → rising l ≡ true
    → c ≢ 0
    → c ≤ d
    → position c l ≡ some i
    → position d l ≡ some j
    → i ≤ j
unfolding position
position_mono [] c d i j r z h p q = cc
position_mono (x ∷ l) c d i j r z h p q =
    let (low, rest) = and_both (below_all x l) (rising l) r in
    elim (Bool-cases (x == c)) [
      | inl e ↦ let found = rw (e, position) at p in let first : 0 ≡ i = cc in omega arith
      | inr e ↦
          let deeper = rw (e, position) at p in
          elim (Option-cases (position c l)) [
            | inl o ↦ let stuck = rw o at deeper in cc
            | inr (k, o) ↦
                let there = rw o at deeper in
                let place : suc k ≡ i = cc in
                let above = position_above x c l k low z o in
                elim (Bool-cases (x == d)) [
                  | inl f ↦ let same : x ≡ d = ground arith in absurd (omega arith)
                  | inr f ↦
                      let other = rw (f, position) at q in
                      elim (Option-cases (position d l)) [
                        | inl u ↦ let stuck = rw u at other in cc
                        | inr (m, u) ↦
                            let behind = rw u at other in
                            let next : suc m ≡ j = cc in
                            let less = position_mono l c d k m rest z h o u in omega arith
                      ]
                ]
          ]
    ]

-- The index of the first byte ascends with strings that are not empty.
pub idx_mono :
    (x y : ℕ) (s t : CString) (i j : ℕ)
    → strcmp (x ∷ s) (y ∷ t) ≡ lt
    → x ≢ 0
    → char_to_idx x ≡ some i
    → char_to_idx y ≡ some j
    → i ≤ j
unfolding char_to_idx
idx_mono x y s t i j h z p q =
    let order : x ≤ y = unfold strcmp in ground arith in
    position_mono charset x y i j refl z order p q
