-- ===== src/C1Disk/Index.antt =====
-- The index of a file, as update_sstable of c1.c makes it.
use cse511_lab.Prelude.{
  ℕ, zero, suc, ◌+◌, ◌*◌, Bool, true, false, List, [], ◌∷◌, Option, some, ◌≡◌, ◌≢◌, refl, sym, ap,
  ◌∙◌, arith, get_elem?, get_or, set, Bool-cases, Option-cases, inl, inr, ◌==◌,
}
use cse511_lab.C1Disk.{Block, line_size}
use cse511_lab.C1Disk.Store.{char_to_idx, index_lines}

-- the index of a line
abbrev pub idx_of : Block → Option ℕ
idx_of b = char_to_idx (get_or b 0 0)

-- A slot of the index behind the loop from a line on: the offset of its first line, or what it was.
pub data Slot (i : ℕ) : List Block → ℕ → Option ℕ → Option ℕ → Type 0 where
  absent : {n : ℕ} {old : Option ℕ} → Slot i [] n old old
  here :
      {b : Block} {bs : List Block} {n : ℕ} {old : Option ℕ}
      → idx_of b ≡ some i
      → Slot i (b ∷ bs) n old (some (n * line_size))
  later :
      {b : Block} {bs : List Block} {n : ℕ} {old new : Option ℕ}
      → idx_of b ≢ some i
      → Slot i bs (n + 1) old new
      → Slot i (b ∷ bs) n old new

get_elem?-set_self :
    {A : Type 0} (xs : List A) (i : ℕ) (old v : A)
    → get_elem? xs i ≡ some old
    → get_elem? (set xs i v) i ≡ some v
get_elem?-set_self [] i old v h = cc
get_elem?-set_self (x ∷ xs) zero old v h = refl
get_elem?-set_self (x ∷ xs) (suc i) old v h = get_elem?-set_self xs i old v h

get_elem?-set_ne :
    {A : Type 0} (xs : List A) (i j : ℕ) (v : A) → i ≢ j → get_elem? (set xs i v) j ≡ get_elem? xs j
get_elem?-set_ne [] i j v h = refl
get_elem?-set_ne (x ∷ xs) zero zero v h = absurd (h refl)
get_elem?-set_ne (x ∷ xs) zero (suc j) v h = refl
get_elem?-set_ne (x ∷ xs) (suc i) zero v h = refl
get_elem?-set_ne (x ∷ xs) (suc i) (suc j) v h = get_elem?-set_ne xs i j v (λ e. h (ap suc e))

-- a round of the loop
data Round (b : Block) (bs : List Block) (n : ℕ) (mask : List Bool) (ss : List (Option ℕ))
    (end : List (Option ℕ)) : Type 0 where
  seen :
      (j : ℕ)
      → idx_of b ≡ some j
      → get_elem? mask j ≡ some true
      → index_lines bs (n + 1) mask ss ≡ some end
      → Round b bs n mask ss end
  first :
      (j : ℕ)
      → idx_of b ≡ some j
      → get_elem? mask j ≡ some false
      → index_lines bs (n + 1) (set mask j true) (set ss j (some (n * line_size))) ≡ some end
      → Round b bs n mask ss end

Round-of :
    (b : Block) (bs : List Block) (n : ℕ) (mask : List Bool) (ss end : List (Option ℕ))
    → index_lines (b ∷ bs) n mask ss ≡ some end
    → Round b bs n mask ss end
unfolding index_lines
Round-of b bs n mask ss end h = elim (Option-cases (idx_of b)) [
  | inl p ↦ let stuck = rw (p, index_lines) at h in cc
  | inr (j, p) ↦
      let found = rw (p, index_lines) at h in
      elim (Option-cases (get_elem? mask j)) [
        | inl q ↦ let stuck = rw q at found in cc
        | inr (true, q) ↦ let rest = rw q at found in seen j p q rest
        | inr (false, q) ↦ let rest = rw q at found in first j p q rest
      ]
]

-- a slot whose index has been seen stays as it is
masked_slot :
    (bs : List Block) (n i : ℕ) (mask : List Bool) (ss end : List (Option ℕ))
    → index_lines bs n mask ss ≡ some end
    → get_elem? mask i ≡ some true
    → get_elem? end i ≡ get_elem? ss i
masked_slot [] n i mask ss end h m =
    unfold index_lines in (let same : ss ≡ end = cc in ap (λ l. get_elem? l i) (sym same))
masked_slot (b ∷ bs) n i mask ss end h m = elim (Round-of b bs n mask ss end h) [
  | seen j p q rest ↦ masked_slot bs (n + 1) i mask ss end rest m
  | first j p q rest ↦
      let other : j ≢ i = λ e. let same = ap (get_elem? mask) e in cc in
      masked_slot bs (n + 1) i (set mask j true) (set ss j (some (n * line_size))) end rest
        (get_elem?-set_ne mask j i true other ∙ m)
      ∙ get_elem?-set_ne ss j i (some (n * line_size)) other
]

-- and one whose index has not been seen gets its first line
pub index_lines-Slot :
    (bs : List Block) (n i : ℕ) (mask : List Bool) (ss end : List (Option ℕ)) (old : Option ℕ)
    → index_lines bs n mask ss ≡ some end
    → get_elem? mask i ≡ some false
    → get_elem? ss i ≡ some old
    → (new : Option ℕ) × (get_elem? end i ≡ some new) × Slot i bs n old new
index_lines-Slot [] n i mask ss end old h m s =
    unfold index_lines in
    (let same : ss ≡ end = cc in (old, ap (λ l. get_elem? l i) (sym same) ∙ s, absent))
index_lines-Slot (b ∷ bs) n i mask ss end old h m s = elim (Round-of b bs n mask ss end h) [
  | seen j p q rest ↦
      let other : idx_of b ≢ some i = λ e.
        let same : some j ≡ some i = sym p ∙ e in
        let eq : j ≡ i = cc in let look = ap (get_elem? mask) eq in cc in
      let (new, e, slot) = index_lines-Slot bs (n + 1) i mask ss end old rest m s in
      (new, e, later other slot)
  | first j p q rest ↦ elim (Bool-cases (j == i)) [
    | inl e ↦
        let eq : j ≡ i = ground arith in
        let v = some (n * line_size) in
        let known : get_elem? ss j ≡ some old = ap (get_elem? ss) eq ∙ s in
        let kept =
          masked_slot bs (n + 1) i (set mask j true) (set ss j v) end rest
            (ap (get_elem? (set mask j true)) (sym eq) ∙ get_elem?-set_self mask j false true q) in
        (
          v,
          kept ∙ ap (get_elem? (set ss j v)) (sym eq) ∙ get_elem?-set_self ss j old v known,
          here (p ∙ ap some eq),
        )
    | inr e ↦
        let ne : j ≢ i = ground arith in
        let other : idx_of b ≢ some i =
          λ e'. let same : some j ≡ some i = sym p ∙ e' in ne (let eq : j ≡ i = cc in eq) in
        let (new, e', slot) =
          index_lines-Slot bs (n + 1) i (set mask j true) (set ss j (some (n * line_size))) end old
            rest (get_elem?-set_ne mask j i true ne ∙ m)
            (get_elem?-set_ne ss j i (some (n * line_size)) ne ∙ s) in
        (new, e', later other slot)
  ]
]
