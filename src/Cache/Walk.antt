-- ===== src/Cache/Walk.antt =====
-- The walk of cache_get in cache.c along the list.
use cse511_lab.Prelude.{
  ℕ, zero, suc, ◌<◌, List, [], ◌∷◌, Option, none, some, ◌≡◌, refl, ap, sym, ◌∙◌, arith, length,
  true, false, Bool-cases, inl, inr,
}
use cse511_lab.CString.{CString}
use cse511_lab.Cache.{CacheNode, same_name, walk}

-- from a pointer on, the `next` fields spell the addresses of named nodes, and end with NULL
unfoldable pub IsChain : (ℕ → CacheNode) → Option ℕ → List ℕ → Type 0
IsChain heap start [] = start ≡ none
IsChain heap start (a ∷ cells) =
    (start ≡ some a)
    × (name : CString) × ((heap a).name ≡ some name)
    × IsChain heap (heap a).next cells

-- the first address whose node has the name
unfoldable pub first_named : (ℕ → CacheNode) → CString → List ℕ → Option ℕ
first_named heap s [] = none
first_named heap s (a ∷ cells) = elim (same_name (heap a).name s) [
  | true ↦ some a
  | false ↦ first_named heap s cells
]

pub walk_from :
    (fuel : ℕ) (heap : ℕ → CacheNode) (s name : CString) (a : ℕ)
    → (heap a).name ≡ some name
    → walk (suc fuel) heap s (some a) ≡ (elim (same_name (some name) s) [
      | true ↦ some (some a)
      | false ↦ walk fuel heap s (heap a).next
    ])
unfolding walk
walk_from fuel heap s name a p = rw (p, walk)

IsChain-cons :
    (heap : ℕ → CacheNode) (start : Option ℕ) (a : ℕ) (cells : List ℕ)
    → IsChain heap start (a ∷ cells)
    → (start ≡ some a)
      × (name : CString) × ((heap a).name ≡ some name)
      × IsChain heap (heap a).next cells
unfolding IsChain
IsChain-cons heap start a cells c = c

first_named-cons :
    (heap : ℕ → CacheNode) (s : CString) (a : ℕ) (cells : List ℕ)
    → first_named heap s (a ∷ cells)
      ≡ (elim (same_name (heap a).name s) [ true ↦ some a | false ↦ first_named heap s cells ])
unfolding first_named
first_named-cons heap s a cells = refl

-- On a list of named nodes, the walk with more fuel than the list has nodes ends, and finds the first
-- node of the list whose name is the key, or NULL where there is none.
pub walk_lem :
    (fuel : ℕ) (heap : ℕ → CacheNode) (s : CString) (start : Option ℕ) (cells : List ℕ)
    → IsChain heap start cells
    → length cells < fuel
    → walk fuel heap s start ≡ some (first_named heap s cells)
walk_lem zero heap s start cells c h = absurd (omega arith)
walk_lem (suc fuel) heap s start [] c h =
    unfold IsChain in unfold walk in unfold first_named in rw c
walk_lem (suc fuel) heap s start (a ∷ cells) c h =
    let (e, name, named, rest) = IsChain-cons heap start a cells c in
    let deeper = walk_lem fuel heap s (heap a).next cells rest (omega arith) in
    ap (walk (suc fuel) heap s) e
    ∙ walk_from fuel heap s name a named
    ∙ elim (Bool-cases (same_name (some name) s)) [
      | inl q ↦ rw q (ap some (sym (first_named-cons heap s a cells ∙ rw (named, q))))
      | inr q ↦ rw q (deeper ∙ ap some (sym (first_named-cons heap s a cells ∙ rw (named, q))))
    ]
