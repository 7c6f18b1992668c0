-- ===== src/Cache/Gets.antt =====
-- cache_get of cache.c on the list of the cache.
use cse511_lab.Prelude.{
  ℕ, ◌+◌, List, [], ◌∷◌, ◌++◌, Option, none, some, ◌≡◌, refl, sym, ap, ◌∙◌, subst, arith, true,
  false, All, ◌==◌, if◌then◌else◌, Bool-cases, Option-cases, inl, inr,
}
use cse511_lab.CString.{CString}
use cse511_lab.Cache.{CacheNode, Cache, same_name, walk, move_to_front, cache_get}
use cse511_lab.Cache.Walk.{IsChain, first_named, walk_lem}
use cse511_lab.Cache.Front.{SameTexts, Fronts, move_to_front-Fronts}
use cse511_lab.Cache.Links.{first_of, Links, NotIn, Distinct, Distinct-middle}
use cse511_lab.Cache.Lru.{IsNamed, IsLru, Moved, already_first, move_inner}

-- a list without the first node at an address
abbrev pub remove : ℕ → List ℕ → List ℕ
remove a [] = []
remove a (b ∷ cells) = if b == a then cells else b ∷ remove a cells

-- the list when a node, if there is one, has come to the front
abbrev pub to_front : Option ℕ → List ℕ → List ℕ
to_front none cells = cells
to_front (some a) cells = a ∷ remove a cells

remove_middle :
    (xs : List ℕ) (a : ℕ) (ys : List ℕ) → NotIn a xs → remove a (xs ++ a ∷ ys) ≡ xs ++ ys
remove_middle [] a ys out = let same : (a == a) ≡ true = ground arith in rw same
remove_middle (x ∷ xs) a ys (n, out) =
    let other : (x == a) ≡ false = ground arith in rw other (ap (◌∷◌ x) (remove_middle xs a ys out))

-- a node that first_named finds is in the list
first_named-middle :
    (h : ℕ → CacheNode) (s : CString) (cells : List ℕ) (a : ℕ)
    → first_named h s cells ≡ some a
    → (xs : List ℕ) × (ys : List ℕ) × (cells ≡ xs ++ a ∷ ys)
unfolding first_named
first_named-middle h s [] a e = cc
first_named-middle h s (b ∷ cells) a e = elim (Bool-cases (same_name (h b).name s)) [
  | inl p ↦
      let here = rw (p, first_named) at e in
      let same : b ≡ a = cc in ([], cells, ap (λ x. x ∷ cells) same)
  | inr p ↦
      let there = rw (p, first_named) at e in
      let (xs, ys, split) = first_named-middle h s cells a there in (b ∷ xs, ys, ap (◌∷◌ b) split)
]

Links-IsChain :
    (h : ℕ → CacheNode) (p : Option ℕ) (cells : List ℕ)
    → Links h p cells none
    → All (IsNamed h) cells
    → IsChain h (first_of cells none) cells
unfolding IsChain
Links-IsChain h p [] l n = refl
Links-IsChain h p (a ∷ cells) (_, behind, l) ((name, e), n) = (
  refl,
  name,
  e,
  subst (λ o. IsChain h o cells) (sym behind) (Links-IsChain h (some a) cells l n),
)

pub walk-IsLru :
    (c : Cache) (cells : List ℕ) (s : CString)
    → IsLru c cells
    → walk (c.count + 1) c.heap s c.head ≡ some (first_named c.heap s cells)
walk-IsLru c cells s v =
    let chain : IsChain c.heap c.head cells =
      subst (λ o. IsChain c.heap o cells) (sym v.head)
        (Links-IsChain c.heap none cells v.links v.named) in
    let size = v.count in walk_lem (c.count + 1) c.heap s c.head cells chain (omega arith)

snoc_cases : (x : ℕ) (xs : List ℕ) → (zs : List ℕ) × (t : ℕ) × (x ∷ xs ≡ zs ++ t ∷ [])
snoc_cases x [] = ([], x, refl)
snoc_cases x (y ∷ xs) = let (zs, t, e) = snoc_cases y xs in (x ∷ zs, t, ap (◌∷◌ x) e)

-- move_to_front brings any node of the list to the front
move_middle :
    (c : Cache) (xs ys : List ℕ) (a : ℕ) → IsLru c (xs ++ a ∷ ys) → Moved a c (a ∷ (xs ++ ys))
move_middle c [] ys a v = already_first c a ys v
move_middle c (x ∷ xs) ys a v =
    let (zs, t, e) = snoc_cases x xs in
    subst (λ l. Moved a c (a ∷ (l ++ ys))) (sym e)
      (move_inner c zs ys t a (subst (λ l. IsLru c (l ++ a ∷ ys)) e v))

-- What cache_get has done to a list: it has found the first node with the name, or none, and that
-- node is at the front.
pub record Got (s : CString) (c : Cache) (cells : List ℕ) : Type 0 where
  pub after : Cache
  pub returns : cache_get s c ≡ some (after, first_named c.heap s cells)
  pub lru : IsLru after (to_front (first_named c.heap s cells) cells)
  pub texts : SameTexts c.heap after.heap

get_at :
    (c : Cache) (cells xs ys : List ℕ) (s : CString) (a : ℕ)
    → IsLru c cells
    → first_named c.heap s cells ≡ some a
    → cells ≡ xs ++ a ∷ ys
    → Got s c cells
unfolding cache_get
get_at c cells xs ys s a v found split =
    let m = move_middle c xs ys a (subst (IsLru c) split v) in
    let (out, _, _) = Distinct-middle xs a ys (subst Distinct split v.distinct) in
    let walked = walk-IsLru c cells s v ∙ ap some found in
    let fronts : Fronts a c.heap (move_to_front a c) = move_to_front-Fronts a c in
    let (first, _) = rw m.returns at fronts in
    let list : a ∷ (xs ++ ys) ≡ to_front (first_named c.heap s cells) cells =
      ap (◌∷◌ a) (sym (remove_middle xs a ys out) ∙ ap (remove a) (sym split))
      ∙ ap (λ o. to_front o cells) (sym found) in
    record {
      after = m.after;
      returns = rw (walked, m.returns, first, found);
      lru = subst (IsLru m.after) list m.lru;
      texts = m.texts;
    }

get_missed :
    (c : Cache) (cells : List ℕ) (s : CString)
    → IsLru c cells
    → first_named c.heap s cells ≡ none
    → Got s c cells
unfolding cache_get
get_missed c cells s v missed =
    let walked = walk-IsLru c cells s v ∙ ap some missed in
    record {
      after = c;
      returns = rw (walked, missed);
      lru = subst (λ o. IsLru c (to_front o cells)) (sym missed) v;
      texts = λ b. (refl, refl);
    }

-- On the list of a cache, cache_get returns: it finds the first node with the name, or NULL where there
-- is none, and leaves the list with that node at its front, the others in their order, and all names
-- and values as they were.
pub cache_get_lem : (c : Cache) (cells : List ℕ) (s : CString) → IsLru c cells → Got s c cells
cache_get_lem c cells s v = elim (Option-cases (first_named c.heap s cells)) [
  | inl p ↦ get_missed c cells s v p
  | inr (a, p) ↦
      let (xs, ys, split) = first_named-middle c.heap s cells a p in
      get_at c cells xs ys s a v p split
]
