-- ===== src/Cache/Lru.antt =====
-- The list of the cache of cache.c, most recent first, and cache_get on it.
use cse511_lab.Prelude.{
  ℕ, ◌≤◌, List, [], ◌∷◌, ◌++◌, Option, none, some, ◌≡◌, ◌≢◌, refl, sym, ap, ◌∙◌, subst, arith, true,
  false, All, All-imp, All-append, ◌==◌, length, length-append, append_assoc,
}
use cse511_lab.CString.{CString}
use cse511_lab.Cache.{CacheNode, Cache, cache_size, same_address, set_next, set_prev, move_to_front}
use cse511_lab.Cache.Front.{SameTexts, Fronts, move_to_front-Fronts}
use cse511_lab.Cache.Links.{
  first_of, last_of, Links, NotIn, Distinct, All-split, Distinct-middle, last_of-append,
}
use cse511_lab.Cache.Moves.{Unlinked, unlink-last, unlink-between, front-Links}

abbrev pub IsNamed : (ℕ → CacheNode) → ℕ → Type 0
IsNamed h a = (name : CString) × ((h a).name ≡ some name)

-- The cache is the doubly linked list of these nodes, which are counted, named and not more than
-- `CACHE_SIZE`. The tail of an empty list is any pointer.
pub record IsLru (c : Cache) (cells : List ℕ) : Type 0 where
  pub head : c.head ≡ first_of cells none
  pub tail : c.tail ≡ last_of c.tail cells
  pub links : Links c.heap none cells none
  pub distinct : Distinct cells
  pub named : All (IsNamed c.heap) cells
  pub count : c.count ≡ length cells
  pub fits : length cells ≤ cache_size

pub IsNamed-SameTexts :
    (h h' : ℕ → CacheNode) (cells : List ℕ)
    → SameTexts h h'
    → All (IsNamed h) cells
    → All (IsNamed h') cells
IsNamed-SameTexts h h' cells same = All-imp (λ a (name, e). (name, (same a).0 ∙ e)) cells

-- What move_to_front has done to a list.
pub record Moved (a : ℕ) (c : Cache) (cells : List ℕ) : Type 0 where
  pub after : Cache
  pub returns : move_to_front a c ≡ some after
  pub lru : IsLru after cells
  pub texts : SameTexts c.heap after.heap

pub already_first : (c : Cache) (a : ℕ) (ys : List ℕ) → IsLru c (a ∷ ys) → Moved a c (a ∷ ys)
unfolding move_to_front
already_first c a ys v =
    let first : same_address c.head a ≡ true =
      ap (λ o. same_address o a) v.head ∙ (let same : (a == a) ≡ true = ground arith in same) in
    record { after = c; returns = rw first; lru = v; texts = λ b. (refl, refl) }

move-Unlinked :
    (a hd : ℕ) (c : Cache) (cells : List ℕ) (last : Option ℕ)
    → c.head ≡ some hd
    → NotIn a (hd ∷ cells)
    → NotIn hd cells
    → Unlinked a c (hd ∷ cells) last
    → (c' : Cache) × (move_to_front a c ≡ some c')
      × Links c'.heap none (a ∷ hd ∷ cells) none
      × (c'.tail ≡ last)
      × (c'.count ≡ c.count)
unfolding move_to_front
move-Unlinked a hd c cells last head out hout u =
    let other : same_address c.head a ≡ false =
      ap (λ o. same_address o a) head
      ∙ (let no : (hd == a) ≡ false = let n = out.0 in ground arith in no) in
    let there : u.after.head ≡ some hd = u.head ∙ head in
    (
      record (set_prev a none (set_next a (some hd) (set_prev hd (some a) u.after))) {
        head = some a;
      },
      rw (other, u.returns, there),
      front-Links u.after a hd cells out hout u.links,
      u.tail,
      u.count,
    )

-- the node in front of the one that moves, and the nodes around them
unlink_any :
    (c : Cache) (zs ys : List ℕ) (t a : ℕ)
    → Distinct (zs ++ t ∷ a ∷ ys)
    → Links c.heap none (zs ++ t ∷ a ∷ ys) none
    → c.tail ≡ last_of (some a) ys
    → Unlinked a c (zs ++ t ∷ ys) (last_of (some t) ys)
unlink_any c zs [] t a d l end =
    let (tz, _, _) = Distinct-middle zs t (a ∷ []) d in unlink-last c zs t a tz l end
unlink_any c zs (b ∷ ys) t a d l end =
    let (tz, (_, (bt, ty)), d1) = Distinct-middle zs t (a ∷ b ∷ ys) d in
    let (_, out, d2) = Distinct-middle zs a (b ∷ ys) d1 in
    let (bz, by, _) = Distinct-middle zs b ys d2 in
    unlink-between c zs ys t a b tz bz (λ e. bt (sym e)) ty by out l end

move_split :
    (c : Cache) (zs ys : List ℕ) (t a : ℕ) (last : Option ℕ)
    → c.head ≡ first_of (zs ++ t ∷ ys) none
    → NotIn a (zs ++ t ∷ ys)
    → Distinct (zs ++ t ∷ ys)
    → Unlinked a c (zs ++ t ∷ ys) last
    → (c' : Cache) × (move_to_front a c ≡ some c')
      × Links c'.heap none (a ∷ (zs ++ t ∷ ys)) none
      × (c'.tail ≡ last)
      × (c'.count ≡ c.count)
move_split c [] ys t a last head out (tout, d) u = move-Unlinked a t c ys last head out tout u
move_split c (z ∷ zs) ys t a last head out (zout, d) u =
    move-Unlinked a z c (zs ++ t ∷ ys) last head out zout u

pub first_of_inner :
    (zs ys : List ℕ) (t a : ℕ) → first_of (zs ++ t ∷ a ∷ ys) none ≡ first_of (zs ++ t ∷ ys) none
first_of_inner [] ys t a = refl
first_of_inner (z ∷ zs) ys t a = refl

-- the counts and names of a list behind a move
rearranged :
    (h : ℕ → CacheNode) (xs ys : List ℕ) (a : ℕ)
    → All (IsNamed h) (xs ++ a ∷ ys)
    → All (IsNamed h) (a ∷ (xs ++ ys)) × (length (a ∷ (xs ++ ys)) ≡ length (xs ++ a ∷ ys))
rearranged h xs ys a n =
    let (nx, (na, ny)) = All-split (IsNamed h) xs (a ∷ ys) n in
    (
      (na, All-append (IsNamed h) xs ys nx ny),
      omega (arith, length-append xs ys, length-append xs (a ∷ ys)),
    )

pub move_inner :
    (c : Cache) (zs ys : List ℕ) (t a : ℕ)
    → IsLru c ((zs ++ t ∷ []) ++ a ∷ ys)
    → Moved a c (a ∷ ((zs ++ t ∷ []) ++ ys))
move_inner c zs ys t a v =
    let xs = zs ++ t ∷ [] in
    let before : xs ++ a ∷ ys ≡ zs ++ t ∷ a ∷ ys = append_assoc zs (t ∷ []) (a ∷ ys) in
    let behind : xs ++ ys ≡ zs ++ t ∷ ys = append_assoc zs (t ∷ []) ys in
    let (ax, ay, d) = Distinct-middle xs a ys v.distinct in
    let out : NotIn a (xs ++ ys) = All-append (λ b. b ≢ a) xs ys ax ay in
    let end : c.tail ≡ last_of (some a) ys = v.tail ∙ last_of-append c.tail xs a ys in
    let u =
      unlink_any c zs ys t a (subst Distinct before v.distinct)
        (subst (λ l. Links c.heap none l none) before v.links) end in
    let head : c.head ≡ first_of (zs ++ t ∷ ys) none =
      v.head ∙ ap (λ l. first_of l none) before ∙ first_of_inner zs ys t a in
    let (c', r, links, tail, count) =
      move_split c zs ys t a (last_of (some t) ys) head (subst (NotIn a) behind out)
        (subst Distinct behind d) u in
    let fronts : Fronts a c.heap (move_to_front a c) = move_to_front-Fronts a c in
    let (first, texts) = rw r at fronts in
    let (named, size) = rearranged c.heap xs ys a v.named in
    record {
      after = c';
      returns = r;
      lru = record {
        head = first;
        tail = tail ∙ sym (last_of-append (some a) zs t ys) ∙ ap (last_of (some a)) (sym behind);
        links = subst (λ l. Links c'.heap none (a ∷ l) none) (sym behind) links;
        distinct = (out, d);
        named = IsNamed-SameTexts c.heap c'.heap (a ∷ (xs ++ ys)) texts named;
        count = count ∙ v.count ∙ sym size;
        fits = let bound = v.fits in omega arith;
      };
      texts = texts;
    }
