-- ===== src/Cache/Links.antt =====
-- Doubly linked segments on the heap of cache.c, and what writes to nodes do to them.
use cse511_lab.Prelude.{
  ℕ, List, [], ◌∷◌, ◌++◌, Option, some, ◌≡◌, ◌≢◌, refl, sym, ap, ◌∙◌, arith, All, All-imp,
  All-append, true, false, ◌==◌,
}
use cse511_lab.Cache.{CacheNode, Cache, write_node}

-- the first address of a list in front of a pointer, and the last one behind a pointer
abbrev pub first_of : List ℕ → Option ℕ → Option ℕ
first_of [] q = q
first_of (a ∷ cells) q = some a

abbrev pub last_of : Option ℕ → List ℕ → Option ℕ
last_of p [] = p
last_of p (a ∷ cells) = last_of (some a) cells

-- the nodes between two pointers
abbrev pub Links : (ℕ → CacheNode) → Option ℕ → List ℕ → Option ℕ → Type 0
Links h p [] q = Unit {0}
Links h p (a ∷ cells) q =
    ((h a).prev ≡ p) × ((h a).next ≡ first_of cells q) × Links h (some a) cells q

abbrev pub NotIn : ℕ → List ℕ → Type 0
NotIn b = All (λ a. a ≢ b)

abbrev pub Distinct : List ℕ → Type 0
Distinct [] = Unit {0}
Distinct (a ∷ cells) = NotIn a cells × Distinct cells

first_of-append :
    (xs ys : List ℕ) (q : Option ℕ) → first_of (xs ++ ys) q ≡ first_of xs (first_of ys q)
first_of-append [] ys q = refl
first_of-append (x ∷ xs) ys q = refl

pub last_of-append :
    (p : Option ℕ) (xs : List ℕ) (y : ℕ) (ys : List ℕ)
    → last_of p (xs ++ y ∷ ys) ≡ last_of (some y) ys
last_of-append p [] y ys = refl
last_of-append p (x ∷ xs) y ys = last_of-append (some x) xs y ys

pub Links-append :
    (h : ℕ → CacheNode) (p q : Option ℕ) (xs ys : List ℕ)
    → Links h p xs (first_of ys q)
    → Links h (last_of p xs) ys q
    → Links h p (xs ++ ys) q
Links-append h p q [] ys l m = m
Links-append h p q (x ∷ xs) ys (before, behind, l) m =
    (before, behind ∙ sym (first_of-append xs ys q), Links-append h (some x) q xs ys l m)

pub Links-split :
    (h : ℕ → CacheNode) (p q : Option ℕ) (xs ys : List ℕ)
    → Links h p (xs ++ ys) q
    → Links h p xs (first_of ys q) × Links h (last_of p xs) ys q
Links-split h p q [] ys l = (tt, l)
Links-split h p q (x ∷ xs) ys (before, behind, l) =
    let (m, n) = Links-split h (some x) q xs ys l in
    ((before, behind ∙ first_of-append xs ys q, m), n)

-- nodes that stay as they are
pub Links-frame :
    (h h' : ℕ → CacheNode) (p q : Option ℕ) (cells : List ℕ)
    → All (λ a. h' a ≡ h a) cells
    → Links h p cells q
    → Links h' p cells q
Links-frame h h' p q [] s l = tt
Links-frame h h' p q (a ∷ cells) (e, s) (before, behind, l) = (
  ap (λ n. n.prev) e ∙ before,
  ap (λ n. n.next) e ∙ behind,
  Links-frame h h' (some a) q cells s l,
)

pub write_other :
    (b : ℕ) (n : CacheNode) (c : Cache) (a : ℕ) → a ≢ b → (write_node b n c).heap a ≡ c.heap a
write_other b n c a h = let other : (a == b) ≡ false = ground arith in rw other

pub write_self : (b : ℕ) (n : CacheNode) (c : Cache) → (write_node b n c).heap b ≡ n
write_self b n c = let same : (b == b) ≡ true = ground arith in rw same

-- a write to a node outside of a segment
pub Links-write :
    (b : ℕ) (n : CacheNode) (c : Cache) (p q : Option ℕ) (cells : List ℕ)
    → NotIn b cells
    → Links c.heap p cells q
    → Links (write_node b n c).heap p cells q
Links-write b n c p q cells out =
    Links-frame c.heap (write_node b n c).heap p q cells
      (All-imp (λ a h. write_other b n c a h) cells out)

pub All-split : (P : ℕ → Type 0) (xs ys : List ℕ) → All P (xs ++ ys) → All P xs × All P ys
All-split P [] ys h = (tt, h)
All-split P (x ∷ xs) ys (p, h) = let (m, n) = All-split P xs ys h in ((p, m), n)

pub Distinct-middle :
    (xs : List ℕ) (a : ℕ) (ys : List ℕ)
    → Distinct (xs ++ a ∷ ys)
    → NotIn a xs × NotIn a ys × Distinct (xs ++ ys)
Distinct-middle [] a ys (n, d) = (tt, n, d)
Distinct-middle (x ∷ xs) a ys (n, d) =
    let (p, q, r) = Distinct-middle xs a ys d in
    let (nx, (xa, ny)) = All-split (λ b. b ≢ x) xs (a ∷ ys) n in
    ((λ e. xa (sym e), p), q, (All-append (λ b. b ≢ x) xs ys nx ny, r))
