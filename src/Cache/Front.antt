-- ===== src/Cache/Front.antt =====
-- What the steps of cache_get in cache.c do to the head and to the texts of the nodes.
use cse511_lab.Prelude.{
  ℕ, zero, suc, Option, none, some, true, ◌≡◌, refl, sym, ap, ◌∙◌, arith, Bool-cases, Option-cases,
  Ordering-cases, inl, inr, ◌==◌, ◌>>=◌,
}
use cse511_lab.CString.{CString, strcmp}
use cse511_lab.CString.Order.{eq_of_strcmp}
use cse511_lab.Cache.{
  CacheNode, Cache, same_address, same_name, write_node, set_next, set_prev, walk, unlink_behind,
  unlink, move_to_front,
}
use cse511_lab.Cache.Walk.{walk_from}

-- the names and the values of all nodes are the same
abbrev pub SameTexts : (ℕ → CacheNode) → (ℕ → CacheNode) → Type 0
SameTexts old new = (b : ℕ) → ((new b).name ≡ (old b).name) × ((new b).defn ≡ (old b).defn)

pub write_node-SameTexts :
    (a : ℕ) (n : CacheNode) (c : Cache)
    → n.name ≡ (c.heap a).name
    → n.defn ≡ (c.heap a).defn
    → SameTexts c.heap (write_node a n c).heap
write_node-SameTexts a n c p q b = elim (Bool-cases (b == a)) [
  | inl e ↦
      let same : b ≡ a = ground arith in
      (
        rw e (p ∙ ap (λ x. (c.heap x).name) (sym same)),
        rw e (q ∙ ap (λ x. (c.heap x).defn) (sym same)),
      )
  | inr e ↦ (rw e refl, rw e refl)
]

pub SameTexts-trans : (f g h : ℕ → CacheNode) → SameTexts f g → SameTexts g h → SameTexts f h
SameTexts-trans f g h p q b = ((q b).0 ∙ (p b).0, (q b).1 ∙ (p b).1)

-- what a step may do to the nodes, where it has a result
abbrev KeepsTexts : (ℕ → CacheNode) → Option Cache → Type 0
KeepsTexts f none = Unit
KeepsTexts f (some d) = SameTexts f d.heap

KeepsTexts-bind :
    {A : Type 0} (f : ℕ → CacheNode) (o : Option A) (g : A → Option Cache)
    → ((a : A) → KeepsTexts f (g a))
    → KeepsTexts f (o >>= g)
KeepsTexts-bind f none g h = tt
KeepsTexts-bind f (some a) g h = h a

unlink_behind-KeepsTexts : (a t : ℕ) (c : Cache) → KeepsTexts c.heap (unlink_behind a t c)
unfolding unlink_behind
unlink_behind-KeepsTexts a t c = elim (Bool-cases (same_address c.tail a)) [
  | inl e ↦ rw e (write_node-SameTexts t (record (c.heap t) { next = none }) c refl refl)
  | inr e ↦ rw e (
      KeepsTexts-bind c.heap (c.heap a).next _ λ next.
        let c1 = set_next t (some next) c in
        SameTexts-trans c.heap c1.heap (set_prev next (some t) c1).heap
          (write_node-SameTexts t (record (c.heap t) { next = some next }) c refl refl)
          (write_node-SameTexts next (record (c1.heap next) { prev = some t }) c1 refl refl))
]

unlink-KeepsTexts : (a : ℕ) (c : Cache) → KeepsTexts c.heap (unlink a c)
unfolding unlink
unlink-KeepsTexts a c = KeepsTexts-bind c.heap (c.heap a).prev _ λ t. unlink_behind-KeepsTexts a t c

-- A step that may fail brings a node to the head, with the texts as before.
abbrev pub Fronts : ℕ → (ℕ → CacheNode) → Option Cache → Type 0
Fronts a f none = Unit
Fronts a f (some d) = (d.head ≡ some a) × SameTexts f d.heap

Fronts-bind :
    (a : ℕ) (f : ℕ → CacheNode) (o : Option Cache) (g : Cache → Option Cache)
    → KeepsTexts f o
    → ((c : Cache) → SameTexts f c.heap → Fronts a f (g c))
    → Fronts a f (o >>= g)
Fronts-bind a f none g k h = tt
Fronts-bind a f (some c) g k h = h c k

-- the last steps of `move_to_front`
abbrev relink : ℕ → Cache → ℕ → Cache
relink a c head = record (set_prev a none (set_next a (some head) (set_prev head (some a) c))) {
  head = some a;
}

relink-Fronts :
    (a : ℕ) (f : ℕ → CacheNode) (c : Cache) (start : Option ℕ)
    → SameTexts f c.heap
    → Fronts a f (start >>= λ head. some (relink a c head))
relink-Fronts a f c none s = tt
relink-Fronts a f c (some head) s =
    let c1 = set_prev head (some a) c in
    let c2 = set_next a (some head) c1 in
    (
      refl,
      SameTexts-trans f c.heap (set_prev a none c2).heap s (
          SameTexts-trans c.heap c1.heap (set_prev a none c2).heap
            (write_node-SameTexts head (record (c.heap head) { prev = some a }) c refl refl)
            (SameTexts-trans c1.heap c2.heap (set_prev a none c2).heap
              (write_node-SameTexts a (record (c1.heap a) { next = some head }) c1 refl refl)
              (write_node-SameTexts a (record (c2.heap a) { prev = none }) c2 refl refl))),
    )

same_address_lem : (o : Option ℕ) (a : ℕ) → same_address o a ≡ true → o ≡ some a
same_address_lem none a h = cc
same_address_lem (some b) a h = ap some (ground arith)

pub move_to_front-Fronts : (a : ℕ) (c : Cache) → Fronts a c.heap (move_to_front a c)
unfolding move_to_front
move_to_front-Fronts a c = elim (Bool-cases (same_address c.head a)) [
  | inl e ↦ rw e (same_address_lem c.head a e, λ b. (refl, refl))
  | inr e ↦ rw e (
      Fronts-bind a c.heap (unlink a c) _ (unlink-KeepsTexts a c)
        λ c' s. relink-Fronts a c.heap c' c'.head s)
]

same_name_lem : (name s : CString) → same_name (some name) s ≡ true → name ≡ s
same_name_lem name s h = elim (Ordering-cases (strcmp name s)) [
  | inl o ↦ let no = rw (o, same_name) at h in cc
  | inr (inl o) ↦ eq_of_strcmp name s o
  | inr (inr o) ↦ let no = rw (o, same_name) at h in cc
]

-- a walk that finds a node finds one with the key
pub walk_found :
    (fuel : ℕ) (heap : ℕ → CacheNode) (s : CString) (start : Option ℕ) (a : ℕ)
    → walk fuel heap s start ≡ some (some a)
    → (heap a).name ≡ some s
unfolding walk
walk_found zero heap s start a h = cc
walk_found (suc fuel) heap s none a h = cc
walk_found (suc fuel) heap s (some b) a h = elim (Option-cases (heap b).name) [
  | inl p ↦ let stuck = rw (p, walk) at h in cc
  | inr (name, p) ↦
      let step = sym (walk_from fuel heap s name b p) ∙ h in
      elim (Bool-cases (same_name (some name) s)) [
        | inl q ↦
            let here = rw q at step in
            let same : b ≡ a = cc in
            ap (λ x. (heap x).name) (sym same) ∙ p ∙ ap some (same_name_lem name s q)
        | inr q ↦ let deeper = rw q at step in walk_found fuel heap s (heap b).next a deeper
      ]
]
