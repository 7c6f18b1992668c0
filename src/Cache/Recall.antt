-- ===== src/Cache/Recall.antt =====
-- cache_get behind cache_put in cache.c.
use cse511_lab.Prelude.{
  ℕ, suc, ◌+◌, Option, none, some, true, ◌≡◌, refl, sym, ap, subst, ◌∙◌, arith, Bool-cases,
  Option-cases, inl, inr, ◌==◌, ◌>>=◌, ltb,
}
use cse511_lab.CString.{CString}
use cse511_lab.CString.Order.{strcmp_refl}
use cse511_lab.Cache.{
  CacheNode, Cache, cache_size, same_address, same_name, write_node, set_next, walk, move_to_front,
  cache_get, push_front, evict_or_count, cache_put,
}
use cse511_lab.Cache.Walk.{walk_from}
use cse511_lab.Cache.Front.{write_node-SameTexts, Fronts, move_to_front-Fronts, walk_found}

-- what cache_get answers: where it answers with a node, that one is at the head and has the key
abbrev Gets : CString → Option (Cache × Option ℕ) → Type 0
Gets s none = Unit
Gets s (some (d, none)) = Unit
Gets s (some (d, some a)) = (d.head ≡ some a) × ((d.heap a).name ≡ some s)

Gets-head :
    (s : CString) (a : ℕ) (d : Cache) (o : Option ℕ)
    → o ≡ some a
    → d.head ≡ some a
    → (d.heap a).name ≡ some s
    → Gets s (some (d, o))
Gets-head s a d o p q n = subst (λ o. Gets s (some (d, o))) (sym p) (q, n)

Gets-front :
    (s : CString) (a : ℕ) (f : ℕ → CacheNode) (o : Option Cache)
    → (f a).name ≡ some s
    → Fronts a f o
    → Gets s (o >>= λ d. some (d, d.head))
Gets-front s a f none n h = tt
Gets-front s a f (some d) n (p, t) = Gets-head s a d d.head p p ((t a).0 ∙ n)

cache_get-Gets : (s : CString) (c : Cache) → Gets s (cache_get s c)
unfolding cache_get
cache_get-Gets s c = elim (Option-cases (walk (c.count + 1) c.heap s c.head)) [
  | inl p ↦ rw p tt
  | inr (none, p) ↦ rw p tt
  | inr (some a, p) ↦ rw p (
      Gets-front s a c.heap (move_to_front a c) (walk_found _ c.heap s c.head a p)
        (move_to_front-Fronts a c))
]

-- a node with the key and the value is at the head
abbrev pub HasFirst : CString → Option CString → Cache → Type 0
HasFirst key defn d =
    (a : ℕ) × (d.head ≡ some a) × ((d.heap a).name ≡ some key) × ((d.heap a).defn ≡ defn)

push_front-HasFirst :
    (a : ℕ) (key : CString) (defn : Option CString) (c : Cache)
    → HasFirst key defn (push_front a key defn c)
unfolding push_front
push_front-HasFirst a key defn c =
    let self : (a == a) ≡ true = ground arith in
    elim (Option-cases c.head) [
      | inl p ↦ rw p (a, refl, rw self refl, rw self refl)
      | inr (head, p) ↦ rw p (a, refl, rw self refl, rw self refl)
    ]

-- where a step has a result, that has the key and the value first
abbrev Puts : CString → Option CString → Option Cache → Type 0
Puts key defn none = Unit
Puts key defn (some d) = HasFirst key defn d

evict-Puts :
    (key : CString) (defn : Option CString) (c : Cache) (tail : Option ℕ)
    → HasFirst key defn c
    → Puts key defn (
        tail >>= λ t.
        (c.heap t).prev >>= λ before. some (record (set_next before none c) { tail = some before }))
evict-Puts key defn c none h = tt
evict-Puts key defn c (some t) (a, p, n, v) = elim (Option-cases (c.heap t).prev) [
  | inl q ↦ rw q tt
  | inr (before, q) ↦
      let same =
        write_node-SameTexts before (record (c.heap before) { next = none }) c refl refl a in
      rw q (a, p, same.0 ∙ n, same.1 ∙ v)
]

evict_or_count-Puts :
    (key : CString) (defn : Option CString) (c : Cache)
    → HasFirst key defn c
    → Puts key defn (evict_or_count c)
unfolding evict_or_count
evict_or_count-Puts key defn c h = elim (Bool-cases (ltb c.count cache_size)) [
  | inl e ↦ rw e h
  | inr e ↦ rw e (evict-Puts key defn c c.tail h)
]

Puts-after_get :
    (new : ℕ) (key : CString) (defn : Option CString) (o : Option (Cache × Option ℕ))
    → Gets key o
    → Puts key defn (
        o >>= λ (c', entry). elim entry [
          | none ↦ evict_or_count (push_front new key defn c')
          | some a ↦ some (write_node a (record (c'.heap a) { defn = defn }) c')
        ])
Puts-after_get new key defn none g = tt
Puts-after_get new key defn (some (c', none)) g =
    evict_or_count-Puts key defn (push_front new key defn c') (push_front-HasFirst new key defn c')
Puts-after_get new key defn (some (c', some a)) (p, n) =
    let self : (a == a) ≡ true = ground arith in (a, p, rw self n, rw self refl)

cache_put-Puts :
    (new : ℕ) (key : CString) (defn : Option CString) (c : Cache)
    → Puts key defn (cache_put new key defn c)
unfolding cache_put
cache_put-Puts new key defn c = Puts-after_get new key defn (cache_get key c) (cache_get-Gets key c)

walk_first :
    (key : CString) (d : Cache) (a : ℕ)
    → d.head ≡ some a
    → (d.heap a).name ≡ some key
    → walk (d.count + 1) d.heap key d.head ≡ some (some a)
walk_first key d a p n =
    let more : d.count + 1 ≡ suc d.count = omega arith in
    let equal : same_name (some key) key ≡ true = rw (strcmp_refl key, same_name) in
    ap (λ k. walk k d.heap key d.head) more
    ∙ ap (walk (suc d.count) d.heap key) p
    ∙ walk_from d.count d.heap key key a n
    ∙ rw equal refl

move_to_front_first : (d : Cache) (a : ℕ) → d.head ≡ some a → move_to_front a d ≡ some d
unfolding move_to_front
move_to_front_first d a p =
    let self : (a == a) ≡ true = ground arith in
    let first : same_address d.head a ≡ true = ap (λ o. same_address o a) p ∙ self in rw first refl

get_first :
    (key : CString) (d : Cache) (a : ℕ)
    → d.head ≡ some a
    → (d.heap a).name ≡ some key
    → cache_get key d ≡ some (d, some a)
unfolding cache_get
get_first key d a p n =
    rw (walk_first key d a p n) (rw (move_to_front_first d a p) (ap (λ o. some (d, o)) p))

-- a node that cache_get has found, it finds again, and changes nothing
pub cache_get_again :
    (key : CString) (c d : Cache) (a : ℕ)
    → cache_get key c ≡ some (d, some a)
    → cache_get key d ≡ some (d, some a)
cache_get_again key c d a h =
    let (p, n) = subst (Gets key) h (cache_get-Gets key c) in get_first key d a p n

-- After cache_put has returned, cache_get of the key finds the node at the head of the list, which
-- holds the value that was put, and changes nothing; this holds whether the key was in the cache,
-- whether an entry was evicted, and for every state of the list.
pub cache_get-cache_put :
    (new : ℕ) (key : CString) (defn : Option CString) (c d : Cache)
    → cache_put new key defn c ≡ some d
    → (a : ℕ) × (cache_get key d ≡ some (d, some a)) × ((d.heap a).defn ≡ defn)
cache_get-cache_put new key defn c d h =
    let (a, p, n, v) = subst (Puts key defn) h (cache_put-Puts new key defn c) in
    (a, get_first key d a p n, v)
