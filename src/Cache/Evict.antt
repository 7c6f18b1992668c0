-- ===== src/Cache/Evict.antt =====
-- The eviction of cache_put in cache.c from a list that is full.
use cse511_lab.Prelude.{
  ℕ, suc, ◌+◌, ◌≤◌, List, [], ◌∷◌, ◌++◌, Option, none, some, ◌≡◌, refl, sym, ap, ◌∙◌, subst, arith,
  true, false, All, ltb, ltb→lt, length, length-append, take, take_front, take_of_length_le,
  append_assoc, append-nil, Bool-cases, inl, inr,
}
use cse511_lab.CString.{CString}
use cse511_lab.Cache.{Cache, cache_size, set_next, push_front, evict_or_count}
use cse511_lab.Cache.Front.{write_node-SameTexts}
use cse511_lab.Cache.Links.{
  NotIn, Distinct, All-split, Distinct-middle, Links-split, last_of-append,
}
use cse511_lab.Cache.Moves.{cut_last}
use cse511_lab.Cache.Lru.{first_of_inner, IsNamed, IsNamed-SameTexts, IsLru}
use cse511_lab.Cache.Puts.{IsLinked, push_front-IsLinked, push_front-count}

ltb→le : (a b : ℕ) → ltb a b ≡ false → b ≤ a
ltb→le a b h = ground arith

-- the eviction of the last node
evict-IsLinked :
    (c : Cache) (zs : List ℕ) (t a : ℕ)
    → IsLinked c (zs ++ t ∷ a ∷ [])
    → ltb c.count cache_size ≡ false
    → (c' : Cache) × (evict_or_count c ≡ some c')
      × IsLinked c' (zs ++ t ∷ [])
      × (c'.count ≡ c.count)
unfolding evict_or_count
evict-IsLinked c zs t a v full =
    let n = record (c.heap t) { next = none } in
    let c' : Cache = record (set_next t none c) { tail = some t } in
    let (_, (_, _, (before, _, _))) = Links-split c.heap none none zs (t ∷ a ∷ []) v.links in
    let end : c.tail ≡ some a = v.tail ∙ last_of-append c.tail zs t (a ∷ []) in
    let split = append_assoc zs (t ∷ []) (a ∷ []) in
    let (tz, (_, _), _) = Distinct-middle zs t (a ∷ []) v.distinct in
    let (_, _, d) = Distinct-middle (zs ++ t ∷ []) a [] (subst Distinct (sym split) v.distinct) in
    let (named, _) =
      All-split (IsNamed c.heap) (zs ++ t ∷ []) (a ∷ [])
        (subst (All (IsNamed c.heap)) (sym split) v.named) in
    (
      c',
      rw (full, end, before) refl,
      record {
        head = v.head ∙ first_of_inner zs [] t a;
        tail = sym (last_of-append (some t) zs t []);
        links = cut_last c zs t a tz v.links;
        distinct = subst Distinct (append-nil (zs ++ t ∷ [])) d;
        named =
            IsNamed-SameTexts c.heap c'.heap (zs ++ t ∷ []) (write_node-SameTexts t n c refl refl)
              named;
      },
      refl,
    )

-- the last two nodes of a list
last_two :
    (x y : ℕ) (ys : List ℕ) → (zs : List ℕ) × (t : ℕ) × (a : ℕ) × (x ∷ y ∷ ys ≡ zs ++ t ∷ a ∷ [])
last_two x y [] = ([], x, y, refl)
last_two x y (z ∷ ys) = let (zs, t, a, e) = last_two y z ys in (x ∷ zs, t, a, ap (◌∷◌ x) e)

-- What happens to a list that a node has been put in front of.
pub record Settled (c : Cache) (cells : List ℕ) : Type 0 where
  pub after : Cache
  pub returns : evict_or_count c ≡ some after
  pub lru : IsLru after (take cache_size cells)

settle_counted :
    (c : Cache) (cells : List ℕ)
    → IsLinked c cells
    → suc c.count ≡ length cells
    → ltb c.count cache_size ≡ true
    → Settled c cells
unfolding evict_or_count
settle_counted c cells v size room =
    let less = ltb→lt c.count cache_size room in
    let whole : take cache_size cells ≡ cells = take_of_length_le cache_size cells (omega arith) in
    record {
      after = record c { count = c.count + 1 };
      returns = rw room refl;
      lru = subst (IsLru (record c { count = c.count + 1 })) (sym whole) (record {
        head = v.head;
        tail = v.tail;
        links = v.links;
        distinct = v.distinct;
        named = v.named;
        count = omega arith;
        fits = omega arith;
      });
    }

settle_full :
    (c : Cache) (x : ℕ) (cells : List ℕ)
    → IsLinked c (x ∷ cells)
    → c.count ≡ length cells
    → length cells ≡ cache_size
    → ltb c.count cache_size ≡ false
    → Settled c (x ∷ cells)
settle_full c x [] v size enough full = absurd (omega arith)
settle_full c x (y ∷ ys) v size enough full =
    let (zs, t, a, e) = last_two x y ys in
    let (c', r, linked, counted) = evict-IsLinked c zs t a (subst (IsLinked c) e v) full in
    let split : x ∷ y ∷ ys ≡ (zs ++ t ∷ []) ++ a ∷ [] =
      e ∙ sym (append_assoc zs (t ∷ []) (a ∷ [])) in
    let sum = length-append (zs ++ t ∷ []) (a ∷ []) in
    let lengths = ap length split in
    let front : length (zs ++ t ∷ []) ≡ cache_size = omega arith in
    let kept : zs ++ t ∷ [] ≡ take cache_size (x ∷ y ∷ ys) =
      sym (ap (take cache_size) split ∙ take_front cache_size (zs ++ t ∷ []) (a ∷ []) front) in
    record {
      after = c';
      returns = r;
      lru = subst (IsLru c') kept (record {
        head = linked.head;
        tail = linked.tail;
        links = linked.links;
        distinct = linked.distinct;
        named = linked.named;
        count = omega arith;
        fits = omega arith;
      });
    }

-- a new node in front of a list, and the eviction or the count behind it
pub push-Settled :
    (c : Cache) (cells : List ℕ) (new : ℕ) (name : CString) (defn : Option CString)
    → IsLru c cells
    → NotIn new cells
    → Settled (push_front new name defn c) (new ∷ cells)
push-Settled c cells new name defn v out =
    let c' = push_front new name defn c in
    let linked = push_front-IsLinked c new cells name defn v out in
    let same = push_front-count c new name defn in
    let size = v.count in
    let bound = v.fits in
    elim (Bool-cases (ltb c'.count cache_size)) [
      | inl p ↦ settle_counted c' (new ∷ cells) linked (omega arith) p
      | inr p ↦
          let most : cache_size ≤ c'.count = ltb→le c'.count cache_size p in
          settle_full c' new cells linked (omega arith) (omega arith) p
    ]
