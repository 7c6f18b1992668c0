-- ===== src/Cache/Steps.antt =====
-- The operations of cache.c on the list of the cache.
use cse511_lab.Prelude.{
  ℕ, ◌-◌, List, [], ◌∷◌, Option, none, some, ◌≡◌, refl, sym, ap, ◌∙◌, subst, arith, take,
  Option-cases, inl, inr,
}
use cse511_lab.CString.{CString}
use cse511_lab.Cache.{
  Cache, cache_size, write_node, set_prev, cache_get, cache_put, drop_head, cache_invalidate,
}
use cse511_lab.Cache.Walk.{first_named}
use cse511_lab.Cache.Front.{SameTexts, SameTexts-trans, write_node-SameTexts}
use cse511_lab.Cache.Links.{NotIn, Links-write, write_self, write_other}
use cse511_lab.Cache.Lru.{IsNamed-SameTexts, IsLru}
use cse511_lab.Cache.Gets.{remove, to_front, Got, cache_get_lem}
use cse511_lab.Cache.Evict.{push-Settled}
use cse511_lab.Cache.Puts.{IsNamed-others}

-- the list behind a put of a name that was found at a node, or not, where it takes a new one
abbrev pub put_list : Option ℕ → ℕ → List ℕ → List ℕ
put_list none new cells = take cache_size (new ∷ cells)
put_list (some a) new cells = to_front (some a) cells

-- What cache_put has done to a list.
pub record Put (new : ℕ) (name : CString) (defn : Option CString) (c : Cache) (cells : List ℕ)
    : Type 0 where
  pub after : Cache
  pub returns : cache_put new name defn c ≡ some after
  pub lru : IsLru after (put_list (first_named c.heap name cells) new cells)

Put-miss :
    (c c1 : Cache) (cells : List ℕ) (new : ℕ) (name : CString) (defn : Option CString)
    → NotIn new cells
    → first_named c.heap name cells ≡ none
    → cache_get name c ≡ some (c1, none)
    → IsLru c1 cells
    → Put new name defn c cells
unfolding cache_put
Put-miss c c1 cells new name defn out missed r v =
    let s = push-Settled c1 cells new name defn v out in
    record {
      after = s.after;
      returns = rw (r, s.returns);
      lru = subst (λ o. IsLru s.after (put_list o new cells)) (sym missed) s.lru;
    }

-- a write of another value to the first node
revalue-IsLru :
    (c : Cache) (a : ℕ) (cells : List ℕ) (defn : Option CString)
    → IsLru c (a ∷ cells)
    → IsLru (write_node a (record (c.heap a) { defn = defn }) c) (a ∷ cells)
revalue-IsLru c a cells defn v =
    let n = record (c.heap a) { defn = defn } in
    let h' = (write_node a n c).heap in
    let self = write_self a n c in
    let (before, behind, l) = v.links in
    let (out, d) = v.distinct in
    let ((name, e), named) = v.named in
    record {
      head = v.head;
      tail = v.tail;
      links = (
        ap (λ x. x.prev) self ∙ before,
        ap (λ x. x.next) self ∙ behind,
        Links-write a n c (some a) none cells out l,
      );
      distinct = (out, d);
      named = (
        (name, ap (λ x. x.name) self ∙ e),
        IsNamed-others c.heap h' a cells (λ b other. ap (λ x. x.name) (write_other a n c b other))
            out named,
      );
      count = v.count;
      fits = v.fits;
    }

Put-hit :
    (c c1 : Cache) (cells : List ℕ) (new a : ℕ) (name : CString) (defn : Option CString)
    → first_named c.heap name cells ≡ some a
    → cache_get name c ≡ some (c1, some a)
    → IsLru c1 (a ∷ remove a cells)
    → Put new name defn c cells
unfolding cache_put
Put-hit c c1 cells new a name defn found r v =
    let c' = write_node a (record (c1.heap a) { defn = defn }) c1 in
    record {
      after = c';
      returns = rw r;
      lru =
          subst (λ o. IsLru c' (put_list o new cells)) (sym found)
            (revalue-IsLru c1 a (remove a cells) defn v);
    }

-- On the list of a cache, cache_put with a node that is not in the list returns and leaves a list of at
-- most 101 nodes: the node that had the name has come to the front, or the new node stands there, and
-- then the last node is gone from a list that was full.
pub cache_put_lem :
    (c : Cache) (cells : List ℕ) (new : ℕ) (name : CString) (defn : Option CString)
    → IsLru c cells
    → NotIn new cells
    → Put new name defn c cells
cache_put_lem c cells new name defn v out =
    let g : Got name c cells = cache_get_lem c cells name v in
    elim (Option-cases (first_named c.heap name cells)) [
      | inl p ↦
          Put-miss c g.after cells new name defn out p (g.returns ∙ ap (λ o. some (g.after, o)) p)
            (subst (λ o. IsLru g.after (to_front o cells)) p g.lru)
      | inr (a, p) ↦
          Put-hit c g.after cells new a name defn p (g.returns ∙ ap (λ o. some (g.after, o)) p)
            (subst (λ o. IsLru g.after (to_front o cells)) p g.lru)
    ]

-- the list without the node of a name
abbrev pub without : Option ℕ → List ℕ → List ℕ
without none cells = cells
without (some a) cells = remove a cells

drop_head-IsLru :
    (c : Cache) (a : ℕ) (cells : List ℕ) → IsLru c (a ∷ cells) → IsLru (drop_head a c) cells
unfolding drop_head
drop_head-IsLru c a [] v =
    let (_, behind, _) = v.links in
    let c' : Cache = record c { head = none; count = c.count - 1 } in
    let size = v.count in
    let done : IsLru c' [] = record {
      head = refl;
      tail = refl;
      links = tt;
      distinct = tt;
      named = tt;
      count = omega arith;
      fits = omega arith;
    } in
    let same : c' ≡ drop_head a c = rw (behind, drop_head) refl in subst (λ d. IsLru d []) same done
drop_head-IsLru c a (b ∷ cells) v =
    let (_, behind, (_, next_b, l)) = v.links in
    let n = record (c.heap b) { prev = none } in
    let c1 = set_prev b none c in
    let c' : Cache = record c1 { head = some b; count = c1.count - 1 } in
    let self = write_self b n c in
    let (_, (out, d)) = v.distinct in
    let (_, named) = v.named in
    let size = v.count in
    let bound = v.fits in
    let done : IsLru c' (b ∷ cells) = record {
      head = refl;
      tail = v.tail;
      links = (
        ap (λ x. x.prev) self,
        ap (λ x. x.next) self ∙ next_b,
        Links-write b n c (some b) none cells out l,
      );
      distinct = (out, d);
      named =
          IsNamed-SameTexts c.heap c1.heap (b ∷ cells) (write_node-SameTexts b n c refl refl) named;
      count = omega arith;
      fits = omega arith;
    } in
    let same : c' ≡ drop_head a c = rw (behind, drop_head) refl in
    subst (λ e. IsLru e (b ∷ cells)) same done

drop_head-SameTexts : (a : ℕ) (c : Cache) → SameTexts c.heap (drop_head a c).heap
unfolding drop_head
drop_head-SameTexts a c = elim (Option-cases (c.heap a).next) [
  | inl p ↦ rw (p, drop_head) (λ b. (refl, refl))
  | inr (next, p) ↦
      rw (p, drop_head)
        (write_node-SameTexts next (record (c.heap next) { prev = none }) c refl refl)
]

-- On the list of a cache, cache_invalidate returns and takes the first node with the name out of it, and
-- leaves the others in their order; without such a node the list stays as it is. The names and the values
-- of all nodes stay as they were.
pub cache_invalidate_lem :
    (c : Cache) (cells : List ℕ) (name : CString)
    → IsLru c cells
    → (c' : Cache) × (cache_invalidate name c ≡ some c')
      × IsLru c' (without (first_named c.heap name cells) cells)
      × SameTexts c.heap c'.heap
unfolding cache_invalidate
cache_invalidate_lem c cells name v =
    let g : Got name c cells = cache_get_lem c cells name v in
    elim (Option-cases (first_named c.heap name cells)) [
      | inl p ↦
          let got = g.returns ∙ ap (λ o. some (g.after, o)) p in
          (
            g.after,
            rw got,
            subst (λ o. IsLru g.after (without o cells)) (sym p)
                (subst (λ o. IsLru g.after (to_front o cells)) p g.lru),
            g.texts,
          )
      | inr (a, p) ↦
          let got = g.returns ∙ ap (λ o. some (g.after, o)) p in
          (
            drop_head a g.after,
            rw got,
            subst (λ o. IsLru (drop_head a g.after) (without o cells)) (sym p)
                (drop_head-IsLru g.after a (remove a cells)
                  (subst (λ o. IsLru g.after (to_front o cells)) p g.lru)),
            SameTexts-trans c.heap g.after.heap (drop_head a g.after).heap g.texts
                (drop_head-SameTexts a g.after),
          )
    ]
