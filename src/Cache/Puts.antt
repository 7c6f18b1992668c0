-- ===== src/Cache/Puts.antt =====
-- A new node of cache_put in cache.c in front of the list.
use cse511_lab.Prelude.{
  ℕ, List, [], ◌∷◌, Option, none, some, ◌≡◌, ◌≢◌, refl, sym, ap, ◌∙◌, subst, All, Option-cases, inl,
  inr,
}
use cse511_lab.CString.{CString}
use cse511_lab.Cache.{CacheNode, Cache, write_node, set_prev, push_front}
use cse511_lab.Cache.Front.{write_node-SameTexts}
use cse511_lab.Cache.Links.{
  first_of, last_of, Links, NotIn, Distinct, Links-write, write_other, write_self,
}
use cse511_lab.Cache.Moves.{attach}
use cse511_lab.Cache.Lru.{IsNamed, IsLru}

-- a list in the cache, but for its count
pub record IsLinked (c : Cache) (cells : List ℕ) : Type 0 where
  pub head : c.head ≡ first_of cells none
  pub tail : c.tail ≡ last_of c.tail cells
  pub links : Links c.heap none cells none
  pub distinct : Distinct cells
  pub named : All (IsNamed c.heap) cells

-- names of other nodes than the one that is written
pub IsNamed-others :
    (h h' : ℕ → CacheNode) (new : ℕ) (cells : List ℕ)
    → ((b : ℕ) → b ≢ new → (h' b).name ≡ (h b).name)
    → NotIn new cells
    → All (IsNamed h) cells
    → All (IsNamed h') cells
IsNamed-others h h' new [] same out n = tt
IsNamed-others h h' new (b ∷ cells) same (o, out) ((name, e), n) =
    ((name, same b o ∙ e), IsNamed-others h h' new cells same out n)

push_empty :
    (c : Cache) (new : ℕ) (name : CString) (defn : Option CString)
    → c.head ≡ none
    → IsLinked (push_front new name defn c) (new ∷ [])
unfolding push_front
push_empty c new name defn e =
    let n : CacheNode = record { name = some name; defn = defn; next = none; prev = none } in
    let self = write_self new n c in
    let c' : Cache = record (write_node new n c) { head = some new; tail = some new } in
    let done : IsLinked c' (new ∷ []) = record {
      head = refl;
      tail = refl;
      links = (ap (λ x. x.prev) self, ap (λ x. x.next) self, tt);
      distinct = (tt, tt);
      named = ((name, ap (λ x. x.name) self), tt);
    } in
    let same : c' ≡ push_front new name defn c = rw (e, push_front) refl in
    subst (λ d. IsLinked d (new ∷ [])) same done

pub push_front-IsLinked :
    (c : Cache) (new : ℕ) (cells : List ℕ) (name : CString) (defn : Option CString)
    → IsLru c cells
    → NotIn new cells
    → IsLinked (push_front new name defn c) (new ∷ cells)
push_front-IsLinked c new [] name defn v out = push_empty c new name defn v.head
push_front-IsLinked c new (b ∷ cells) name defn v (bn, out) =
    let m = record (c.heap b) { prev = some new } in
    let c1 = set_prev b (some new) c in
    let n : CacheNode = record { name = some name; defn = defn; next = some b; prev = none } in
    let c2 = write_node new n c1 in
    let c' : Cache = record c2 { head = some new } in
    let self = write_self new n c1 in
    let at_b : c2.heap b ≡ m = write_other new n c1 b bn ∙ write_self b m c in
    let (bout, d) = v.distinct in
    let texts = write_node-SameTexts b m c refl refl in
    let named : All (IsNamed c2.heap) (b ∷ cells) =
      IsNamed-others c.heap c2.heap new (b ∷ cells)
        (λ x other. ap (λ y. y.name) (write_other new n c1 x other) ∙ (texts x).0) (bn, out)
        v.named in
    let done : IsLinked c' (new ∷ b ∷ cells) = record {
      head = refl;
      tail = v.tail;
      links =
          attach c.heap c2.heap new b cells none v.links (ap (λ x. x.prev) self)
            (ap (λ x. x.next) self) (ap (λ x. x.prev) at_b) (ap (λ x. x.next) at_b)
            (Links-write new n c1 (some b) none cells out
              (Links-write b m c (some b) none cells bout v.links.2));
      distinct = ((bn, out), (bout, d));
      named = ((name, ap (λ x. x.name) self), named);
    } in
    let same : c' ≡ push_front new name defn c =
      unfold push_front in
      sym (
        ap
          (λ o. elim o [
            | none ↦
                record (write_node new
                  (record { name = some name; defn = defn; next = none; prev = none }) c) {
                    head = some new;
                    tail = some new;
                  }
            | some head ↦
                record (write_node new
                  (record { name = some name; defn = defn; next = some head; prev = none })
                  (set_prev head (some new) c)) { head = some new }
          ])
          v.head) in
    subst (λ d'. IsLinked d' (new ∷ b ∷ cells)) same done

pub push_front-count :
    (c : Cache) (new : ℕ) (name : CString) (defn : Option CString)
    → (push_front new name defn c).count ≡ c.count
unfolding push_front
push_front-count c new name defn = elim (Option-cases c.head) [
  | inl p ↦ rw (p, push_front) refl
  | inr (head, p) ↦ rw (p, push_front) refl
]
