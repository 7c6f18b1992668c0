-- ===== src/Cache/Moves.antt =====
-- What the assignments of cache_get and cache_put in cache.c do to the list.
use cse511_lab.Prelude.{
  ℕ, List, [], ◌∷◌, ◌++◌, Option, none, some, ◌≡◌, ◌≢◌, refl, sym, ap, ◌∙◌, arith, true, false,
  ◌==◌,
}
use cse511_lab.Cache.{CacheNode, Cache, same_address, set_next, set_prev, unlink_behind, unlink}
use cse511_lab.Cache.Links.{
  last_of, Links, NotIn, Links-append, Links-split, Links-write, write_other, write_self,
}

-- a node in front of a list
pub attach :
    (h h' : ℕ → CacheNode) (a b : ℕ) (cells : List ℕ) (q : Option ℕ)
    → Links h none (b ∷ cells) q
    → (h' a).prev ≡ none
    → (h' a).next ≡ some b
    → (h' b).prev ≡ some a
    → (h' b).next ≡ (h b).next
    → Links h' (some b) cells q
    → Links h' none (a ∷ b ∷ cells) q
attach h h' a b cells q (before, behind, l) e f g k m = (e, f, (g, k ∙ behind, m))

-- the node behind the last one of a segment goes
pub cut_last :
    (c : Cache) (zs : List ℕ) (t a : ℕ)
    → NotIn t zs
    → Links c.heap none (zs ++ t ∷ a ∷ []) none
    → Links (set_next t none c).heap none (zs ++ t ∷ []) none
cut_last c zs t a out l =
    let n = record (c.heap t) { next = none } in
    let (front, (before, behind, _)) = Links-split c.heap none none zs (t ∷ a ∷ []) l in
    let self = write_self t n c in
    Links-append (set_next t none c).heap none none zs (t ∷ [])
      (Links-write t n c none (some t) zs out front)
      (ap (λ x. x.prev) self ∙ before, ap (λ x. x.next) self, tt)

-- a node between two others goes
cut_between :
    (c : Cache) (zs ys : List ℕ) (t a b : ℕ)
    → NotIn t zs
    → NotIn b zs
    → t ≢ b
    → NotIn t ys
    → NotIn b ys
    → Links c.heap none (zs ++ t ∷ a ∷ b ∷ ys) none
    → Links (set_prev b (some t) (set_next t (some b) c)).heap none (zs ++ t ∷ b ∷ ys) none
cut_between c zs ys t a b tz bz tb ty by l =
    let n = record (c.heap t) { next = some b } in
    let c1 = set_next t (some b) c in
    let m = record (c1.heap b) { prev = some t } in
    let c2 = set_prev b (some t) c1 in
    let (front, (before, _, (_, _, (_, next_b, rest)))) =
      Links-split c.heap none none zs (t ∷ a ∷ b ∷ ys) l in
    let at_t : c2.heap t ≡ n = write_other b m c1 t tb ∙ write_self t n c in
    let at_b = write_self b m c1 in
    let old_b : c1.heap b ≡ c.heap b = write_other t n c b (λ e. tb (sym e)) in
    Links-append c2.heap none none zs (t ∷ b ∷ ys)
      (Links-write b m c1 none (some t) zs bz (Links-write t n c none (some t) zs tz front))
      (
        ap (λ x. x.prev) at_t ∙ before,
        ap (λ x. x.next) at_t,
        (
          ap (λ x. x.prev) at_b,
          ap (λ x. x.next) at_b ∙ ap (λ x. x.next) old_b ∙ next_b,
          Links-write b m c1 (some b) none ys by (Links-write t n c (some b) none ys ty rest),
        ),
      )

-- What unlink has done to a list when it has taken a node out.
pub record Unlinked (a : ℕ) (c : Cache) (cells : List ℕ) (last : Option ℕ) : Type 0 where
  pub after : Cache
  pub returns : unlink a c ≡ some after
  pub links : Links after.heap none cells none
  pub head : after.head ≡ c.head
  pub tail : after.tail ≡ last
  pub count : after.count ≡ c.count

-- the last node is one of the list
last_other :
    (a b : ℕ) (cells : List ℕ)
    → NotIn a (b ∷ cells)
    → (z : ℕ) × (last_of (some b) cells ≡ some z) × (z ≢ a)
last_other a b [] (n, out) = (b, refl, n)
last_other a b (d ∷ cells) (n, out) = last_other a d cells out

pub unlink-last :
    (c : Cache) (zs : List ℕ) (t a : ℕ)
    → NotIn t zs
    → Links c.heap none (zs ++ t ∷ a ∷ []) none
    → c.tail ≡ some a
    → Unlinked a c (zs ++ t ∷ []) (some t)
unfolding unlink unlink_behind
unlink-last c zs t a out l end =
    let (front, (_, _, (before, _, _))) = Links-split c.heap none none zs (t ∷ a ∷ []) l in
    let at_end : same_address c.tail a ≡ true = rw end (ground arith) in
    record {
      after = record (set_next t none c) { tail = some t };
      returns = rw (before, at_end) refl;
      links = cut_last c zs t a out l;
      head = refl;
      tail = refl;
      count = refl;
    }

pub unlink-between :
    (c : Cache) (zs ys : List ℕ) (t a b : ℕ)
    → NotIn t zs
    → NotIn b zs
    → t ≢ b
    → NotIn t ys
    → NotIn b ys
    → NotIn a (b ∷ ys)
    → Links c.heap none (zs ++ t ∷ a ∷ b ∷ ys) none
    → c.tail ≡ last_of (some b) ys
    → Unlinked a c (zs ++ t ∷ b ∷ ys) (last_of (some b) ys)
unfolding unlink unlink_behind
unlink-between c zs ys t a b tz bz tb ty by out l end =
    let (front, (_, _, (before, behind, _))) = Links-split c.heap none none zs (t ∷ a ∷ b ∷ ys) l in
    let (z, last, other) = last_other a b ys out in
    let inside : same_address c.tail a ≡ false =
      ap (λ o. same_address o a) (end ∙ last) ∙ (let no : (z == a) ≡ false = ground arith in no) in
    record {
      after = set_prev b (some t) (set_next t (some b) c);
      returns = rw (before, inside, behind) refl;
      links = cut_between c zs ys t a b tz bz tb ty by l;
      head = refl;
      tail = end;
      count = refl;
    }

-- the assignments to the head and to a node that is put in front of it
pub front-Links :
    (c : Cache) (a b : ℕ) (cells : List ℕ)
    → NotIn a (b ∷ cells)
    → NotIn b cells
    → Links c.heap none (b ∷ cells) none
    → Links
        (set_prev a none (set_next a (some b) (set_prev b (some a) c))).heap
        none
        (a ∷ b ∷ cells)
        none
front-Links c a b cells (ba, out) bout l =
    let n2 = record (c.heap b) { prev = some a } in
    let c2 = set_prev b (some a) c in
    let n3 = record (c2.heap a) { next = some b } in
    let c3 = set_next a (some b) c2 in
    let n4 = record (c3.heap a) { prev = none } in
    let c4 = set_prev a none c3 in
    let at_a = write_self a n4 c3 in
    let at_b : c4.heap b ≡ n2 =
      write_other a n4 c3 b ba ∙ write_other a n3 c2 b ba ∙ write_self b n2 c in
    attach c.heap c4.heap a b cells none l (ap (λ x. x.prev) at_a)
      (ap (λ x. x.next) at_a ∙ ap (λ x. x.next) (write_self a n3 c2)) (ap (λ x. x.prev) at_b)
      (ap (λ x. x.next) at_b)
      (Links-write a n4 c3 (some b) none cells out (
        Links-write a n3 c2 (some b) none cells out
          (Links-write b n2 c (some b) none cells bout l.2)))
