-- ===== src/PQueue/Refine.antt =====
-- The circular array of pqueue.c against the sorted list of the messages that it holds.
use cse511_lab.Prelude.{
  ℕ, suc, ◌+◌, ◌-◌, ◌%◌, ◌<◌, List, [], ◌∷◌, Option, none, some, ◌≡◌, ◌≢◌, refl, ap, ◌∙◌, length,
  length-set, set, arith, true, false, append-nil, get_or, get_or-set_self, sym, ◌==◌,
}
use mathlib.Core.List.{head?, tail}
use native.Mathlib.Decide.{ℕ_discrete}
use cse511_lab.Prelude.Signed.{pos, negsuc}
use cse511_lab.DataTypes.{MessagePtr}
use cse511_lab.PQueue.{
  Pqueue, max_slots, no_message, shift, enqueue, enqueue_at, place, dequeue, peek, full, empty,
  reset,
}
use cse511_lab.PQueue.Sorted.{insert, IsSorted, insert-IsSorted, IsSorted-tail}
use cse511_lab.PQueue.Span.{slot, span, length-span, span-suc, span_front}
use cse511_lab.PQueue.Shift.{Shifted, shift_lem, at_front_lem, not_at_front_lem}

-- how many messages stand from front `f` to rear `r`
abbrev pub count : ℕ → ℕ → ℕ
count r f = suc ((r + max_slots - f) % max_slots)

abbrev pub contents_of : List MessagePtr → Option ℕ → Option ℕ → List MessagePtr
contents_of d (some r) (some f) = span d f 0 (count r f)
contents_of d _ _ = []

-- the messages of the queue, from front to rear
abbrev pub contents : Pqueue → List MessagePtr
contents p = contents_of p.slots p.rear p.front

-- both indices are -1, or both are positions
abbrev pub InRange : Option ℕ → Option ℕ → Type 0
InRange none none = Unit {0}
InRange (some r) (some f) = (r < max_slots) × (f < max_slots)
InRange _ _ = ⊥

pub record IsValid (p : Pqueue) : Type 0 where
  pub array : length p.slots ≡ max_slots
  pub in_range : InRange p.rear p.front
  pub sorted : IsSorted (contents p)

abbrev pub queue : List MessagePtr → Option ℕ → Option ℕ → Pqueue
queue d r f = record { slots = d; rear = r; front = f }

-- What `enqueue` has done where it stores the message.
pub record Enqueued (p : Pqueue) (x : MessagePtr) : Type 0 where
  pub after : Pqueue
  pub status : enqueue p x ≡ some (after, pos 0)
  pub valid : IsValid after
  pub stored : contents after ≡ insert x (contents p)

-- a queue with something in it and room for more
module _ (d : List MessagePtr) (r f : ℕ) (x : MessagePtr) (v : IsValid (queue d (some r) (some f)))
    (room : count r f < max_slots) where
  looped : Shifted x d f (count r f) 0 (shift max_slots x (some f) d r)
  looped =
      shift_lem x max_slots d f ((r + max_slots - f) % max_slots) 0 r v.array v.in_range.1
        (omega arith) (omega arith) (omega arith) v.sorted

  grown :
      contents_of
        (set looped.array ((looped.index + 1) % max_slots) x)
        (some ((r + 1) % max_slots))
        (some f)
      ≡ insert x (span d f 0 (count r f))
  grown =
      let array : List MessagePtr = set looped.array ((looped.index + 1) % max_slots) x in
      let one_more : count ((r + 1) % max_slots) f ≡ suc (count r f + 0) = omega arith in
      ap (span array f 0) one_more
      ∙ looped.placed
      ∙ unfold span in append-nil (insert x (span d f 0 (count r f)))

  enqueue_some : Enqueued (queue d (some r) (some f)) x
  unfolding enqueue enqueue_at place full
  enqueue_some = record {
    after =
        queue (set looped.array ((looped.index + 1) % max_slots) x) (some ((r + 1) % max_slots))
          (some f);
    status =
        rw (not_at_front_lem ((r + 1) % max_slots) f (omega arith))
          (ap (place (queue d (some r) (some f)) x r) looped.stops);
    valid = record {
      array = length-set looped.array _ x ∙ looped.length_kept;
      in_range = (omega arith, v.in_range.1);
      sorted = rw grown (insert-IsSorted x (span d f 0 (count r f)) v.sorted);
    };
    stored = grown;
  }

enqueue_none :
    (d : List MessagePtr) (x : MessagePtr)
    → IsValid (queue d none none)
    → Enqueued (queue d none none) x
unfolding enqueue enqueue_at full span insert IsSorted
enqueue_none d x v =
    let here : get_or (set d 0 x) 0 no_message ≡ x =
      get_or-set_self d 0 x no_message (omega arith) in
    record {
      after = queue (set d 0 x) (some 0) (some 0);
      status = refl;
      valid = record {
        array = length-set d 0 x ∙ v.array;
        in_range = (omega arith, omega arith);
        sorted = (tt, tt);
      };
      stored = ap (λ y. y ∷ []) here;
    }

enqueue_room :
    (d : List MessagePtr) (r f : Option ℕ) (x : MessagePtr)
    → IsValid (queue d r f)
    → length (contents_of d r f) < max_slots
    → Enqueued (queue d r f) x
enqueue_room d none none x v h = enqueue_none d x v
enqueue_room d (some r) (some f) x v h =
    enqueue_some d r f x v (rw (length-span d f 0 (count r f)) at h)
enqueue_room d (some r) none x v h = absurd v.in_range
enqueue_room d none (some f) x v h = absurd v.in_range

-- On a queue with a free slot, enqueue returns 0; the queue stays valid, and what it holds is what
-- it held with the message inserted in the order of timestamp and node.
pub enqueue_refines :
    (p : Pqueue) (x : MessagePtr) → IsValid p → length (contents p) < max_slots → Enqueued p x
enqueue_refines p x v h = enqueue_room p.slots p.rear p.front x v h

enqueue_at_max :
    (d : List MessagePtr) (r f : Option ℕ) (x : MessagePtr)
    → IsValid (queue d r f)
    → length (contents_of d r f) ≡ max_slots
    → enqueue (queue d r f) x ≡ some (queue d r f, negsuc 0)
unfolding enqueue full
enqueue_at_max d none none x v h = absurd (omega arith)
enqueue_at_max d (some r) (some f) x v h =
    let all : count r f ≡ max_slots = rw (length-span d f 0 (count r f)) at h in
    rw (at_front_lem ((r + 1) % max_slots) f (omega arith))
enqueue_at_max d (some r) none x v h = absurd v.in_range
enqueue_at_max d none (some f) x v h = absurd v.in_range

-- On a queue that holds MAX messages, enqueue returns -1 and changes nothing.
pub enqueue_overflow :
    (p : Pqueue) (x : MessagePtr)
    → IsValid p
    → length (contents p) ≡ max_slots
    → enqueue p x ≡ some (p, negsuc 0)
enqueue_overflow p x v h = enqueue_at_max p.slots p.rear p.front x v h

-- What `dequeue` does to the list that the queue holds.
pub record Dequeued (p : Pqueue) : Type 0 where
  pub returned : (dequeue p).1 ≡ head? (contents p)
  pub rest : contents (dequeue p).0 ≡ tail (contents p)
  pub valid : IsValid (dequeue p).0

module _ (d : List MessagePtr) (r f : ℕ) (v : IsValid (queue d (some r) (some f))) where
  abbrev behind : List MessagePtr
  behind = span d f 1 ((r + max_slots - f) % max_slots)

  contents_split : span d f 0 (count r f) ≡ get_or d f no_message ∷ behind
  contents_split =
      span-suc d f 0 _ ∙ ap (λ i. get_or d i no_message ∷ behind) (omega (arith, v.in_range.1))

  behind-IsSorted : IsSorted behind
  behind-IsSorted = IsSorted-tail _ behind (rw contents_split at v.sorted)

  dequeue_last : r ≡ f → Dequeued (queue d (some r) (some f))
  unfolding dequeue empty reset IsSorted span
  dequeue_last e =
      let same : (r == f) ≡ true = ground arith in
      let none_left : (r + max_slots - f) % max_slots ≡ 0 = omega (arith, v.in_range.1) in
      record {
        returned = ap head? (sym contents_split);
        rest = rw (same, none_left);
        valid = rw same (record { array = v.array; in_range = tt; sorted = tt });
      }

  dequeue_more : r ≢ f → Dequeued (queue d (some r) (some f))
  unfolding dequeue empty reset
  dequeue_more ne =
      let differ : (r == f) ≡ false = ground arith in
      let fewer : count r (slot f 1) ≡ (r + max_slots - f) % max_slots =
        omega (arith, v.in_range) in
      let rest : span d (slot f 1) 0 (count r (slot f 1)) ≡ behind =
        ap (span d (slot f 1) 0) fewer ∙ span_front d f 0 _ in
      record {
        returned = ap head? (sym contents_split);
        rest = rw differ (rest ∙ sym (ap tail contents_split));
        valid = rw differ (record {
          array = v.array;
          in_range = (v.in_range.0, omega arith);
          sorted = rw rest behind-IsSorted;
        });
      }

dequeue_at : (d : List MessagePtr) (r f : Option ℕ) → IsValid (queue d r f) → Dequeued (queue d r f)
unfolding dequeue empty IsSorted
dequeue_at d none none v = record { returned = refl; rest = refl; valid = v }
dequeue_at d (some r) (some f) v = elim (ℕ_discrete r f) [
  | yes e ↦ dequeue_last d r f v e
  | no ne ↦ dequeue_more d r f v ne
]
dequeue_at d (some r) none v = absurd v.in_range
dequeue_at d none (some f) v = absurd v.in_range

-- dequeue returns the first message that the valid queue holds (nothing from an empty one), leaves
-- the others in their order, and keeps the queue valid.
pub dequeue_refines : (p : Pqueue) → IsValid p → Dequeued p
dequeue_refines p v = dequeue_at p.slots p.rear p.front v

peek_at :
    (d : List MessagePtr) (r f : Option ℕ)
    → IsValid (queue d r f)
    → peek (queue d r f) ≡ head? (contents_of d r f)
unfolding peek empty
peek_at d none none v = refl
peek_at d (some r) (some f) v = ap head? (sym (contents_split d r f v))
peek_at d (some r) none v = absurd v.in_range
peek_at d none (some f) v = absurd v.in_range

-- peek returns what dequeue would return, and on a valid queue that is the first message it holds.
pub peek_refines :
    (p : Pqueue) → IsValid p → (peek p ≡ head? (contents p)) × (peek p ≡ (dequeue p).1)
peek_refines p v =
    let first : peek p ≡ head? (contents p) = peek_at p.slots p.rear p.front v in
    (first, first ∙ sym (dequeue_refines p v).returned)
