-- ===== src/PQueue/Trace.antt =====
-- Any sequence of calls of pqueue.c, against the same calls on a bounded sorted list.
use cse511_lab.Prelude.{
  ℕ, ◌≤◌, List, [], ◌∷◌, Option, none, some, ◌≡◌, refl, length, arith, ◌==◌, if◌then◌else◌,
  Bool-cases, inl, inr,
}
use mathlib.Core.List.{head?, tail}
use mathlib.Core.Option
use cse511_lab.Prelude.Signed.{ℤ, pos, negsuc}
use cse511_lab.DataTypes.{MessagePtr}
use cse511_lab.PQueue.{Pqueue, max_slots, enqueue, dequeue}
use cse511_lab.PQueue.Sorted.{insert}
use cse511_lab.PQueue.Span.{length-span}
use cse511_lab.PQueue.Refine.{
  contents, contents_of, count, queue, IsValid, Enqueued, enqueue_refines, enqueue_overflow,
  Dequeued, dequeue_refines,
}

pub data Call : Type 0 where
  put : MessagePtr → Call
  get : Call

pub data Reply : Type 0 where
  status : ℤ → Reply
  message : Option MessagePtr → Reply

-- what the calls return, in order
pub run : Pqueue → List Call → Option (List Reply)
run p [] = some []
run p (put x ∷ calls) = elim (enqueue p x) [
  | none ↦ none
  | some (p', s) ↦ Option.map (◌∷◌ (status s)) (run p' calls)
]
run p (get ∷ calls) = Option.map (◌∷◌ (message (dequeue p).1)) (run (dequeue p).0 calls)

-- the same calls on a sorted list of at most MAX messages
pub replies : List MessagePtr → List Call → List Reply
replies l [] = []
replies l (put x ∷ calls) =
    if length l == max_slots
    then status (negsuc 0) ∷ replies l calls
    else status (pos 0) ∷ replies (insert x l) calls
replies l (get ∷ calls) = message (head? l) ∷ replies (tail l) calls

length-contents_of :
    (d : List MessagePtr) (r f : Option ℕ)
    → IsValid (queue d r f)
    → length (contents_of d r f) ≤ max_slots
length-contents_of d none none v = omega arith
length-contents_of d (some r) (some f) v = omega (arith, length-span d f 0 (count r f))
length-contents_of d (some r) none v = omega arith
length-contents_of d none (some f) v = omega arith

pub length-contents : (p : Pqueue) → IsValid p → length (contents p) ≤ max_slots
length-contents p v = length-contents_of p.slots p.rear p.front v

-- No sequence of calls tells a valid queue from the sorted list of its contents, bounded by MAX:
-- every call returns, and the replies are the list's.
pub run_refines :
    (calls : List Call) (p : Pqueue) → IsValid p → run p calls ≡ some (replies (contents p) calls)
unfolding run replies
run_refines [] p v = refl
run_refines (put x ∷ calls) p v = elim (Bool-cases (length (contents p) == max_slots)) [
  | inl full ↦ rw (full, enqueue_overflow p x v (ground arith), run) (rw (run_refines calls p v))
  | inr room ↦
      let stored : Enqueued p x = enqueue_refines p x v (ground (arith, length-contents p v)) in
      rw (room, stored.status, run)
        (rw (run_refines calls stored.after stored.valid, stored.stored))
]
run_refines (get ∷ calls) p v =
    let taken : Dequeued p = dequeue_refines p v in
    rw (taken.returned, run_refines calls (dequeue p).0 taken.valid, taken.rest)
