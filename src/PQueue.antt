-- ===== src/PQueue.antt =====
-- pqueue.c and pqueue.h: the circular priority queue of lock requests. Each function runs under the
-- queue's mutex, or is a step of one that does, so it is a function on the queue.
pub mod Sorted
pub mod Span
mod Shift
pub mod Refine
pub mod Trace
pub mod Print
mod Tests
use cse511_lab.Prelude.{
  ℕ, zero, suc, ◌+◌, ◌-◌, ◌%◌, Bool, true, false, List, Option, none, some, ltb, ◌==◌,
  if◌then◌else◌, get_or, set,
}
use cse511_lab.Prelude.Signed.{ℤ, pos, negsuc, eq_ℤ}
use cse511_lab.DataTypes.{MessagePtr, request_lock}

-- `MAX`
abbrev pub max_slots : ℕ
max_slots = 50

-- `pqueue`. An index is -1 or a position in the array: `none` is -1.
pub record Pqueue : Type 0 where
  pub slots : List MessagePtr
  pub rear : Option ℕ
  pub front : Option ℕ

-- What a read outside the array gives here.
abbrev pub no_message : MessagePtr
no_message = record {
  address = 0;
  target = record {
    message_type = request_lock;
    timestamp = 0;
    node_id = 0;
    key = none;
    value = none;
    write_type = 0;
  };
}

unfoldable pub reset : Pqueue → Pqueue
reset p = record p { rear = none; front = none }

-- `if (p->rear == -1) return 1;`
unfoldable pub empty : Pqueue → Bool
empty p = elim p.rear [ none ↦ true | some _ ↦ false ]

-- `(p->rear + 1) % MAX`, which is 0 at -1
abbrev pub after_rear : Option ℕ → ℕ
after_rear none = 0
after_rear (some r) = (r + 1) % max_slots

-- `i == p->front`
abbrev pub is_front : ℕ → Option ℕ → Bool
is_front i none = false
is_front i (some f) = i == f

unfoldable pub full : Pqueue → Bool
full p = is_front (after_rear p.rear) p.front

unfoldable pub pqueue_data_cmp : MessagePtr → MessagePtr → ℤ
pqueue_data_cmp first second =
    if first.target.timestamp == second.target.timestamp
    then if ltb second.target.node_id first.target.node_id
      then pos 1
      else if ltb first.target.node_id second.target.node_id
      then negsuc 0
      else pos 0
    else if ltb second.target.timestamp first.target.timestamp
    then pos 1
    else if ltb first.target.timestamp second.target.timestamp
    then negsuc 0
    else pos 0

-- `pqueue_data_cmp(x, y) == -1`
abbrev pub before : MessagePtr → MessagePtr → Bool
before x y = eq_ℤ (pqueue_data_cmp x y) (negsuc 0)

-- The `while` loop of `enqueue` on its array and `i`; `none` means that the fuel ran out.
unfoldable pub shift :
    ℕ → MessagePtr → Option ℕ → List MessagePtr → ℕ → Option (List MessagePtr × ℕ)
shift zero x front d i = none
shift (suc fuel) x front d i =
    let d' = set d ((i + 1) % max_slots) (get_or d i no_message) in
    let i' = (i + max_slots - 1) % max_slots in
    let rest = shift fuel x front d' i' in
    if eq_ℤ (pqueue_data_cmp x (get_or d i no_message)) (negsuc 0)
    then (if is_front ((i' + 1) % max_slots) front then some (d', i') else rest)
    else some (d, i)

-- What follows the loop: insert x, and re-adjust rear.
unfoldable pub place : Pqueue → MessagePtr → ℕ → Option (List MessagePtr × ℕ) → Option (Pqueue × ℤ)
place p x r none = none
place p x r (some (d, i)) =
    some
      (record p { slots = set d ((i + 1) % max_slots) x; rear = some ((r + 1) % max_slots) }, pos 0)

-- The branches of `enqueue` on a queue that is not full; the index is `p->rear`.
unfoldable pub enqueue_at : Pqueue → MessagePtr → Option ℕ → Option (Pqueue × ℤ)
unfolding shift place
enqueue_at p x none =
    some (record p { slots = set p.slots 0 x; rear = some 0; front = some 0 }, pos 0)
enqueue_at p x (some r) = place p x r (shift max_slots x p.front p.slots r)

-- The new queue and the status, -1 for an overflow. The loop has fuel for every slot.
unfoldable pub enqueue : Pqueue → MessagePtr → Option (Pqueue × ℤ)
unfolding full enqueue_at
enqueue p x = if full p then some (p, negsuc 0) else enqueue_at p x p.rear

-- The slot at `p->front`; a front of -1 would be a read outside the array.
abbrev pub at_front : Pqueue → MessagePtr
at_front p = elim p.front [ none ↦ no_message | some f ↦ get_or p.slots f no_message ]

-- `p->rear == p->front`
abbrev pub same_index : Option ℕ → Option ℕ → Bool
same_index none none = true
same_index (some r) (some f) = r == f
same_index (some r) none = false
same_index none (some f) = false

unfoldable pub dequeue : Pqueue → Pqueue × Option MessagePtr
unfolding empty reset
dequeue p = if empty p then (p, none) else (
  if same_index p.rear p.front then reset p else record p { front = some (after_rear p.front) },
  some (at_front p),
)

unfoldable pub peek : Pqueue → Option MessagePtr
unfolding empty
peek p = if empty p then none else some (at_front p)
