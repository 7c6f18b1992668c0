-- ===== src/PQueue/Tests.antt =====
-- Instances of the theorems about pqueue.c, and tests.
use cse511_lab.Prelude.{ℕ, List, [], ◌∷◌, none, some, ◌≡◌, refl, replicate, arith, set}
use cse511_lab.Prelude.Signed.{negsuc}
use cse511_lab.DataTypes.{MessagePtr, request_lock}
use cse511_lab.PQueue.{Pqueue, max_slots, no_message, pqueue_data_cmp, shift, enqueue}
use cse511_lab.PQueue.Sorted.{IsSorted}
use cse511_lab.PQueue.Span.{span}
use cse511_lab.PQueue.Refine.{contents, IsValid, enqueue_overflow}
use cse511_lab.PQueue.Print.{print, print-contents}
use cse511_lab.PQueue.Trace.{run, replies, put, get, run_refines}

-- a lock request of a node at a time
abbrev request : ℕ → ℕ → MessagePtr
request time node = record {
  address = 1;
  target = record {
    message_type = request_lock;
    timestamp = time;
    node_id = node;
    key = none;
    value = none;
    write_type = 0;
  };
}

abbrev no_slots : List MessagePtr
no_slots = replicate max_slots no_message

-- three requests that go round the end of the array
abbrev wrapped : Pqueue
wrapped = record {
  slots = set (set (set no_slots 48 (request 3 1)) 49 (request 4 0)) 0 (request 4 2);
  rear = some 0;
  front = some 48;
}

wrapped-IsValid : IsValid wrapped
unfolding span IsSorted pqueue_data_cmp
wrapped-IsValid = record {
  array = refl;
  in_range = (omega arith, omega arith);
  sorted = ((refl, (refl, tt)), ((refl, tt), (tt, tt)));
}

abbrev packed : Pqueue
packed = record { slots = no_slots; rear = some 9; front = some 10 }

packed-IsValid : IsValid packed
unfolding span IsSorted pqueue_data_cmp
packed-IsValid = record {
  array = refl;
  in_range = (omega arith, omega arith);
  sorted = ground arith;
}

print-contents_example : print wrapped ≡ some (contents wrapped)
print-contents_example = print-contents wrapped wrapped-IsValid

run_refines_example :
    run wrapped (put (request 4 1) ∷ get ∷ get ∷ get ∷ [])
    ≡ some (replies (contents wrapped) (put (request 4 1) ∷ get ∷ get ∷ get ∷ []))
run_refines_example = run_refines (put (request 4 1) ∷ get ∷ get ∷ get ∷ []) wrapped wrapped-IsValid

-- the new request goes between those of nodes 0 and 2 at the same time
enqueue_middle :
    (elim (enqueue wrapped (request 4 1)) [ none ↦ [] | some (p, s) ↦ contents p ])
    ≡ request 3 1 ∷ request 4 0 ∷ request 4 1 ∷ request 4 2 ∷ []
unfolding enqueue shift pqueue_data_cmp span
enqueue_middle = refl

-- a full queue refuses a request
overflow : enqueue packed (request 1 1) ≡ some (packed, negsuc 0)
unfolding span
overflow = enqueue_overflow packed (request 1 1) packed-IsValid refl
