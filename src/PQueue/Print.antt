-- ===== src/PQueue/Print.antt =====
-- `print` of pqueue.c, by the messages whose fields its lines show; none is where the fuel of the loop runs
-- out.
use cse511_lab.Prelude.{
  ℕ, zero, suc, ◌+◌, ◌-◌, ◌%◌, ◌<◌, Bool, true, false, List, [], ◌∷◌, Option, none, some, ◌>>=◌,
  ◌≡◌, refl, ap, ◌∙◌, arith, get_or, ◌==◌, if◌then◌else◌,
}
use cse511_lab.DataTypes.{MessagePtr}
use cse511_lab.PQueue.{Pqueue, max_slots, no_message, empty}
use cse511_lab.PQueue.Refine.{IsValid, contents, count, queue}
use cse511_lab.PQueue.Span.{slot, span}

-- `i == p->rear`
abbrev is_rear : ℕ → Option ℕ → Bool
is_rear i none = false
is_rear i (some r) = i == r

-- the loop of `print` from `i` on, and the line of the last element
unfoldable pub print_loop : ℕ → List MessagePtr → Option ℕ → ℕ → Option (List MessagePtr)
print_loop zero d rear i = none
print_loop (suc fuel) d rear i = elim (is_rear i rear) [
  | true ↦ some (get_or d i no_message ∷ [])
  | false ↦ do
    rest ← print_loop fuel d rear ((i + 1) % max_slots)
    some (get_or d i no_message ∷ rest)
]

-- `print`; the loop has fuel for every slot. A front of -1 would be a read outside the array.
unfoldable pub print : Pqueue → Option (List MessagePtr)
unfolding empty print_loop
print p = if empty p then some [] else p.front >>= print_loop max_slots p.slots p.rear

print_loop_lem :
    (fuel : ℕ) (d : List MessagePtr) (r f a n : ℕ)
    → r < max_slots
    → f < max_slots
    → count r f ≡ suc (a + n)
    → n < fuel
    → print_loop fuel d (some r) (slot f a) ≡ some (span d f a (suc n))
unfolding print_loop span
print_loop_lem zero d r f a n hr hf h less = absurd (omega arith)
print_loop_lem (suc fuel) d r f a zero hr hf h less =
    let last : (slot f a == r) ≡ true = ground arith in rw (last, print_loop) refl
print_loop_lem (suc fuel) d r f a (suc n) hr hf h less =
    let more : (slot f a == r) ≡ false = ground arith in
    let next : (slot f a + 1) % max_slots ≡ slot f (suc a) = omega arith in
    rw (more, print_loop)
      (rw (next, print_loop_lem fuel d r f (suc a) n hr hf (omega arith) (omega arith)) refl)

print_indices :
    (d : List MessagePtr) (r f : Option ℕ)
    → IsValid (queue d r f)
    → print (queue d r f) ≡ some (contents (queue d r f))
unfolding print empty
print_indices d none none v = refl
print_indices d none (some f) v = absurd v.in_range
print_indices d (some r) none v = absurd v.in_range
print_indices d (some r) (some f) v =
    let (hr, hf) = v.in_range in
    let start : f ≡ slot f 0 = omega arith in
    ap (print_loop max_slots d (some r)) start
    ∙ print_loop_lem max_slots d r f 0 ((r + max_slots - f) % max_slots) hr hf (omega arith)
        (omega arith)

-- print of a valid queue ends, and shows the messages of the queue from front to rear, each once.
pub print-contents : (p : Pqueue) → IsValid p → print p ≡ some (contents p)
print-contents p v = print_indices p.slots p.rear p.front v
