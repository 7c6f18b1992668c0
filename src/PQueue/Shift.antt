-- ===== src/PQueue/Shift.antt =====
-- The loop of `enqueue` in pqueue.c, its fuel and the slots that it moves.
use cse511_lab.Prelude.{
  ℕ, zero, suc, ◌+◌, ◌-◌, ◌%◌, ◌≤◌, ◌<◌, List, [], ◌∷◌, ◌++◌, Option, some, ◌≡◌, ◌≢◌, refl, ap, ap₂,
  ◌∙◌, set, get_or, length, length-set, append_assoc, arith, true, false, Bool-cases, inl, inr,
}
use native.Mathlib.Nat.{zero-add}
use cse511_lab.DataTypes.{MessagePtr}
use cse511_lab.PQueue.{max_slots, no_message, before, is_front, shift}
use cse511_lab.PQueue.Sorted.{
  insert, IsSorted, insert-snoc, insert_last, IsSorted-init, not_before-All,
}
use cse511_lab.PQueue.Span.{
  slot, item, span, span-set, span-add, span-suc, span-snoc_front, item-set_self,
}

-- What the loop has done when it stops, with `j` messages on its left and `k` behind the free slot.
pub record Shifted (x : MessagePtr) (d : List MessagePtr) (f j k : ℕ)
    (r : Option (List MessagePtr × ℕ)) : Type 0 where
  pub array : List MessagePtr
  pub index : ℕ
  pub stops : r ≡ some (array, index)
  pub length_kept : length array ≡ max_slots
  pub placed :
      span (set array ((index + 1) % max_slots) x) f 0 (suc (j + k))
      ≡ insert x (span d f 0 j) ++ span d f (suc j) k

module _ (x : MessagePtr) (d : List MessagePtr) (f j k : ℕ) (len : length d ≡ max_slots)
    (hf : f < max_slots) (room : suc (j + k) < max_slots) where
  -- the array after one round
  abbrev moved : List MessagePtr
  moved = set d (slot f (suc j)) (item d f j)

  -- writing x into the free slot puts it between the two stretches
  span-set_free :
      span (set d (slot f (suc j)) x) f 0 (suc (suc j + k))
      ≡ span d f 0 (suc j) ++ x ∷ span d f (suc (suc j)) k
  span-set_free =
      let e : List MessagePtr = set d (slot f (suc j)) x in
      let count : suc (suc j + k) ≡ suc j + suc k = omega arith in
      let left : span e f 0 (suc j) ≡ span d f 0 (suc j) =
        span-set d f (suc j) x 0 (suc j) hf (omega arith) (omega arith) (omega arith) in
      let right : span e f (suc (suc j)) k ≡ span d f (suc (suc j)) k =
        span-set d f (suc j) x (suc (suc j)) k hf (omega arith) (omega arith) (omega arith) in
      let here : item e f (suc j) ≡ x = item-set_self d f (suc j) x len in
      rw (count, span-add e f 0 (suc j) (suc k), zero-add, span-suc e f (suc j) k, left, right)
        (ap (λ y. span d f 0 (suc j) ++ y ∷ span d f (suc (suc j)) k) here)

  length-moved : length moved ≡ max_slots
  length-moved = length-set d (slot f (suc j)) (item d f j) ∙ len

  span-moved_left : (n : ℕ) → n ≤ suc j → span moved f 0 n ≡ span d f 0 n
  span-moved_left n h =
      span-set d f (suc j) (item d f j) 0 n hf (omega arith) (omega arith) (omega arith)

  span-moved_right : span moved f (suc j) (suc k) ≡ item d f j ∷ span d f (suc (suc j)) k
  span-moved_right = rw span-suc (
      ap₂ ◌∷◌ (item-set_self d f (suc j) (item d f j) len) (
        span-set d f (suc j) (item d f j) (suc (suc j)) k hf (omega arith) (omega arith)
          (omega arith)))

  -- x stays behind the last message on its left
  stop_here :
      before x (item d f j) ≡ false
      → IsSorted (span d f 0 (suc j))
      → span (set d (slot f (suc j)) x) f 0 (suc (suc j + k))
        ≡ insert x (span d f 0 (suc j)) ++ span d f (suc (suc j)) k
  stop_here e s =
      let split : span d f 0 (suc j) ≡ span d f 0 j ++ item d f j ∷ [] = span-snoc_front d f j in
      let s' : IsSorted (span d f 0 j ++ item d f j ∷ []) = rw split at s in
      let last : insert x (span d f 0 (suc j)) ≡ span d f 0 (suc j) ++ x ∷ [] =
        rw split (insert_last x _ (not_before-All x (item d f j) (span d f 0 j) e s')) in
      rw (span-set_free, last, append_assoc)

  -- x goes past that message
  pass_one :
      before x (item d f j) ≡ true
      → insert x (span moved f 0 j) ++ span moved f (suc j) (suc k)
        ≡ insert x (span d f 0 (suc j)) ++ span d f (suc (suc j)) k
  pass_one e = rw (
    span-moved_left j (omega arith),
    span-moved_right,
    span-snoc_front d f j,
    insert-snoc x (item d f j) (span d f 0 j) e,
    append_assoc,
  )

  -- one round's array, as the code computes it
  moved_lem : (i : ℕ) → i ≡ slot f j → set d ((i + 1) % max_slots) (get_or d i no_message) ≡ moved
  moved_lem i e = ap₂ (λ a b. set d a (get_or d b no_message)) (omega arith) e

  stop_Shifted :
      (i : ℕ)
      → i ≡ slot f j
      → before x (item d f j) ≡ false
      → IsSorted (span d f 0 (suc j))
      → Shifted x d f (suc j) k (some (d, i))
  stop_Shifted i e b s =
      let free : (i + 1) % max_slots ≡ slot f (suc j) = omega arith in
      record {
        array = d;
        index = i;
        stops = refl;
        length_kept = len;
        placed = rw free (stop_here b s);
      }

  -- what a later stop says of the moved array, it says of this one
  pass_Shifted :
      (r : Option (List MessagePtr × ℕ))
      → before x (item d f j) ≡ true
      → Shifted x moved f j (suc k) r
      → Shifted x d f (suc j) k r
  pass_Shifted r b h =
      let count : suc (suc j + k) ≡ suc (j + suc k) = omega arith in
      record {
        array = h.array;
        index = h.index;
        stops = h.stops;
        length_kept = h.length_kept;
        placed = rw count (h.placed ∙ pass_one b);
      }

-- with nothing left of the free slot, the loop breaks
front_Shifted :
    (x : MessagePtr) (d : List MessagePtr) (f k i : ℕ)
    → length d ≡ max_slots
    → f < max_slots
    → suc k ≤ max_slots
    → (i + 1) % max_slots ≡ f
    → Shifted x d f 0 k (some (d, i))
unfolding insert
front_Shifted x d f k i len hf room e =
    let here : item (set d (slot f 0) x) f 0 ≡ x = item-set_self d f 0 x len in
    let right : span (set d (slot f 0) x) f 1 k ≡ span d f 1 k =
      span-set d f 0 x 1 k hf (omega arith) (omega arith) (omega arith) in
    let free : (i + 1) % max_slots ≡ slot f 0 = omega arith in
    record {
      array = d;
      index = i;
      stops = refl;
      length_kept = len;
      placed = rw (free, zero-add, span-suc, right, here) (unfold span in refl);
    }

pub at_front_lem : (a f : ℕ) → a ≡ f → is_front a (some f) ≡ true
at_front_lem a f e = ground arith

pub not_at_front_lem : (a f : ℕ) → a ≢ f → is_front a (some f) ≡ false
not_at_front_lem a f e = ground arith

-- The loop, entered with a message on the left of the free slot.
pub shift_lem :
    (x : MessagePtr) (fuel : ℕ) (d : List MessagePtr) (f j k i : ℕ)
    → length d ≡ max_slots
    → f < max_slots
    → suc (j + k) < max_slots
    → j < fuel
    → i ≡ slot f j
    → IsSorted (span d f 0 (suc j))
    → Shifted x d f (suc j) k (shift fuel x (some f) d i)
unfolding shift
shift_lem x zero d f j k i len hf room enough e s = absurd (omega arith)
shift_lem x (suc fuel) d f zero k i len hf room enough e s =
    elim (Bool-cases (before x (get_or d i no_message))) [
      | inl b ↦
          let i' : ℕ = (i + max_slots - 1) % max_slots in
          rw
            (
              b,
              at_front_lem ((i' + 1) % max_slots) f (omega arith),
              moved_lem x d f zero k len hf room i e,
            )
            (pass_Shifted x d f zero k len hf room _ (rw e at b) (
              front_Shifted x (moved x d f zero k len hf room) f (suc k) i'
                (length-moved x d f zero k len hf room) hf (omega arith) (omega arith)))
      | inr b ↦ rw b (stop_Shifted x d f zero k len hf room i e (rw e at b) s)
    ]
shift_lem x (suc fuel) d f (suc j) k i len hf room enough e s =
    elim (Bool-cases (before x (get_or d i no_message))) [
      | inl b ↦
          let i' : ℕ = (i + max_slots - 1) % max_slots in
          let init : IsSorted (span d f 0 (suc j)) =
            IsSorted-init (item d f (suc j)) _ (rw (span-snoc_front d f (suc j)) at s) in
          rw
            (
              b,
              not_at_front_lem ((i' + 1) % max_slots) f (omega arith),
              moved_lem x d f (suc j) k len hf room i e,
            )
            (pass_Shifted x d f (suc j) k len hf room _ (rw e at b) (
              shift_lem x fuel (moved x d f (suc j) k len hf room) f j (suc k) i'
                (length-moved x d f (suc j) k len hf room) hf (omega arith) (omega arith)
                (omega arith)
                (rw (span-moved_left x d f (suc j) k len hf room (suc j) (omega arith)) init)))
      | inr b ↦ rw b (stop_Shifted x d f (suc j) k len hf room i e (rw e at b) s)
    ]
