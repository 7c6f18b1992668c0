-- ===== src/Cache.antt =====
-- cache.c and cache.h: the cache, a doubly linked list of nodes on a heap, most recent first. `none`
-- is a read or a write through NULL, or a walk that the fuel does not last for.
mod Walk
mod Links
mod Moves
pub mod Lru
pub mod Gets
pub mod Puts
pub mod Evict
pub mod Steps
mod Front
pub mod Recall
mod Tests
use Prim.Native.Nat.Ordering.{lt, eq, gt}
use cse511_lab.Prelude.{
  ℕ, zero, suc, ◌+◌, ◌-◌, Option, none, some, Bool, true, false, ltb, ◌==◌, if◌then◌else◌, ◌>>=◌,
}
use cse511_lab.CString.{CString, strcmp}

-- `CACHE_SIZE`
abbrev pub cache_size : ℕ
cache_size = 101

-- `struct node`; none is NULL.
pub record CacheNode : Type 0 where
  pub name : Option CString
  pub defn : Option CString
  pub next : Option ℕ
  pub prev : Option ℕ

-- the heap, `head`, `tail` and `global_cache_count`
pub record Cache : Type 0 where
  pub heap : ℕ → CacheNode
  pub head : Option ℕ
  pub tail : Option ℕ
  pub count : ℕ

abbrev pub same_address : Option ℕ → ℕ → Bool
same_address none a = false
same_address (some b) a = b == a

-- the node at an address gets these fields
abbrev pub write_node : ℕ → CacheNode → Cache → Cache
write_node a n c = record c { heap = λ b. if b == a then n else c.heap b }

abbrev pub set_next : ℕ → Option ℕ → Cache → Cache
set_next a p c = write_node a (record (c.heap a) { next = p }) c

abbrev pub set_prev : ℕ → Option ℕ → Cache → Cache
set_prev a p c = write_node a (record (c.heap a) { prev = p }) c

-- the names that are equal as strings; the test of the lengths before strcmp changes nothing
abbrev pub same_name : Option CString → CString → Bool
same_name none s = false
same_name (some name) s = elim (strcmp name s) [ eq ↦ true | _ ↦ false ]

-- The `while` of `cache_get` from `iterator` on, without what it does to a node that it finds: the
-- address of that node, or none for NULL. A node without a name ends the walk.
unfoldable pub walk : ℕ → (ℕ → CacheNode) → CString → Option ℕ → Option (Option ℕ)
walk zero heap s iterator = none
walk (suc fuel) heap s none = some none
walk (suc fuel) heap s (some a) = elim (heap a).name [
  | none ↦ some none
  | some name ↦ elim (same_name (some name) s) [
    | true ↦ some (some a)
    | false ↦ walk fuel heap s (heap a).next
  ]
]

-- `if (iterator == tail) … else …`, where `temporary` is the node before
unfoldable pub unlink_behind : ℕ → ℕ → Cache → Option Cache
unlink_behind a temporary c =
    if same_address c.tail a
    then some (record (set_next temporary none c) { tail = some temporary })
    else (do
      next ← (c.heap a).next
      some (set_prev next (some temporary) (set_next temporary (some next) c)))

-- the node is taken out of its place behind the head
unfoldable pub unlink : ℕ → Cache → Option Cache
unfolding unlink_behind
unlink a c = do temporary ← (c.heap a).prev; unlink_behind a temporary c

-- `if (iterator != head) …`
unfoldable pub move_to_front : ℕ → Cache → Option Cache
unfolding unlink
move_to_front a c = if same_address c.head a then some c else (do
  c' ← unlink a c
  head ← c'.head
  some (record (set_prev a none (set_next a (some head) (set_prev head (some a) c'))) {
    head = some a;
  }))

-- `cache_get`: the cache, and the head where the key is found. The walk has fuel for as many nodes as
-- the cache counts.
unfoldable pub cache_get : CString → Cache → Option (Cache × Option ℕ)
unfolding walk move_to_front
cache_get s c = do
  found ← walk (c.count + 1) c.heap s c.head
  elim found [ none ↦ some (c, none) | some a ↦ do c' ← move_to_front a c; some (c', c'.head) ]

-- `if (head == NULL) … else …`, for a new node at an address
unfoldable pub push_front : ℕ → CString → Option CString → Cache → Cache
push_front a name defn c = elim c.head [
  | none ↦
      record (write_node a (record { name = some name; defn = defn; next = none; prev = none }) c) {
        head = some a;
        tail = some a;
      }
  | some head ↦
      record (write_node a (record { name = some name; defn = defn; next = some head; prev = none })
        (set_prev head (some a) c)) { head = some a }
]

-- `if (global_cache_count >= CACHE_SIZE) … else …`
unfoldable pub evict_or_count : Cache → Option Cache
evict_or_count c = if ltb c.count cache_size then some (record c { count = c.count + 1 }) else (do
  tail ← c.tail
  before ← (c.heap tail).prev
  some (record (set_next before none c) { tail = some before }))

-- `cache_put`, with the address of a node that malloc may return
unfoldable pub cache_put : ℕ → CString → Option CString → Cache → Option Cache
unfolding cache_get push_front evict_or_count
cache_put new name defn c = do
  (c', entry) ← cache_get name c
  elim entry [
    | none ↦ evict_or_count (push_front new name defn c')
    | some a ↦ some (write_node a (record (c'.heap a) { defn = defn }) c')
  ]

-- the head is taken off the list; `tail` stays as it is
unfoldable pub drop_head : ℕ → Cache → Cache
drop_head head c = elim (c.heap head).next [
  | none ↦ record c { head = none; count = c.count - 1 }
  | some next ↦ record (set_prev next none c) { head = some next; count = c.count - 1 }
]

-- `cache_invalidate`
unfoldable pub cache_invalidate : CString → Cache → Option Cache
unfolding cache_get drop_head
cache_invalidate key c = do
  (c', entry) ← cache_get key c
  elim entry [ none ↦ some c' | some a ↦ some (drop_head a c') ]
