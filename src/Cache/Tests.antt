-- ===== src/Cache/Tests.antt =====
-- Instances of the theorem about cache.c, and tests.
use cse511_lab.Prelude.{ℕ, zero, suc, [], ◌∷◌, Option, none, some, ◌≡◌, refl, ◌>>=◌, arith}
use cse511_lab.CString.{strcmp}
use cse511_lab.Cache.{CacheNode, Cache, cache_get, cache_put, cache_invalidate}
use cse511_lab.Cache.{push_front}
use cse511_lab.Cache.Recall.{cache_get-cache_put}
use cse511_lab.Cache.Front.{SameTexts}
use cse511_lab.Cache.Gets.{Got, cache_get_lem}
use cse511_lab.Cache.Lru.{IsLru}
use cse511_lab.Cache.Steps.{Put, cache_put_lem, without, cache_invalidate_lem}
use cse511_lab.Cache.Walk.{first_named}

-- a cell whose name and value are one byte each
abbrev cell : ℕ → Option ℕ → Option ℕ → CacheNode
cell k next prev = record { name = some (k ∷ []); defn = some (k ∷ []); next = next; prev = prev }

-- the keys a and b at the addresses 0 and 1, and c, which is not linked yet
abbrev cells : ℕ → CacheNode
cells zero = cell 97 (some 1) none
cells (suc zero) = cell 98 none (some 0)
cells (suc (suc n)) = cell 99 none none

abbrev two : Cache
two = record { heap = cells; head = some 0; tail = some 1; count = 2 }

IsLru-two : IsLru two (0 ∷ 1 ∷ [])
IsLru-two = record {
  head = refl;
  tail = refl;
  links = (refl, refl, (refl, refl, tt));
  distinct = ((omega arith, tt), (tt, tt));
  named = ((97 ∷ [], refl), ((98 ∷ [], refl), tt));
  count = refl;
  fits = omega arith;
}

cache_get_lem_example : Got (98 ∷ []) two (0 ∷ 1 ∷ [])
cache_get_lem_example = cache_get_lem two (0 ∷ 1 ∷ []) (98 ∷ []) IsLru-two

cache_put_lem_example : Put 2 (99 ∷ []) none two (0 ∷ 1 ∷ [])
cache_put_lem_example =
    cache_put_lem two (0 ∷ 1 ∷ []) 2 (99 ∷ []) none IsLru-two (omega arith, (omega arith, tt))

cache_invalidate_lem_example :
    (c : Cache) × (cache_invalidate (97 ∷ []) two ≡ some c)
    × IsLru c (without (first_named two.heap (97 ∷ []) (0 ∷ 1 ∷ [])) (0 ∷ 1 ∷ []))
    × SameTexts two.heap c.heap
cache_invalidate_lem_example = cache_invalidate_lem two (0 ∷ 1 ∷ []) (97 ∷ []) IsLru-two

-- what a test sees of a cache: its ends, its count, and the links of two nodes
abbrev ends : Cache → Option ℕ × Option ℕ × ℕ × Option ℕ × Option ℕ
ends c = (c.head, c.tail, c.count, (c.heap 0).next, (c.heap 1).next)

-- a hit at the tail moves that node to the front
hit_at_tail :
    (cache_get (98 ∷ []) two >>= λ (c, found). some (ends c))
    ≡ some (some 1, some 0, 2, none, some 0)
unfolding cache_get strcmp
hit_at_tail = refl

invalidate_tail :
    (cache_invalidate (98 ∷ []) two >>= λ c. some (ends c)) ≡ some (some 0, some 0, 1, none, some 0)
unfolding cache_invalidate strcmp
invalidate_tail = refl

put_new :
    (cache_put 2 (99 ∷ []) none two >>= λ c. some (ends c)) ≡ some (some 2, some 1, 3, some 1, none)
unfolding cache_put strcmp
put_new = refl

-- the cache behind a put of a new key
abbrev three : Cache
three = record (push_front 2 (99 ∷ []) none two) { count = 3 }

put_three : cache_put 2 (99 ∷ []) none two ≡ some three
unfolding cache_put strcmp
put_three = refl

cache_get-cache_put_example :
    (a : ℕ) × (cache_get (99 ∷ []) three ≡ some (three, some a)) × ((three.heap a).defn ≡ none)
cache_get-cache_put_example = cache_get-cache_put 2 (99 ∷ []) none two three put_three
