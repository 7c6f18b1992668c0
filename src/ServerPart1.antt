-- ===== src/ServerPart1.antt =====
-- server-part1.c: the requests on the cache, c0, c1 and the journal, and c0_dump of c0.c. Each request
-- is one step here: the mutexes around its parts are left aside. `none` is a crash, such as strcpy
-- from NULL. Keys and values are not NULL, and the buffers of the answers are large enough.
mod Requests
mod Lost
mod Dumps
pub mod Abd
pub mod Tagged
pub mod Handler
pub mod Lines
pub mod Plain
pub mod Recover
pub mod Replay
pub mod Tests
pub mod AbdTests
mod RecoverTests
mod DumpTests
use cse511_lab.Prelude.{
  ℕ, List, [], ◌∷◌, Option, none, some, ◌>>=◌, Bool, true, false, ◌==◌, if◌then◌else◌, replicate,
}
use cse511_lab.Prelude.Signed.{ℤ, pos, negsuc}
use cse511_lab.CString.{CString}
use cse511_lab.C0Tree.{Entry, Tree, null, node, insert, get, update, size, dump_to_array}
use cse511_lab.C1Disk.Store.{Store, Opens, c1_batch_insert, c1_get}
use cse511_lab.Journal.{JournalState, flush_log}
use cse511_lab.Cache.{Cache, cache_get, cache_put, cache_invalidate}

-- `_T`, the cache, the files of c1 and the journal
pub record Server : Type 0 where
  pub tree : Tree
  pub cache : Cache
  pub store : Store
  pub journal : JournalState

-- `MAX_C0_SIZE`
abbrev pub max_c0_size : ℕ
max_c0_size = 100

-- what a slot of `nodes` holds before it is written
abbrev pub blank : Entry
blank = record { key = []; value = []; flag = 0 }

-- `c0_dump`, which flushes the journal where c1_batch_insert returns 0
unfoldable pub c0_dump : Opens → Tree → Server → Option Server
unfolding size dump_to_array c1_batch_insert flush_log
c0_dump o t st = if size t == 0 then some st else (do
  (store, status) ← c1_batch_insert o (dump_to_array t (replicate (size t) blank) 0).0 st.store
  some (elim status [
    | pos n ↦ record st { store = store; journal = (flush_log st.journal).0 }
    | negsuc n ↦ record st { store = store }
  ]))

-- `_T = Insert(…)`, and the dump of a full tree
unfoldable pub insert_c0 : Opens → Entry → Server → Option Server
unfolding insert size c0_dump
insert_c0 o x st = do
  t ← insert st.tree x
  if size t == max_c0_size
      then c0_dump o t (record st { tree = null })
      else some (record st { tree = t })

-- `my_timer_handler`: the tree is dumped and emptied.
unfoldable pub my_timer_handler : Opens → Server → Option Server
unfolding c0_dump
my_timer_handler o st = c0_dump o st.tree (record st { tree = null })

-- `cache_put(key, value)` with the address of a new node
unfoldable pub put_in_cache : ℕ → CString → CString → Server → Option Server
unfolding cache_put
put_in_cache new key value st = do
  c ← cache_put new key (some value) st.cache
  some (record st { cache = c })

-- The value that `server_1_get_request` finds behind a miss: that of Get, else that of c1_get, where
-- the file of c1 opens.
unfoldable pub stored_value : Bool → CString → Server → Option CString
unfolding get c1_get
stored_value opens key st = elim (get st.tree key) [
  | some e ↦ some e.value
  | none ↦ c1_get opens key st.store >>= λ v. v
]

-- `server_1_get_request`: the server and the answer
unfoldable pub server_1_get_request : Bool → ℕ → CString → Server → Option (Server × CString)
unfolding cache_get stored_value put_in_cache
server_1_get_request opens new key st = do
  (c, lookup) ← cache_get key st.cache
  elim lookup [
    | some a ↦ do value ← (c.heap a).defn; some (record st { cache = c }, value)
    | none ↦ do
      value ← stored_value opens key (record st { cache = c })
      st' ← put_in_cache new key value (record st { cache = c })
      some (st', value)
  ]

-- the part of `server_1_put_request` under `c0_mutex`
unfoldable pub put_c0 : Opens → CString → CString → Server → Option Server
unfolding get update insert_c0
put_c0 o key value st = elim (get st.tree key) [
  | some e ↦ some (record st { tree = (update st.tree key value 0).0 })
  | none ↦ insert_c0 o (record { key = key; value = value; flag = 0 }) st
]

-- `server_1_put_request`, which answers SUCCESS
unfoldable pub server_1_put_request : Opens → ℕ → CString → CString → Server → Option Server
unfolding put_c0 put_in_cache
server_1_put_request o new key value st = do
  st' ← put_c0 o key value st
  put_in_cache new key value st'

-- `server_1_insert_request`: 0 with SUCCESS, or 1 with DUPLICATE
unfoldable pub server_1_insert_request :
    Opens → ℕ → CString → CString → Server → Option (Server × ℕ)
unfolding cache_get get insert_c0 put_in_cache
server_1_insert_request o new key value st = do
  (c, lookup) ← cache_get key st.cache
  elim lookup [
    | some a ↦ some (record st { cache = c }, 1)
    | none ↦ elim (get st.tree key) [
      | some e ↦ some (record st { cache = c }, 1)
      | none ↦ do
        st' ← insert_c0 o (record { key = key; value = value; flag = 0 }) (record st { cache = c })
        st'' ← put_in_cache new key value st'
        some (st'', 0)
    ]
  ]

-- "invalid_delete"
abbrev pub invalid_delete : CString
invalid_delete =
    105 ∷ 110 ∷ 118 ∷ 97 ∷ 108 ∷ 105 ∷ 100 ∷ 95 ∷ 100 ∷ 101 ∷ 108 ∷ 101 ∷ 116 ∷ 101 ∷ []

-- The tree behind `server_1_delete_request`: what Update returns, or with an invalid entry.
unfoldable pub delete_c0 : CString → Tree → Option Tree
unfolding get update insert
delete_c0 key t = elim (get t key) [
  | some e ↦ some (update t e.key e.value 1).1
  | none ↦ insert t (record { key = key; value = invalid_delete; flag = 1 })
]

-- `server_1_delete_request`
unfoldable pub server_1_delete_request : CString → Server → Option Server
unfolding delete_c0 cache_invalidate
server_1_delete_request key st = do
  t ← delete_c0 key st.tree
  c ← cache_invalidate key st.cache
  some (record st { tree = t; cache = c })
