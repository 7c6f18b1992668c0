-- ===== src/ServerPart1/Plain.antt =====
-- The requests of server-part1.c on what strtok_r returns, NULL included, as recover and
-- server_handler_blocking call them.
use cse511_lab.Prelude.{ℕ, Option, none, some, ◌>>=◌, if◌then◌else◌}
use cse511_lab.CString.{CString}
use cse511_lab.C0Tree.{get}
use cse511_lab.Cache.{cache_get}
use cse511_lab.ServerPart1.{
  Server, server_1_get_request, server_1_put_request, server_1_insert_request,
  server_1_delete_request,
}
use cse511_lab.ServerPart1.Abd.{Surroundings, insert_answer, success}
use cse511_lab.ServerPart1.Handler.{starts_with, get_word, put_word, insert_word, delete_word}

-- `server_1_put_request` on a value that may be NULL: strlen of it is a crash where the key is new; and a
-- NULL in the entry of a key, which Update puts there, is none too, since an entry here has a value.
unfoldable pub put_plain :
    Surroundings → CString → Option CString → Server → Option (Server × CString)
unfolding server_1_put_request
put_plain o key value st = do
  v ← value
  st' ← server_1_put_request o.opens o.second_node key v st
  some (st', success)

-- `server_1_insert_request` on NULL, which answers a duplicate key only
unfoldable pub insert_null : CString → Server → Option (Server × ℕ)
unfolding cache_get get
insert_null key st = do
  (c, lookup) ← cache_get key st.cache
  elim lookup [
    | some a ↦ some (record st { cache = c }, 1)
    | none ↦ elim (get st.tree key) [ none ↦ none | some e ↦ some (record st { cache = c }, 1) ]
  ]

unfoldable pub insert_plain : Surroundings → CString → Option CString → Server → Option (Server × ℕ)
unfolding server_1_insert_request insert_null
insert_plain o key value st = elim value [
  | none ↦ insert_null key st
  | some v ↦ server_1_insert_request o.opens o.second_node key v st
]

-- The branches of the tests of the command: the server and the response, or none of these commands.
unfoldable pub serve_plain :
    Surroundings → CString → CString → Option CString → Server → Option (Server × Option CString)
unfolding starts_with server_1_get_request put_plain insert_plain server_1_delete_request
serve_plain o command key value st =
    if starts_with get_word command
    then (do
      (st', response) ← server_1_get_request o.file_opens o.first_node key st
      some (st', some response))
    else if starts_with put_word command
    then (do (st', response) ← put_plain o key value st; some (st', some response))
    else if starts_with insert_word command
    then (do (st', status) ← insert_plain o key value st; some (st', some (insert_answer status)))
    else if starts_with delete_word command
    then (do st' ← server_1_delete_request key st; some (st', some success))
    else some (st, none)
