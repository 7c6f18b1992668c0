-- ===== src/ServerPart1/Abd.antt =====
-- The requests of the ABD protocol in server-part1.c, on the requests of ServerPart1.
use cse511_lab.Prelude.{ℕ, ◌-◌, [], ◌∷◌, ◌++◌, Option, some, ◌>>=◌, Bool, ◌==◌, if◌then◌else◌, take}
use cse511_lab.CString.{CString, scan_word, scan_uint32, print_uint32}
use cse511_lab.Abd.{Tag, abd_tag_cmp}
use cse511_lab.C1Disk.Store.{Opens}
use cse511_lab.ServerPart1.{
  Server, server_1_get_request, server_1_put_request, server_1_insert_request,
  server_1_delete_request,
}

-- Which files open, the addresses that malloc returns for the nodes of the cache, and whether calloc leaves
-- a zero byte behind a block of so many.
pub record Surroundings : Type 0 where
  pub opens : Opens
  pub file_opens : Bool
  pub first_node : ℕ
  pub second_node : ℕ
  pub spare : ℕ → Bool

-- "SUCCESS"
abbrev pub success : CString
success = 83 ∷ 85 ∷ 67 ∷ 67 ∷ 69 ∷ 83 ∷ 83 ∷ []

-- "DUPLICATE"
abbrev pub duplicate : CString
duplicate = 68 ∷ 85 ∷ 80 ∷ 76 ∷ 73 ∷ 67 ∷ 65 ∷ 84 ∷ 69 ∷ []

-- `sscanf(search_buffer, "%s %d %d", value, …)`: what it writes to `value`, and the tag. Where it does
-- not set all three, the code compares with an unset tag, and a number that does not fit into an int is
-- undefined: none.
unfoldable pub scan_tagged : CString → Option (CString × Tag)
unfolding scan_word scan_uint32
scan_tagged s = do
  (value, t) ← scan_word s
  (timestamp, u) ← scan_uint32 t
  (client_id, _) ← scan_uint32 u
  some (value, record { timestamp = timestamp; client_id = client_id })

-- `MAX_VALUE_SIZE + MAX_TAG_SIZE + 3`
abbrev pub tagged_size : ℕ
tagged_size = 279

abbrev pub tagged_text : CString → Tag → CString
tagged_text value tag =
    value ++ 32 ∷ (print_uint32 tag.timestamp ++ 32 ∷ (print_uint32 tag.client_id ++ 10 ∷ []))

-- `snprintf(new_value, …, "%s %d %d\n", value, tag->timestamp, tag->client_id)`
unfoldable pub tagged_value : CString → Tag → CString
tagged_value value tag = take (tagged_size - 1) (tagged_text value tag)

-- the answer that `server_1_insert_request` writes with its status
abbrev pub insert_answer : ℕ → CString
insert_answer status = if status == 0 then success else duplicate

-- `server_1_put_request_abd`: the server and the response. sscanf writes the old value over the argument,
-- and that is what the new tag is stored with.
unfoldable pub server_1_put_request_abd :
    Surroundings → CString → CString → Tag → Server → Option (Server × CString)
unfolding server_1_get_request server_1_put_request scan_tagged tagged_value abd_tag_cmp
server_1_put_request_abd o key value tag st = do
  (st', search_buffer) ← server_1_get_request o.file_opens o.first_node key st
  (value', search_tag) ← scan_tagged search_buffer
  if abd_tag_cmp tag search_tag == 1
      then (do
        st'' ← server_1_put_request o.opens o.second_node key (tagged_value value' tag) st'
        some (st'', success))
      else some (st', search_buffer)

-- `server_1_insert_request_abd`
unfoldable pub server_1_insert_request_abd :
    Surroundings → CString → CString → Tag → Server → Option (Server × CString)
unfolding server_1_get_request server_1_insert_request scan_tagged tagged_value abd_tag_cmp
server_1_insert_request_abd o key value tag st = do
  (st', search_buffer) ← server_1_get_request o.file_opens o.first_node key st
  (value', search_tag) ← scan_tagged search_buffer
  if abd_tag_cmp tag search_tag == 1
      then (do
        (st'', status) ←
            server_1_insert_request o.opens o.second_node key (tagged_value value' tag) st'
        some (st'', insert_answer status))
      else some (st', search_buffer)

-- `server_1_delete_request_abd`, where `unset` is what stands in `search_tag`, which nothing sets
unfoldable pub server_1_delete_request_abd :
    Surroundings → Tag → CString → Tag → Server → Option (Server × CString)
unfolding server_1_get_request server_1_delete_request abd_tag_cmp
server_1_delete_request_abd o unset key tag st = do
  (st', search_buffer) ← server_1_get_request o.file_opens o.first_node key st
  if abd_tag_cmp tag unset == 1
      then (do st'' ← server_1_delete_request key st'; some (st'', success))
      else some (st', search_buffer)
