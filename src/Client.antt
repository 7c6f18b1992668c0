-- ===== src/Client.antt =====
-- client.c: the ABD protocol as a client runs it against its one server, without the sockets. A thread's
-- query and its answer are one step, and the semaphores are their counts. none is a crash or a loop
-- that does not end.
pub mod Lines
pub mod Replies
pub mod Ignored
mod Tests
use cse511_lab.Prelude.{
  ℕ, ◌+◌, ◌-◌, ◌/◌, List, [], ◌∷◌, ◌++◌, Option, none, some, ◌>>=◌, Bool, ltb, leb, ◌==◌,
  if◌then◌else◌, length, take,
}
use cse511_lab.CString.{CString, until_nul, print_int}
use cse511_lab.CString.Tokens.{strtok}
use cse511_lab.Abd.{Tag, abd_tag_cmp}
use cse511_lab.ServerPart1.Abd.{tagged_text}
use cse511_lab.ServerPart1.Handler.{atoi, get_word, put_word}

-- `abd_arg` without the number of the node; the value is none before it is written.
pub record AbdArg : Type 0 where
  pub key : CString
  pub value : Option CString
  pub tag : Tag

-- the counts of `rq_sem` and `wq_sem`
pub record Semaphores : Type 0 where
  pub rq_sem : ℕ
  pub wq_sem : ℕ

-- `CLIENT_ID`
abbrev pub client_id : ℕ
client_id = 10

-- `NUM_NODES/2 + 1`
abbrev pub quorum : ℕ
quorum = 1 / 2 + 1

-- `MAX_ENTRY_SIZE`
abbrev pub max_entry_size : ℕ
max_entry_size = 404

-- the array `cmd`, which strcat must not leave
unfoldable pub in_cmd : CString → Option CString
in_cmd s = if ltb (length s) max_entry_size then some s else none

-- `snprintf(…, MAX_ENTRY_SIZE + MAX_TAG_SIZE + 3, "%s %d %d\n", …)`
unfoldable pub print_tagged : CString → Tag → CString
print_tagged value tag = take (max_entry_size + 20 + 3 - 1) (tagged_text value tag)

-- what `send_abd_read_query` sends
unfoldable pub read_command : AbdArg → Option CString
unfolding in_cmd print_tagged
read_command arg = in_cmd (get_word ++ 32 ∷ (arg.key ++ 32 ∷ print_tagged (45 ∷ []) arg.tag))

-- what it makes of an answer: strtok_r starts again at the first token each time
unfoldable pub take_reply : List ℕ → AbdArg → Option AbdArg
unfolding until_nul strtok atoi abd_tag_cmp
take_reply buffer arg = do
  v ← (strtok (until_nul buffer)).0
  t ← (strtok v).0
  i ← (strtok v).0
  let tag : Tag = record { timestamp = atoi t; client_id = atoi i }
  some (record arg { value = some v; tag = if abd_tag_cmp tag arg.tag == 0 then arg.tag else tag })

-- `send_abd_read_query` behind its send, with the count of `rq_sem`; a closed socket answers nothing.
unfoldable pub send_abd_read_query : List ℕ → AbdArg → ℕ → Option (AbdArg × ℕ)
unfolding take_reply
send_abd_read_query [] arg rq_sem = some (arg, rq_sem)
send_abd_read_query (b ∷ bs) arg rq_sem = do arg' ← take_reply (b ∷ bs) arg; some (arg', rq_sem + 1)

-- the argument that `abd_read_query` starts its thread with
abbrev pub fresh_arg : CString → AbdArg
fresh_arg key = record {
  key = key;
  value = none;
  tag = record { timestamp = 0; client_id = client_id };
}

-- `abd_read_query`, with the answer of the server; `early` says that its loop reads the semaphore
-- before the answer is there.
unfoldable pub abd_read_query : Bool → List ℕ → CString → Semaphores → Option (AbdArg × Semaphores)
unfolding send_abd_read_query
abd_read_query early reply key s = do
  (arg, rq_sem) ←
      if early
      then some (fresh_arg key, s.rq_sem)
      else send_abd_read_query reply (fresh_arg key) s.rq_sem
  if ltb rq_sem quorum then none else some (arg, record s { rq_sem = rq_sem })

-- what `send_abd_write_query` sends
unfoldable pub write_command : CString → CString → Option CString
unfolding in_cmd
write_command key value = in_cmd (put_word ++ 32 ∷ (key ++ 32 ∷ value))

-- `abd_write_query`: what it sends, and the semaphores behind an answer
unfoldable pub abd_write_query : CString → CString → Semaphores → Option (CString × Semaphores)
unfolding write_command
abd_write_query key value s = do
  cmd ← write_command key value
  let s' = record s { wq_sem = s.wq_sem + 1 }
  if ltb s'.wq_sem quorum then none else some (cmd, s')

-- `abd_read`: the line of its write phase
unfoldable pub abd_read : Bool → List ℕ → CString → Semaphores → Option (CString × Semaphores)
unfolding abd_read_query print_tagged abd_write_query
abd_read early reply key s = do
  (htag, s') ← abd_read_query early reply key s
  v ← htag.value
  abd_write_query key (print_tagged v htag.tag) s'

-- `abd_write`, which does not read its timestamp
unfoldable pub abd_write : CString → CString → ℕ → Semaphores → Option (CString × Semaphores)
unfolding print_tagged abd_write_query
abd_write key value timestamp s =
    abd_write_query key (print_tagged value (record { timestamp = 0; client_id = client_id })) s
