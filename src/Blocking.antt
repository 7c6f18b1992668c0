-- ===== src/Blocking.antt =====
-- server_handler_blocking of server-part1.c, with distributed_lock and handle_peer_message of
-- blocking_node.c, in the steps between which the threads of a server may interleave.
pub mod Quorum
pub mod Sent
pub mod Replicas
pub mod Completes
pub mod Follows
pub mod Grants
pub mod Tests
use cse511_lab.Prelude.{
  ℕ, ◌+◌, List, [], ◌∷◌, Option, none, some, ◌>>=◌, ◌≡◌, Bool, true, false, ◌==◌, if◌then◌else◌,
}
use cse511_lab.Prelude.Signed.{ℤ, pos, negsuc}
use cse511_lab.CString.{CString}
use cse511_lab.CString.Tokens.{strtok}
use cse511_lab.DataTypes.{MessagePtr}
use cse511_lab.BlockingNode.{
  Node, lock_begin, lock_replied, lock_held, broadcast_write, distributed_unlock,
}
use cse511_lab.BlockingNode.Handlers.{Requests, handle_peer_message}
use cse511_lab.ServerPart1.{Server, server_1_get_request, server_1_delete_request}
use cse511_lab.ServerPart1.Abd.{Surroundings, success}
use cse511_lab.ServerPart1.Handler.{
  Attempt, logged, starts_with, get_word, put_word, insert_word, delete_word, bad_boi, error_reply,
  ok_reply,
}
use cse511_lab.ServerPart1.Plain.{put_plain, insert_plain}

-- The requests of server-part1.c as handle_peer_message calls them; each reads its key.
unfoldable pub server_requests : Surroundings → Requests Server
unfolding put_plain insert_plain server_1_delete_request
server_requests o = record {
  insert_request = λ key value st. do
    k ← key
    (st', status) ← insert_plain o k value st
    some (st', pos status);
  put_request = λ key value st. do
    k ← key
    (st', response) ← put_plain o k value st
    some (st', pos 0);
  delete_request = λ key st. do
    k ← key
    st' ← server_1_delete_request k st
    some (st', pos 0);
}

-- The three writes, with their codes in `write_type_t`.
pub data Write : Type 0 where
  put insert delete : Write

abbrev pub write_code : Write → ℕ
write_code put = 1
write_code insert = 2
write_code delete = 3

-- a write with its tokens and the copy of its line
pub record WriteRequest : Type 0 where
  pub write : Write
  pub key : CString
  pub value : Option CString
  pub line : CString

-- the request of a write, and the bytes that its client is sent
unfoldable pub serve_write : Surroundings → WriteRequest → Server → Option (Server × List ℕ)
unfolding put_plain insert_plain server_1_delete_request
serve_write o r st = elim r.write [
  | put ↦ put_plain o r.key r.value st
  | insert ↦ do (st', status) ← insert_plain o r.key r.value st; some (st', ok_reply)
  | delete ↦ do st' ← server_1_delete_request r.key st; some (st', success)
]

-- What the handler does with a line: it sends an answer at once, or goes for the lock.
pub data Reaction : Type 0 where
  answer : List ℕ → Reaction
  write : WriteRequest → Reaction

-- `server_handler_blocking` on a line, up to the lock
unfoldable pub react : Surroundings → CString → Server → Option (Server × Reaction)
unfolding strtok starts_with server_1_get_request
react o line st = do
  let (command, rest1) = strtok line
  let (key, rest2) = strtok rest1
  let (value, _) = strtok rest2
  let go : Write → CString → Option (Server × Reaction) =
      λ w k. some (st, write (record { write = w; key = k; value = value; line = line }))
  elim command [
    | none ↦ some (st, answer bad_boi)
    | some c ↦ elim key [
      | none ↦ some (st, answer bad_boi)
      | some k ↦
          if starts_with get_word c
          then (do
            (st', response) ← server_1_get_request o.file_opens o.first_node k st
            some (st', answer response))
          else if starts_with put_word c
          then go put k
          else if starts_with insert_word c
          then go insert k
          else if starts_with delete_word c
          then go delete k
          else some (st, answer error_reply)
    ]
  ]

-- Where the thread of a write is: in front of distributed_lock, in its two loops, behind it, and behind
-- each of the calls up to the answer.
pub data Phase : Type 0 where
  starting : Phase
  waiting queued : MessagePtr → Phase
  holding logging : Phase
  served written released : List ℕ → Phase

pub record State : Type 0 where
  pub phase : Phase
  pub node : Node
  pub server : Server

-- a step of the thread of a write, or of the thread that listens to a peer
pub data Event : Type 0 where
  peer_message : MessagePtr → ℕ → Event
  call_lock : ℕ → Event
  see_quorum see_head write_log serve send_write unlock : Event

module _ (o : Surroundings) (attempts : List Attempt) (r : WriteRequest) where
  -- the thread of the write, at its next call or its next look at the queue; none where it does not
  -- go on
  unfoldable pub thread_step : Event → State → Option State
  unfolding lock_begin lock_replied lock_held logged serve_write broadcast_write distributed_unlock
  thread_step e s = elim s.phase [
    | starting ↦ elim e [
      | call_lock address ↦ do
        (node, msg, status) ← lock_begin address s.node
        some (record s {
          phase = elim status [ pos n ↦ waiting msg | negsuc n ↦ starting ];
          node = node;
        })
      | _ ↦ none
    ]
    | waiting msg ↦ elim e [
      | see_quorum ↦ do
        node ← lock_replied s.node
        some (record s { phase = queued msg; node = node })
      | _ ↦ none
    ]
    | queued msg ↦ elim e [
      | see_head ↦ if lock_held s.node msg then some (record s { phase = holding }) else none
      | _ ↦ none
    ]
    | holding ↦ elim e [
      | write_log ↦ do
        server ← logged attempts r.line s.server
        some (record s { phase = logging; server = server })
      | _ ↦ none
    ]
    | logging ↦ elim e [
      | serve ↦ do
        (server, response) ← serve_write o r s.server
        some (record s { phase = served response; server = server })
      | _ ↦ none
    ]
    | served response ↦ elim e [
      | send_write ↦ do
        node ← broadcast_write o.spare (some r.key) r.value (write_code r.write) s.node
        some (record s { phase = written response; node = node })
      | _ ↦ none
    ]
    | written response ↦ elim e [
      | unlock ↦ some (record s { phase = released response; node = distributed_unlock s.node })
      | _ ↦ none
    ]
    | released response ↦ none
  ]

  -- a step of either thread
  unfoldable pub step : Event → State → Option State
  unfolding thread_step handle_peer_message server_requests
  step e s = elim e [
    | peer_message message i ↦ do
      (node, server, status) ← handle_peer_message (server_requests o) message i s.node s.server
      some (record s { node = node; server = server })
    | e' ↦ thread_step e' s
  ]

  unfoldable pub run_events : List Event → State → Option State
  unfolding step
  run_events [] s = some s
  run_events (e ∷ es) s = do s' ← step e s; run_events es s'
