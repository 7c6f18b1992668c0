-- ===== src/BlockingNode/Tests.antt =====
-- Instances of the theorems about blocking_node.c, and tests.
use mathlib.Core.List.{head?}
use cse511_lab.Prelude.{
  ℕ, suc, ◌≤◌, [], none, some, ◌≡◌, ◌⊎◌, refl, false, arith, replicate, set, to_bytes, ◌++◌, ◌∷◌,
  List,
}
use cse511_lab.Prelude.Signed.{pos}
use cse511_lab.DataTypes.{MessagePtr, PeerMessage, MessageType, request_lock, server_write}
use cse511_lab.PQueue.{Pqueue, max_slots, no_message, peek}
use cse511_lab.PQueue.Sorted.{IsSorted}
use cse511_lab.PQueue.Span.{span}
use cse511_lab.PQueue.Refine.{IsValid, contents}
use cse511_lab.BlockingNode.{Node, max_peers, empty_peer, connected}
use cse511_lab.BlockingNode.Handlers.{Requests, handle_peer_message}
use cse511_lab.BlockingNode.Wire.{marshall_pm, type_code}
use cse511_lab.CString.Tokens.{IsToken}
use cse511_lab.BlockingNode.Clock.{handle_peer_message-timestamp}
use cse511_lab.BlockingNode.Writes.{server_write-head}

abbrev message : MessageType → ℕ → ℕ → PeerMessage
message type time id = record {
  message_type = type;
  timestamp = time;
  node_id = id;
  key = none;
  value = none;
  write_type = 2;
}

-- the request of node 1, in a queue of its own
abbrev held : MessagePtr
held = record { address = 1; target = message request_lock 3 1 }

abbrev queue : Pqueue
queue = record {
  slots = set (replicate max_slots no_message) 0 held;
  rear = some 0;
  front = some 0;
}

queue-IsValid : IsValid queue
unfolding IsSorted span
queue-IsValid = record { array = refl; in_range = (omega arith, omega arith); sorted = (tt, tt) }

-- node 0 with one peer, node 1
abbrev node : Node
node = record {
  peers = set (replicate max_peers empty_peer) 0 (connected 5 (some 1));
  requests = replicate max_peers (record { requested_lock = false; timestamp_last_req = 0 });
  lock_queue = queue;
  timestamp = 4;
  node_id = 0;
  replies_received = 0;
  sent = [];
}

-- a server that counts the writes
abbrev counter : Requests ℕ
counter = record {
  insert_request = λ key value s. some (suc s, pos 0);
  put_request = λ key value s. some (suc s, pos 0);
  delete_request = λ key s. some (suc s, pos 0);
}

-- a write of node 2, which does not hold the lock
abbrev write_two : MessagePtr
write_two = record { address = 2; target = message server_write 9 2 }

write_two_ignored :
    handle_peer_message counter write_two 0 node 0 ≡ some (record node { timestamp = 9 }, 0, pos 0)
unfolding handle_peer_message peek
write_two_ignored = refl

handle_peer_message-timestamp_example : (4 ≤ 9) × (9 ≤ 9)
handle_peer_message-timestamp_example =
    handle_peer_message-timestamp counter write_two 0 node (record node { timestamp = 9 }) 0 0
      (pos 0) write_two_ignored

held_first : head? (contents queue) ≡ some held
unfolding span
held_first = refl

server_write-head_example : (write_two.target.node_id ≡ held.target.node_id) ⊎ (◌≡◌ {A = ℕ} 0 0)
server_write-head_example =
    server_write-head counter write_two 0 node (record node { timestamp = 9 }) 0 0 (pos 0) held
      queue-IsValid held_first refl write_two_ignored

IsToken-k : IsToken (107 ∷ [])
IsToken-k = record { nonempty = λ e. cc; bytes = ((omega arith, omega arith), tt) }

-- the bytes of a write of k = k
abbrev write_bytes : List ℕ
write_bytes =
    to_bytes 4 (type_code server_write)
    ++ (to_bytes 4 7
        ++ (to_bytes 4 1 ++ (to_bytes 4 2 ++ ((107 ∷ []) ++ 32 ∷ ((107 ∷ []) ++ 0 ∷ [])))))

abbrev write_message : PeerMessage
write_message = record {
  message_type = server_write;
  timestamp = 7;
  node_id = 1;
  key = some (107 ∷ []);
  value = some (107 ∷ []);
  write_type = 2;
}

write_marshalled : marshall_pm write_message ≡ some write_bytes
unfolding marshall_pm
write_marshalled = refl
