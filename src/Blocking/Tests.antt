-- ===== src/Blocking/Tests.antt =====
-- Instances of the theorems about server_handler_blocking, and tests.
use cse511_lab.Prelude.{
  ℕ, ◌≤◌, List, [], ◌∷◌, ◌++◌, Option, none, some, ◌≡◌, refl, ap, true, false, arith, replicate,
  set, to_bytes,
}
use cse511_lab.CString.{CString}
use cse511_lab.DataTypes.{
  MessagePtr, MessageType, PeerMessage, request_lock, reply_lock, release_lock,
}
use cse511_lab.PQueue.{Pqueue, max_slots, no_message, peek, enqueue}
use cse511_lab.BlockingNode.{
  Node, max_peers, empty_peer, connected, replies_quorum, broadcast_write, distributed_unlock,
  lock_held, own_message, reset_peer,
}
use cse511_lab.BlockingNode.Wire.{message_buffer}
use cse511_lab.BlockingNode.Listen.{Received, peer_message_listen}
use cse511_lab.CString.Tokens.{IsToken}
use cse511_lab.PQueue.Sorted
use cse511_lab.PQueue.Sorted.{IsSorted}
use cse511_lab.PQueue.Refine.{IsValid, contents}
use cse511_lab.Blocking.Follows.{peer_message_listen-serve_write}
use cse511_lab.Blocking.Grants.{request_at, two_replies_suffice}
use cse511_lab.C0Tree.{null, node}
use cse511_lab.Cache.{push_front}
use cse511_lab.Journal.Entry.{entry_bytes}
use cse511_lab.ServerPart1.{Server}
use cse511_lab.ServerPart1.Abd.{success}
use cse511_lab.ServerPart1.Handler.{logged}
use cse511_lab.ServerPart1.Tests.{start, empty_cache}
use cse511_lab.ServerPart1.AbdTests.{here, succeeds}
use cse511_lab.Blocking.{
  put, WriteRequest, State, Event, starting, waiting, holding, released, peer_message, call_lock,
  see_quorum, see_head, serve_write, server_requests, react, write, run_events,
}
use cse511_lab.Blocking.Quorum.{replies, has_lock, has_lock-replies}
use cse511_lab.Blocking.Sent.{WriteSent, write_message, unlock-broadcast_write_sent}
use cse511_lab.Blocking.Replicas.{request_of}
use cse511_lab.Blocking.Completes.{undisturbed, undisturbed_completes}

abbrev message : MessageType → ℕ → ℕ → PeerMessage
message type time id = record {
  message_type = type;
  timestamp = time;
  node_id = id;
  key = none;
  value = none;
  write_type = 0;
}

abbrev pointer : ℕ → PeerMessage → MessagePtr
pointer address m = record { address = address; target = m }

abbrev empty_queue : Pqueue
empty_queue = record { slots = replicate max_slots no_message; rear = none; front = none }

-- node 0 with the peers 1 and 2
abbrev pub quiet : Node
quiet = record {
  peers =
      set (set (replicate max_peers empty_peer) 0 (connected 5 (some 1))) 1 (connected 6 (some 2));
  requests = replicate max_peers (record { requested_lock = false; timestamp_last_req = 0 });
  lock_queue = empty_queue;
  timestamp = 4;
  node_id = 0;
  replies_received = 0;
  sent = [];
}

-- "PUT a x", and its parts
abbrev key : CString
key = 97 ∷ []

abbrev value : CString
value = 120 ∷ []

abbrev line : CString
line = 80 ∷ 85 ∷ 84 ∷ 32 ∷ 97 ∷ 32 ∷ 120 ∷ []

abbrev request : WriteRequest
request = request_of put key value line

reacts : react here line start ≡ some (start, write request)
unfolding react
reacts = refl

-- both peers reply before the thread goes on
abbrev acquiring : List Event
acquiring =
    call_lock 70
    ∷ peer_message (pointer 71 (message reply_lock 6 1)) 0
    ∷ peer_message (pointer 72 (message reply_lock 7 2)) 1
    ∷ see_quorum
    ∷ see_head
    ∷ []

abbrev begin : State
begin = record { phase = starting; node = quiet; server = start }

abbrev state_of : Option State → State
state_of none = begin
state_of (some s) = s

abbrev acquired : State
acquired = state_of (run_events here (succeeds ∷ []) request acquiring begin)

acquires : run_events here (succeeds ∷ []) request acquiring begin ≡ some acquired
unfolding run_events peek enqueue
acquires = refl

holds : acquired.phase ≡ holding
unfolding run_events peek enqueue
holds = refl

has_lock-replies_example : replies_quorum ≤ replies acquiring
has_lock-replies_example =
    has_lock-replies here (succeeds ∷ []) request acquiring quiet start acquired refl acquires
      (ap has_lock holds)

unlock-broadcast_write_sent_example :
    (wrote : Node) × (broadcast_write here.spare (some key) (some value) 1 quiet ≡ some wrote)
    × WriteSent (some key) (some value) 1 quiet (distributed_unlock wrote)
unlock-broadcast_write_sent_example =
    unlock-broadcast_write_sent here.spare (some key) (some value) 1 quiet refl refl

-- a key of 24 bytes fills its block, and its terminator does not fit
write_overflows : broadcast_write here.spare (some (replicate 24 97)) (some value) 1 quiet ≡ none
unfolding broadcast_write
write_overflows = refl

-- the server behind the write, and a queue with the request of node 0 at its head
abbrev behind : Server
behind = record start {
  tree = node null (record { key = key; value = value; flag = 0 }) 0 null;
  cache = record (push_front 9 key (some value) empty_cache) { count = 1 };
}

serves : serve_write here request start ≡ some (behind, success)
unfolding serve_write
serves = refl

abbrev own : MessagePtr
own = pointer 70 (message request_lock 5 0)

abbrev waiting_node : Node
waiting_node = record quiet {
  lock_queue = record {
    slots = set (replicate max_slots no_message) 0 own;
    rear = some 0;
    front = some 0;
  };
  replies_received = 2;
}

own_first : peek waiting_node.lock_queue ≡ some own
unfolding peek
own_first = refl

abbrev logged_server : Server
logged_server = record start {
  journal = record { tx_log = some (entry_bytes 5 line); locked = false };
}

logs : logged (succeeds ∷ []) line start ≡ some logged_server
unfolding logged to_bytes
logs = refl

abbrev served_server : Server
served_server = record behind {
  journal = record { tx_log = some (entry_bytes 5 line); locked = false };
}

serves_logged : serve_write here request logged_server ≡ some (served_server, success)
unfolding serve_write
serves_logged = refl

own_held : lock_held waiting_node own ≡ true
unfolding lock_held peek
own_held = refl

undisturbed_completes_example :
    (s : State) × (run_events here
        (succeeds ∷ [])
        request
        undisturbed
        (record { phase = waiting own; node = waiting_node; server = start })
      ≡ some s)
    × (s.phase ≡ released success)
    × (s.server ≡ served_server)
    × WriteSent (some request.key) request.value 1 waiting_node s.node
undisturbed_completes_example =
    undisturbed_completes here (succeeds ∷ []) request own waiting_node start logged_server
      served_server success (omega arith) own_held logs serves_logged refl refl

quiet-IsValid : IsValid quiet.lock_queue
unfolding IsSorted
quiet-IsValid = record { array = refl; in_range = tt; sorted = tt }

-- a node that writes, and a peer that knows it in its first slot
abbrev sender : Node
sender = record quiet { timestamp = 5 }

abbrev follower : Node
follower = record quiet {
  peers = set (replicate max_peers empty_peer) 0 (connected 5 (some 0));
  node_id = 1;
}

abbrev buffer_of : Option (List ℕ) → List ℕ
buffer_of none = []
buffer_of (some b) = b

inserted_first :
    Sorted.insert (pointer 90 (own_message request_lock sender)) (contents follower.lock_queue)
    ≡ pointer 90 (own_message request_lock sender) ∷ contents follower.lock_queue
unfolding Sorted.insert
inserted_first = refl

inserted_first_own :
    Sorted.insert (request_at 70 quiet) (contents quiet.lock_queue)
    ≡ request_at 70 quiet ∷ contents quiet.lock_queue
unfolding Sorted.insert
inserted_first_own = refl

IsToken-key : IsToken key
IsToken-key = record { nonempty = λ e. cc; bytes = ((omega arith, omega arith), tt) }

IsToken-value : IsToken value
IsToken-value = record { nonempty = λ e. cc; bytes = ((omega arith, omega arith), tt) }

-- what the node sends for the write, as the peer reads it
abbrev write_buffer : Received
write_buffer = record {
  address = 91;
  buffer = buffer_of (message_buffer (write_message (some key) (some value) 1 sender));
}

abbrev release_message : Received
release_message = record {
  address = 92;
  buffer = buffer_of (message_buffer (own_message release_lock sender));
}

abbrev lock_message : Received
lock_message = record {
  address = 90;
  buffer = buffer_of (message_buffer (own_message request_lock sender));
}

peer_message_listen-serve_write_example :
    (node' : Node) × (peer_message_listen here.spare
        (server_requests here)
        (lock_message ∷ write_buffer ∷ release_message ∷ [])
        0
        follower
        start
      ≡ some (reset_peer 0 node', behind))
    × (contents node'.lock_queue ≡ contents follower.lock_queue)
    × (reply : PeerMessage) × (reply.message_type ≡ reply_lock)
    × (node'.sent ≡ follower.sent ++ (some 5, reply) ∷ [])
unfolding message_buffer to_bytes
peer_message_listen-serve_write_example =
    peer_message_listen-serve_write here put key value line sender sender sender follower
      (connected 5 (some 0)) 0 0 (record { requested_lock = false; timestamp_last_req = 0 }) start
      behind success lock_message write_buffer release_message serves IsToken-key IsToken-value refl
      refl refl (omega arith) (omega arith) (omega arith) (omega arith) refl refl refl refl refl
      refl refl refl refl quiet-IsValid (omega arith) inserted_first

two_replies_suffice_example :
    (s : State) × (run_events here
        (succeeds ∷ [])
        request
        (call_lock 70
          ∷ peer_message (pointer 71 (message reply_lock 6 1)) 0
          ∷ peer_message (pointer 72 (message reply_lock 7 1)) 0
          ∷ see_quorum
          ∷ see_head
          ∷ [])
        begin
      ≡ some s)
    × (s.phase ≡ holding)
    × (s.server ≡ start)
two_replies_suffice_example =
    two_replies_suffice here (succeeds ∷ []) request 70 quiet start
      (pointer 71 (message reply_lock 6 1)) (pointer 72 (message reply_lock 7 1))
      (connected 5 (some 1)) (connected 5 (some 1)) 0 0 1 1 refl refl refl refl refl refl
      (omega arith) (omega arith) refl refl quiet-IsValid (omega arith) inserted_first_own
