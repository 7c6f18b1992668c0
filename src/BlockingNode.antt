-- ===== src/BlockingNode.antt =====
-- blocking_node.c and blocking_node.h: a node that agrees with its peers on a lock, by a queue of
-- requests and a clock. A message that is sent is an entry of `sent`; sockets and threads are left
-- aside, and each handler is one step, as under its mutex.
pub mod Handlers
pub mod Wire
pub mod Replies
pub mod Listen
pub mod RoundTrip
mod Clock
mod Peers
mod Writes
mod Tests
use cse511_lab.Prelude.{
  ℕ, zero, suc, ◌+◌, ◌%◌, ◌^◌, max, List, [], ◌∷◌, ◌++◌, Option, none, some, Bool, true, false, ltb,
  leb, ◌==◌, ◌&&◌, if◌then◌else◌, get_elem?, set, replicate, length, ◌>>=◌,
}
use cse511_lab.Prelude.Signed.{ℤ, pos, negsuc}
use cse511_lab.CString.{CString}
use cse511_lab.DataTypes.{
  MessageType, request_lock, release_lock, reply_lock, server_write, PeerMessage, MessagePtr, Peer,
}
use cse511_lab.PQueue.{Pqueue, enqueue, dequeue, peek}

-- `MAX_PEERS`
abbrev pub max_peers : ℕ
max_peers = 10

-- `requested_lock_metadata_t`
pub record Requested : Type 0 where
  pub requested_lock : Bool
  pub timestamp_last_req : ℕ

-- the global variables of a node, and what it has sent: sockets and messages
pub record Node : Type 0 where
  pub peers : List Peer
  pub requests : List Requested
  pub lock_queue : Pqueue
  pub timestamp : ℕ
  pub node_id : ℕ
  pub replies_received : ℕ
  pub sent : List (Option ℕ × PeerMessage)

unfoldable pub update_timestamp : ℕ → Node → Node
update_timestamp new_timestamp node = record node {
  timestamp = if ltb new_timestamp node.timestamp then node.timestamp else new_timestamp;
}

-- `update_timestamp(timestamp + 1)`, where the sum wraps around
abbrev pub tick : Node → Node
tick node = update_timestamp ((node.timestamp + 1) % 2 ^ 32) node

-- the fields of a peer without a connection
abbrev pub empty_peer : Peer
empty_peer = record {
  valid = false;
  peer_node_id = none;
  sock = none;
  peer_request_lock_pending = false;
  sem = false;
}

unfoldable pub init_peer_array : Node → Node
init_peer_array node = record node { peers = replicate max_peers empty_peer }

unfoldable pub next_free : List Peer → ℕ → Option ℕ
next_free [] i = none
next_free (p ∷ ps) i = elim p.valid [ false ↦ some i | true ↦ next_free ps (i + 1) ]

-- none for -1
unfoldable pub next_peer_index : Node → Option ℕ
unfolding next_free
next_peer_index node = next_free node.peers 0

-- The fields that connect_peer and listen_peer_connections set behind the exchange of the numbers.
abbrev pub connected : ℕ → Option ℕ → Peer
connected sock peer_id = record {
  valid = true;
  peer_node_id = peer_id;
  sock = some sock;
  peer_request_lock_pending = false;
  sem = true;
}

-- A new connection; -1 where no slot is free.
unfoldable pub connect_peer : ℕ → Option ℕ → Node → Node × ℤ
unfolding next_peer_index
connect_peer sock peer_id node = elim (next_peer_index node) [
  | none ↦ (node, negsuc 0)
  | some i ↦ (record node { peers = set node.peers i (connected sock peer_id) }, pos 0)
]

-- `reset_peer` on the peer of a slot
unfoldable pub reset_peer : ℕ → Node → Node
reset_peer i node = record node { peers = set node.peers i empty_peer }

-- a message of the node, with the key and the value "1" of the lock messages
abbrev pub own_message : MessageType → Node → PeerMessage
own_message type node = record {
  message_type = type;
  timestamp = node.timestamp;
  node_id = node.node_id;
  key = some (49 ∷ []);
  value = some (49 ∷ []);
  write_type = 0;
}

unfoldable pub send_peer_message : PeerMessage → Option ℕ → Node → Node
send_peer_message message sock node = record node { sent = node.sent ++ (sock, message) ∷ [] }

-- the loops that send a message to all valid peers
unfoldable pub broadcast : PeerMessage → List Peer → Node → Node
unfolding send_peer_message
broadcast message [] node = node
broadcast message (p ∷ ps) node = elim p.valid [
  | false ↦ broadcast message ps node
  | true ↦ broadcast message ps (send_peer_message message p.sock node)
]

-- the notes on the requests that distributed_lock sends
unfoldable pub note_requests : ℕ → List Peer → List Requested → List Requested
note_requests ts [] requests = requests
note_requests ts (p ∷ ps) [] = []
note_requests ts (p ∷ ps) (q ∷ qs) = elim p.valid [
  | false ↦ q ∷ note_requests ts ps qs
  | true ↦ record { requested_lock = true; timestamp_last_req = ts } ∷ note_requests ts ps qs
]

-- `distributed_lock` up to its first loop, for a message at an address: the node, the message, and
-- the status.
unfoldable pub lock_begin : ℕ → Node → Option (Node × MessagePtr × ℤ)
unfolding update_timestamp broadcast note_requests
lock_begin address node = do
  let node1 = tick node
  let msg : MessagePtr = record { address = address; target = own_message request_lock node1 }
  (queue, status) ← enqueue node1.lock_queue msg
  let node2 = record node1 { lock_queue = queue }
  let node3 = broadcast msg.target node2.peers node2
  some (elim status [
    | pos zero ↦ (
      record node3 { requests = note_requests node3.timestamp node3.peers node3.requests },
      msg,
      pos 0,
    )
    | _ ↦ (node2, msg, negsuc 0)
  ])

-- `REPLIES_QUORUM`
abbrev pub replies_quorum : ℕ
replies_quorum = 2

-- A round of the loop that waits for the replies; none where it goes on.
unfoldable pub lock_replied : Node → Option Node
lock_replied node =
    if leb replies_quorum node.replies_received
    then some (record node { replies_received = 0 })
    else none

-- the condition that the last loop of `distributed_lock` waits for: `peek(lock_queue) == msg`
unfoldable pub lock_held : Node → MessagePtr → Bool
lock_held node msg = elim (peek node.lock_queue) [
  | none ↦ false
  | some head ↦ head.address == msg.address
]

unfoldable pub distributed_unlock : Node → Node
unfolding update_timestamp broadcast
distributed_unlock node =
    let node1 = tick (record node { lock_queue = (dequeue node.lock_queue).0 }) in
    broadcast (own_message release_lock node1) node1.peers node1

-- the key or the value of a write, "1" for NULL
abbrev pub or_one : Option CString → Option CString
or_one none = some (49 ∷ [])
or_one (some s) = some s

-- whether a string fits with its terminator into what calloc returns for its length
abbrev pub has_room : (ℕ → Bool) → Option CString → Bool
has_room spare none = true
has_room spare (some s) = spare (length s)

-- `broadcast_write` behind its copies of the key and the value
unfoldable pub send_server_write : Option CString → Option CString → ℕ → Node → Node
unfolding update_timestamp broadcast
send_server_write key value write_type node =
    let node1 = tick node in
    let msg : PeerMessage = record {
      message_type = server_write;
      timestamp = node1.timestamp;
      node_id = node1.node_id;
      key = or_one key;
      value = or_one value;
      write_type = write_type;
    } in
    broadcast msg node1.peers node1

-- `broadcast_write`, which copies a string with strcpy into a block of its length without the terminator;
-- `spare` says whether calloc leaves a byte behind so many, and none is a write over another block.
unfoldable pub broadcast_write :
    (ℕ → Bool) → Option CString → Option CString → ℕ → Node → Option Node
unfolding send_server_write
broadcast_write spare key value write_type node =
    if has_room spare key && has_room spare value
    then some (send_server_write key value write_type node)
    else none

unfoldable pub handle_request_lock : Peer → Node → Node
unfolding update_timestamp send_peer_message
handle_request_lock peer node =
    let node1 = tick node in send_peer_message (own_message reply_lock node1) peer.sock node1

-- the field `peer_request_lock_pending` of the peer of a slot
abbrev pub set_pending : ℕ → Peer → Bool → Node → Node
set_pending i peer pending node = record node {
  peers = set node.peers i (record peer { peer_request_lock_pending = pending });
}
