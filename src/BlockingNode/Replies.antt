-- ===== src/BlockingNode/Replies.antt =====
-- The replies that a node of blocking_node.c has counted.
use cse511_lab.Prelude.{
  ℕ, zero, suc, ◌+◌, ◌≤◌, List, [], ◌∷◌, Option, none, some, ◌>>=◌, ◌≡◌, refl, arith, Bool-cases,
  inl, inr, get_elem?, bind_elim,
}
use cse511_lab.Prelude.Signed.{ℤ, pos, negsuc}
use cse511_lab.DataTypes.{
  MessageType, request_lock, release_lock, reply_lock, server_write, other_type, MessageType-cases,
  MessagePtr, Peer, PeerMessage,
}
use cse511_lab.PQueue.{enqueue}
use cse511_lab.BlockingNode.{
  Node, Requested, update_timestamp, send_peer_message, broadcast, handle_request_lock, lock_begin,
  own_message, tick, note_requests,
}
use cse511_lab.BlockingNode.Handlers.{
  Requests, answer_request, answer_pending, on_request_lock, on_reply_lock, on_server_write,
  handle_peer_message,
}

-- what a step says of the replies, where it has a result
abbrev AtMost : ℕ → Option Node → Type 0
AtMost n none = Unit
AtMost n (some node) = node.replies_received ≤ n

handle_request_lock-replies :
    (peer : Peer) (node : Node)
    → (handle_request_lock peer node).replies_received ≡ node.replies_received
unfolding handle_request_lock update_timestamp send_peer_message
handle_request_lock-replies peer node = refl

broadcast-replies :
    (m : PeerMessage) (ps : List Peer) (node : Node)
    → (broadcast m ps node).replies_received ≡ node.replies_received
unfolding broadcast send_peer_message
broadcast-replies m [] node = refl
broadcast-replies m (p ∷ ps) node = elim (Bool-cases p.valid) [
  | inl v ↦ rw v (broadcast-replies m ps (send_peer_message m p.sock node))
  | inr v ↦ rw v (broadcast-replies m ps node)
]

on_request_lock-replies :
    (message : MessagePtr) (i : ℕ) (peer : Peer) (node : Node) (n : ℕ)
    → node.replies_received ≤ n
    → AtMost n (on_request_lock message i peer node)
unfolding on_request_lock answer_request
on_request_lock-replies message i peer node n h =
    bind_elim (AtMost n) tt (enqueue node.lock_queue message) _ λ (queue, status).
      bind_elim (AtMost n) tt peer.peer_node_id _ λ id.
        bind_elim (AtMost n) tt (get_elem? node.requests id) _ λ request.
          ground (arith, handle_request_lock-replies peer (record node { lock_queue = queue }))

on_reply_lock-replies :
    (i : ℕ) (peer : Peer) (node : Node) (n : ℕ)
    → node.replies_received + 1 ≤ n
    → AtMost n (on_reply_lock i peer node)
unfolding on_reply_lock answer_pending
on_reply_lock-replies i peer node n h = bind_elim (AtMost n) tt peer.peer_node_id _ λ id.
    bind_elim (AtMost n) tt (get_elem? (answer_pending i peer node).requests id) _
      λ request. ground (arith, handle_request_lock-replies peer node)

-- and of what lock_begin returns
abbrev pub Began : ℕ → Option (Node × MessagePtr × ℤ) → Type 0
Began n none = Unit
Began n (some (node, msg, status)) = node.replies_received ≤ n

begun_at :
    (n : ℕ) (node2 node3 : Node) (requests : List Requested) (msg : MessagePtr) (status : ℤ)
    → node2.replies_received ≤ n
    → node3.replies_received ≤ n
    → Began n (
        some (elim status [
          | pos zero ↦ (record node3 { requests = requests }, msg, pos 0)
          | _ ↦ (node2, msg, negsuc 0)
        ]))
begun_at n node2 node3 requests msg (pos zero) h k = k
begun_at n node2 node3 requests msg (pos (suc i)) h k = h
begun_at n node2 node3 requests msg (negsuc i) h k = h

pub lock_begin-replies :
    (address : ℕ) (node : Node) (n : ℕ)
    → node.replies_received ≤ n
    → Began n (lock_begin address node)
unfolding lock_begin update_timestamp
lock_begin-replies address node n h =
    let node1 = tick node in
    let msg : MessagePtr = record { address = address; target = own_message request_lock node1 } in
    bind_elim (Began n) tt (enqueue node1.lock_queue msg) _ λ (queue, status).
      let node2 = record node1 { lock_queue = queue } in
      let node3 = broadcast msg.target node2.peers node2 in
      let same = broadcast-replies msg.target node2.peers node2 in
      begun_at n node2 node3 (note_requests node3.timestamp node3.peers node3.requests) msg status h
        (omega (arith, same, h))

-- 1 for a reply of a peer
abbrev pub reply_of : MessageType → ℕ
reply_of reply_lock = 1
reply_of request_lock = 0
reply_of release_lock = 0
reply_of server_write = 0
reply_of (other_type n) = 0

-- what handle_peer_message says of the replies
abbrev pub Handled : {S : Type 0} → ℕ → Option (Node × S × ℤ) → Type 0
Handled n none = Unit
Handled n (some (node, server, status)) = node.replies_received ≤ n

Handled-node :
    {S : Type 0}
    → (n : ℕ) (x : Option Node) (server : S) → AtMost n x
    → Handled n (x >>= λ node. some (node, server, pos 0))
Handled-node n none server h = tt
Handled-node n (some node) server h = h

pub handle_peer_message-replies :
    {S : Type 0}
    → (requests : Requests S) (message : MessagePtr) (i : ℕ) (node : Node) (server : S)
    → Handled
        (node.replies_received + reply_of message.target.message_type)
        (handle_peer_message requests message i node server)
unfolding handle_peer_message update_timestamp
handle_peer_message-replies requests message i node server =
    let m = node.replies_received + reply_of message.target.message_type in
    let node1 = update_timestamp message.target.timestamp node in
    bind_elim (Handled m) tt (get_elem? node.peers i) _ λ peer.
      elim (MessageType-cases message.target.message_type) [
        | inl t ↦
            rw t (
              Handled-node _ _ server
                (on_request_lock-replies message i peer node1 _ (omega arith)))
        | inr (inl t) ↦ rw t (omega arith)
        | inr (inr (inl t)) ↦
            rw t (Handled-node _ _ server (on_reply_lock-replies i peer node1 _ (omega arith)))
        | inr (inr (inr (inr (k, t)))) ↦ rw t (omega arith)
        | inr (inr (inr (inl t))) ↦ rw t (
            bind_elim (Handled (node.replies_received + 0)) tt
              (on_server_write requests message.target node1 server) _
              λ (server', status). omega arith)
      ]
