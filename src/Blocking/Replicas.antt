-- ===== src/Blocking/Replicas.antt =====
-- The writes of server_handler_blocking of server-part1.c at the peers that receive them.
use cse511_lab.Prelude.{
  ℕ, some, ◌≡◌, ap, arith, true, ◌==◌, List, get_elem?, Option-cases, inl, inr,
}
use cse511_lab.Prelude.Signed.{pos}
use cse511_lab.CString.{CString}
use cse511_lab.DataTypes.{MessagePtr, Peer}
use cse511_lab.PQueue.{peek}
use cse511_lab.BlockingNode.{Node, update_timestamp}
use cse511_lab.BlockingNode.Handlers.{apply_write, on_server_write, handle_peer_message}
use cse511_lab.ServerPart1.{
  Server, server_1_delete_request, server_1_put_request, server_1_insert_request,
}
use cse511_lab.ServerPart1.Abd.{Surroundings}
use cse511_lab.Blocking.{
  Write, put, insert, delete, write_code, WriteRequest, serve_write, server_requests,
}
use cse511_lab.Blocking.Sent.{write_message}

-- the write with a key and a value
abbrev pub request_of : Write → CString → CString → CString → WriteRequest
request_of w key value line = record { write = w; key = key; value = some value; line = line }

applied :
    (o : Surroundings) (w : Write) (key value line : CString) (sender : Node) (st st' : Server)
    (response : List ℕ)
    → serve_write o (request_of w key value line) st ≡ some (st', response)
    → (status : ℕ) × (apply_write
          (server_requests o)
          (write_message (some key) (some value) (write_code w) sender)
          st
        ≡ some (st', pos status))
unfolding serve_write apply_write server_requests
applied o put key value line sender st st' response h =
    elim (Option-cases (server_1_put_request o.opens o.second_node key value st)) [
      | inl p ↦ let stuck = rw p at h in cc
      | inr (st1, p) ↦
          let done = rw p at h in
          let same : st1 ≡ st' = cc in (0, rw p (ap (λ s. some (s, pos 0)) same))
    ]
applied o insert key value line sender st st' response h =
    elim (Option-cases (server_1_insert_request o.opens o.second_node key value st)) [
      | inl p ↦ let stuck = rw p at h in cc
      | inr ((st1, status), p) ↦
          let done = rw p at h in
          let same : st1 ≡ st' = cc in (status, rw p (ap (λ s. some (s, pos status)) same))
    ]
applied o delete key value line sender st st' response h =
    elim (Option-cases (server_1_delete_request key st)) [
      | inl p ↦ let stuck = rw p at h in cc
      | inr (st1, p) ↦
          let done = rw p at h in
          let same : st1 ≡ st' = cc in (0, rw p (ap (λ s. some (s, pos 0)) same))
    ]

-- the node and the server behind the message of a write
pub handled_write :
    (o : Surroundings) (w : Write) (key value line : CString) (sender node : Node) (peer : Peer)
    (address i : ℕ) (head : MessagePtr) (st st' : Server) (response : List ℕ)
    → serve_write o (request_of w key value line) st ≡ some (st', response)
    → get_elem? node.peers i ≡ some peer
    → peek node.lock_queue ≡ some head
    → head.target.node_id ≡ sender.node_id
    → (status : ℕ) × (handle_peer_message
          (server_requests o)
          (record {
            address = address;
            target = write_message (some key) (some value) (write_code w) sender;
          })
          i
          node
          st
        ≡ some (
          update_timestamp
              (write_message (some key) (some value) (write_code w) sender).timestamp
              node,
          st',
          pos status,
        ))
unfolding handle_peer_message on_server_write update_timestamp
handled_write o w key value line sender node peer address i head st st' response h p q e =
    let (status, done) = applied o w key value line sender st st' response h in
    let first : (sender.node_id == head.target.node_id) ≡ true = ground arith in
    (status, rw (p, q, first, done))

-- A write that the holder of the lock has served: a peer in the same state, at the head of whose queue
-- stands a request of the holder, comes to the same state when it handles the message of broadcast_write.
pub handle_peer_message-serve_write :
    (o : Surroundings) (w : Write) (key value line : CString) (sender node : Node) (peer : Peer)
    (address i : ℕ) (head : MessagePtr) (st st' : Server) (response : List ℕ)
    → serve_write o (request_of w key value line) st ≡ some (st', response)
    → get_elem? node.peers i ≡ some peer
    → peek node.lock_queue ≡ some head
    → head.target.node_id ≡ sender.node_id
    → (node' : Node) × (status : ℕ) × (handle_peer_message
          (server_requests o)
          (record {
            address = address;
            target = write_message (some key) (some value) (write_code w) sender;
          })
          i
          node
          st
        ≡ some (node', st', pos status))
handle_peer_message-serve_write o w key value line sender node peer address i head st st' response h
      p q e =
    let m = write_message (some key) (some value) (write_code w) sender in
    let (status, done) =
      handled_write o w key value line sender node peer address i head st st' response h p q e in
    (update_timestamp m.timestamp node, status, done)
