-- ===== src/BlockingNode/Handlers.antt =====
-- handle_peer_message of blocking_node.c, with the cases of its switch.
use cse511_lab.Prelude.{
  ℕ, ◌+◌, Option, some, true, false, ltb, ◌==◌, ◌&&◌, if◌then◌else◌, get_elem?, set, ◌>>=◌,
}
use cse511_lab.Prelude.Signed.{ℤ, pos, negsuc}
use cse511_lab.CString.{CString}
use cse511_lab.DataTypes.{
  request_lock, release_lock, reply_lock, server_write, other_type, PeerMessage, MessagePtr, Peer,
}
use cse511_lab.PQueue.{enqueue, dequeue, peek}
use cse511_lab.BlockingNode.{Node, Requested, update_timestamp, set_pending, handle_request_lock}

-- The answer to a request of the peer of a slot, or the note that it waits for an answer.
unfoldable pub answer_request : MessagePtr → ℕ → Peer → Requested → Node → Node
unfolding handle_request_lock
answer_request message i peer request node =
    if request.requested_lock && ltb request.timestamp_last_req message.target.timestamp
    then set_pending i peer true node
    else handle_request_lock peer node

-- `case REQUEST_LOCK`, for the peer of a slot; a full queue is ignored.
unfoldable pub on_request_lock : MessagePtr → ℕ → Peer → Node → Option Node
unfolding answer_request
on_request_lock message i peer node = do
  (queue, _) ← enqueue node.lock_queue message
  let node1 = record node { lock_queue = queue }
  id ← peer.peer_node_id
  request ← get_elem? node1.requests id
  some (answer_request message i peer request node1)

-- `if (peer->peer_request_lock_pending) …`
unfoldable pub answer_pending : ℕ → Peer → Node → Node
unfolding handle_request_lock
answer_pending i peer node =
    if peer.peer_request_lock_pending
    then set_pending i peer false (handle_request_lock peer node)
    else node

-- `case REPLY_LOCK`
unfoldable pub on_reply_lock : ℕ → Peer → Node → Option Node
unfolding answer_pending
on_reply_lock i peer node = do
  let node1 = answer_pending i peer node
  id ← peer.peer_node_id
  request ← get_elem? node1.requests id
  some (record node1 {
    requests = set node1.requests id (record request { requested_lock = false });
    replies_received = node1.replies_received + 1;
  })

-- The requests of server-part1.c that a write of a peer ends in: the store and the status behind
-- them, none where they crash.
pub record Requests (S : Type 0) : Type 0 where
  pub insert_request : Option CString → Option CString → S → Option (S × ℤ)
  pub put_request : Option CString → Option CString → S → Option (S × ℤ)
  pub delete_request : Option CString → S → Option (S × ℤ)

module _ {S : Type 0} (server : Requests S) where
  -- `switch (message->write_type)`; the codes are those of `write_type_t`.
  unfoldable pub apply_write : PeerMessage → S → Option (S × ℤ)
  apply_write m s =
      if m.write_type == 2
      then server.insert_request m.key m.value s
      else if m.write_type == 1
      then server.put_request m.key m.value s
      else if m.write_type == 3
      then server.delete_request m.key s
      else some (s, negsuc 0)

  -- `case SERVER_WRITE`; none where the queue is empty, and the code reads through NULL.
  unfoldable pub on_server_write : PeerMessage → Node → S → Option (S × ℤ)
  unfolding apply_write
  on_server_write m node s = do
    head ← peek node.lock_queue
    if m.node_id == head.target.node_id then apply_write m s else some (s, pos 0)

  -- `handle_peer_message`, on a message from the peer of a slot
  unfoldable pub handle_peer_message : MessagePtr → ℕ → Node → S → Option (Node × S × ℤ)
  unfolding update_timestamp on_request_lock on_reply_lock on_server_write
  handle_peer_message message i node s = do
    peer ← get_elem? node.peers i
    let node1 = update_timestamp message.target.timestamp node
    elim message.target.message_type [
      | request_lock ↦ do node2 ← on_request_lock message i peer node1; some (node2, s, pos 0)
      | release_lock ↦ some (record node1 { lock_queue = (dequeue node1.lock_queue).0 }, s, pos 0)
      | reply_lock ↦ do node2 ← on_reply_lock i peer node1; some (node2, s, pos 0)
      | server_write ↦ do
        (s', status) ← on_server_write message.target node1 s
        some (node1, s', status)
      | other_type n ↦ some (node1, s, pos 0)
    ]
