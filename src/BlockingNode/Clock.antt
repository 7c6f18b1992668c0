-- ===== src/BlockingNode/Clock.antt =====
-- The clock of a node of blocking_node.c.
use cse511_lab.Prelude.{
  ℕ, ◌≤◌, Option, none, some, ◌≡◌, arith, Option-cases, inl, inr, get_elem?, ◌>>=◌,
}
use cse511_lab.Prelude.Signed.{ℤ, pos}
use cse511_lab.DataTypes.{MessageType-cases, MessagePtr, Peer}
use cse511_lab.PQueue.{enqueue}
use cse511_lab.BlockingNode.{Node, Requested, update_timestamp, handle_request_lock}
use cse511_lab.BlockingNode.Handlers.{
  Requests, on_request_lock, on_reply_lock, handle_peer_message, answer_request, answer_pending,
  on_server_write,
}

update_timestamp_lem :
    (n : ℕ) (node : Node)
    → (node.timestamp ≤ (update_timestamp n node).timestamp)
      × (n ≤ (update_timestamp n node).timestamp)
unfolding update_timestamp
update_timestamp_lem n node = ground arith

handle_request_lock-timestamp :
    (peer : Peer) (node : Node) → node.timestamp ≤ (handle_request_lock peer node).timestamp
unfolding handle_request_lock
handle_request_lock-timestamp peer node = (update_timestamp_lem _ node).0

-- what a step says of the clock, where it has a result
abbrev Keeps : ℕ → Option Node → Type 0
Keeps t none = Unit
Keeps t (some node) = t ≤ node.timestamp

Keeps-bind :
    {A : Type 0} (t : ℕ) (o : Option A) (f : A → Option Node)
    → ((a : A) → Keeps t (f a))
    → Keeps t (o >>= f)
Keeps-bind t none f h = tt
Keeps-bind t (some a) f h = h a

answer_request-timestamp :
    (message : MessagePtr) (i : ℕ) (peer : Peer) (request : Requested) (node : Node)
    → node.timestamp ≤ (answer_request message i peer request node).timestamp
unfolding answer_request
answer_request-timestamp message i peer request node =
    ground (arith, handle_request_lock-timestamp peer node)

answer_pending-timestamp :
    (i : ℕ) (peer : Peer) (node : Node) → node.timestamp ≤ (answer_pending i peer node).timestamp
unfolding answer_pending
answer_pending-timestamp i peer node = ground (arith, handle_request_lock-timestamp peer node)

on_request_lock-timestamp :
    (message : MessagePtr) (i : ℕ) (peer : Peer) (node : Node)
    → Keeps node.timestamp (on_request_lock message i peer node)
unfolding on_request_lock
on_request_lock-timestamp message i peer node =
    Keeps-bind node.timestamp (enqueue node.lock_queue message) _ λ (queue, status).
      Keeps-bind node.timestamp peer.peer_node_id _ λ id.
        Keeps-bind node.timestamp (get_elem? node.requests id) _ λ request.
          answer_request-timestamp message i peer request (record node { lock_queue = queue })

on_reply_lock-timestamp :
    (i : ℕ) (peer : Peer) (node : Node) → Keeps node.timestamp (on_reply_lock i peer node)
unfolding on_reply_lock
on_reply_lock-timestamp i peer node = Keeps-bind node.timestamp peer.peer_node_id _ λ id.
    Keeps-bind node.timestamp (get_elem? (answer_pending i peer node).requests id) _
      λ request. answer_pending-timestamp i peer node

module _ {S : Type 0} (server : Requests S) where
  -- the clock of a result, where there is one
  abbrev clock_after : Option (Node × S × ℤ) → ℕ → ℕ
  clock_after none t = t
  clock_after (some (node, s, status)) t = node.timestamp

  after_step :
      (n : ℕ) (o : Option Node) (s : S)
      → Keeps n o
      → n ≤ clock_after (o >>= λ node. some (node, s, pos 0)) n
  after_step n none s h = omega arith
  after_step n (some node) s h = h

  after_write :
      (n : ℕ) (o : Option (S × ℤ)) (node : Node)
      → n ≤ node.timestamp
      → n ≤ clock_after (o >>= λ (s, status). some (node, s, status)) n
  after_write n none node h = omega arith
  after_write n (some (s, status)) node h = h

  handle_at :
      (message : MessagePtr) (i : ℕ) (node : Node) (s : S) (peer : Peer)
      → get_elem? node.peers i ≡ some peer
      → (update_timestamp message.target.timestamp node).timestamp
        ≤ clock_after
            (handle_peer_message server message i node s)
            (update_timestamp message.target.timestamp node).timestamp
  unfolding handle_peer_message
  handle_at message i node s peer p =
      let node1 = update_timestamp message.target.timestamp node in
      rw (p, handle_peer_message)
        (elim (MessageType-cases message.target.message_type) [
          | inl t ↦
              rw t (after_step node1.timestamp _ s (on_request_lock-timestamp message i peer node1))
          | inr (inl t) ↦ rw t (omega arith)
          | inr (inr (inl t)) ↦
              rw t (after_step node1.timestamp _ s (on_reply_lock-timestamp i peer node1))
          | inr (inr (inr (inr (k, t)))) ↦ rw t (omega arith)
          | inr (inr (inr (inl t))) ↦ rw t (
              after_write node1.timestamp (on_server_write server message.target node1 s) node1
                (omega arith))
        ])

  no_peer :
      (message : MessagePtr) (i : ℕ) (node : Node) (s : S)
      → get_elem? node.peers i ≡ none
      → handle_peer_message server message i node s ≡ none
  unfolding handle_peer_message
  no_peer message i node s p = rw (p, handle_peer_message)

  -- Handling a message never turns the clock of the node back, and leaves it at the time of the
  -- message or later.
  pub handle_peer_message-timestamp :
      (message : MessagePtr) (i : ℕ) (node node' : Node) (s s' : S) (status : ℤ)
      → handle_peer_message server message i node s ≡ some (node', s', status)
      → (node.timestamp ≤ node'.timestamp) × (message.target.timestamp ≤ node'.timestamp)
  handle_peer_message-timestamp message i node node' s s' status h =
      elim (Option-cases (get_elem? node.peers i)) [
        | inl p ↦ let missing = no_peer message i node s p in cc
        | inr (peer, p) ↦
            let reached = handle_at message i node s peer p in
            let time = rw h at reached in
            let first = update_timestamp_lem message.target.timestamp node in
            (omega (arith, time, first.0), omega (arith, time, first.1))
      ]
