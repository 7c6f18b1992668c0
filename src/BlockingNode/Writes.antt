-- ===== src/BlockingNode/Writes.antt =====
-- The writes of peers that a node of blocking_node.c applies.
use mathlib.Core.List.{head?}
use cse511_lab.Prelude.{
  ℕ, none, some, ◌≡◌, ◌⊎◌, inl, inr, ◌∙◌, arith, Bool-cases, Option-cases, get_elem?, ◌==◌, ◌>>=◌,
}
use cse511_lab.Prelude.Signed.{ℤ}
use cse511_lab.DataTypes.{server_write, PeerMessage, MessagePtr, Peer}
use cse511_lab.PQueue.{peek}
use cse511_lab.PQueue.Refine.{contents, IsValid, peek_refines}
use cse511_lab.BlockingNode.{Node, update_timestamp}
use cse511_lab.BlockingNode.Handlers.{Requests, on_server_write, handle_peer_message}

module _ {S : Type 0} (server : Requests S) where
  on_server_write_lem :
      (m : PeerMessage) (node : Node) (s s' : S) (status : ℤ) (head : MessagePtr)
      → peek node.lock_queue ≡ some head
      → on_server_write server m node s ≡ some (s', status)
      → (m.node_id ≡ head.target.node_id) ⊎ (s' ≡ s)
  unfolding on_server_write
  on_server_write_lem m node s s' status head p h =
      elim (Bool-cases (m.node_id == head.target.node_id)) [
        | inl e ↦ inl (ground arith)
        | inr e ↦ inr (let read = rw (p, on_server_write) at h in let same = rw e at read in cc)
      ]

  no_peer :
      (message : MessagePtr) (i : ℕ) (node : Node) (s : S)
      → get_elem? node.peers i ≡ none
      → handle_peer_message server message i node s ≡ none
  unfolding handle_peer_message
  no_peer message i node s p = rw (p, handle_peer_message)

  write_at :
      (message : MessagePtr) (i : ℕ) (node : Node) (s : S) (peer : Peer)
      → get_elem? node.peers i ≡ some peer
      → message.target.message_type ≡ server_write
      → handle_peer_message server message i node s ≡ (
          on_server_write server message.target (update_timestamp message.target.timestamp node) s
          >>= λ (s', status). some (update_timestamp message.target.timestamp node, s', status))
  unfolding handle_peer_message
  write_at message i node s peer p type = rw (p, handle_peer_message) (rw type)

  -- Where the lock queue is valid, a write of a peer changes the store only when it comes from the
  -- node whose request is the first in the order of the queue.
  pub server_write-head :
      (message : MessagePtr) (i : ℕ) (node node' : Node) (s s' : S) (status : ℤ) (head : MessagePtr)
      → IsValid node.lock_queue
      → head? (contents node.lock_queue) ≡ some head
      → message.target.message_type ≡ server_write
      → handle_peer_message server message i node s ≡ some (node', s', status)
      → (message.target.node_id ≡ head.target.node_id) ⊎ (s' ≡ s)
  server_write-head message i node node' s s' status head v first type h =
      let peeked = (peek_refines node.lock_queue v).0 ∙ first in
      elim (Option-cases (get_elem? node.peers i)) [
        | inl p ↦ let missing = no_peer message i node s p in cc
        | inr (peer, p) ↦
            let step = write_at message i node s peer p type in
            elim (Option-cases (
              on_server_write server message.target (update_timestamp message.target.timestamp node)
                s)) [
                  | inl q ↦ let stuck = rw q at step in cc
                  | inr ((t, st), q) ↦
                      let done = rw q at step in
                      let same : t ≡ s' = cc in
                      let applied =
                        on_server_write_lem message.target
                          (update_timestamp message.target.timestamp node) s t st head
                          (unfold update_timestamp in peeked) q in
                      rw same at applied
                ]
      ]
