-- ===== src/Blocking/Sent.antt =====
-- The messages that server_handler_blocking of server-part1.c sends to the peers behind a write.
use cse511_lab.Prelude.{
  ℕ, Bool, some, List, [], ◌∷◌, ◌++◌, Option, ◌≡◌, refl, sym, ap, ◌∙◌, true, false, Bool-cases, inl,
  inr, append_assoc, append-nil,
}
use cse511_lab.CString.{CString}
use cse511_lab.DataTypes.{release_lock, server_write, PeerMessage, Peer}
use cse511_lab.PQueue.{dequeue}
use cse511_lab.BlockingNode.{
  Node, tick, update_timestamp, send_peer_message, broadcast, own_message, or_one, has_room,
  send_server_write, broadcast_write, distributed_unlock,
}

-- a message for each valid peer, in the order of the slots
abbrev pub to_valid : PeerMessage → List Peer → List (Option ℕ × PeerMessage)
to_valid m [] = []
to_valid m (p ∷ ps) = elim p.valid [ true ↦ (p.sock, m) ∷ to_valid m ps | false ↦ to_valid m ps ]

pub broadcast_lem :
    (m : PeerMessage) (ps : List Peer) (node : Node)
    → broadcast m ps node ≡ record node { sent = node.sent ++ to_valid m ps }
unfolding broadcast send_peer_message
broadcast_lem m [] node = ap (λ s. record node { sent = s }) (sym (append-nil node.sent))
broadcast_lem m (p ∷ ps) node = elim (Bool-cases p.valid) [
  | inl v ↦ rw v (
      broadcast_lem m ps (send_peer_message m p.sock node)
      ∙ ap (λ s. record node { sent = s })
          (append_assoc node.sent ((p.sock, m) ∷ []) (to_valid m ps)))
  | inr v ↦ rw v (broadcast_lem m ps node)
]

-- what broadcast_write sends
abbrev pub write_message : Option CString → Option CString → ℕ → Node → PeerMessage
write_message key value write_type node = record {
  message_type = server_write;
  timestamp = (tick node).timestamp;
  node_id = node.node_id;
  key = or_one key;
  value = or_one value;
  write_type = write_type;
}

-- the messages of a write and of the release behind it
pub record WriteSent (key value : Option CString) (write_type : ℕ) (node after : Node)
    : Type 0 where
  pub release : PeerMessage
  pub releases : release.message_type ≡ release_lock
  pub time : release.timestamp ≡ after.timestamp
  pub sent :
      after.sent
      ≡ node.sent
        ++ (to_valid (write_message key value write_type node) node.peers
            ++ to_valid release node.peers)
  pub lock_queue : after.lock_queue ≡ (dequeue node.lock_queue).0

-- Where calloc leaves a byte behind the copies of the key and the value, broadcast_write returns, and behind
-- distributed_unlock the node has sent the write to each of its valid peers, and then, behind all of these,
-- the release of the lock to each of them, with a time that is that of its clock; its queue has lost its head.
pub unlock-broadcast_write_sent :
    (spare : ℕ → Bool) (key value : Option CString) (write_type : ℕ) (node : Node)
    → has_room spare key ≡ true
    → has_room spare value ≡ true
    → (wrote : Node) × (broadcast_write spare key value write_type node ≡ some wrote)
      × WriteSent key value write_type node (distributed_unlock wrote)
unfolding broadcast_write send_server_write distributed_unlock update_timestamp
unlock-broadcast_write_sent spare key value write_type node rk rv =
    let node1 = tick node in
    let m = write_message key value write_type node in
    let node2 = record node1 { sent = node1.sent ++ to_valid m node1.peers } in
    let wrote : send_server_write key value write_type node ≡ node2 =
      broadcast_lem m node1.peers node1 in
    let node3 = tick (record node2 { lock_queue = (dequeue node2.lock_queue).0 }) in
    let release = own_message release_lock node3 in
    let unlocked : distributed_unlock node2
        ≡ record node3 { sent = node3.sent ++ to_valid release node3.peers } =
      broadcast_lem release node3.peers node3 in
    (
      node2,
      rw (rk, rv) (ap some wrote),
      record {
        release = release;
        releases = refl;
        time = sym (ap (λ n. n.timestamp) unlocked);
        sent =
            ap (λ n. n.sent) unlocked
            ∙ append_assoc node.sent (to_valid m node.peers) (to_valid release node.peers);
        lock_queue = ap (λ n. n.lock_queue) unlocked;
      },
    )
