-- ===== src/BlockingNode/Listen.antt =====
-- peer_message_listen of blocking_node.c: the buffers that a node reads from the socket of a peer.
use cse511_lab.Prelude.{ℕ, Bool, List, [], ◌∷◌, Option, some, ◌>>=◌}
use cse511_lab.DataTypes.{MessagePtr}
use cse511_lab.BlockingNode.{Node, reset_peer}
use cse511_lab.BlockingNode.Handlers.{Requests, handle_peer_message}
use cse511_lab.BlockingNode.Wire.{unmarshall_pm}

-- a buffer that read fills, and the address of the message that it is taken apart into
pub record Received : Type 0 where
  pub address : ℕ
  pub buffer : List ℕ

module _ {S : Type 0} (spare : ℕ → Bool) (server : Requests S) where
  -- A round of the loop. Behind an error of handle_peer_message the loop goes on as behind success.
  unfoldable pub listen_round : Received → ℕ → Node → S → Option (Node × S)
  unfolding unmarshall_pm handle_peer_message
  listen_round b i node s = do
    peer_msg ← unmarshall_pm spare b.buffer
    let message : MessagePtr = record { address = b.address; target = peer_msg }
    (node', s', _) ← handle_peer_message server message i node s
    some (node', s')

  -- the loop, up to the end of the connection, and the reset of the peer
  unfoldable pub peer_message_listen : List Received → ℕ → Node → S → Option (Node × S)
  unfolding listen_round reset_peer
  peer_message_listen [] i node s = some (reset_peer i node, s)
  peer_message_listen (b ∷ bs) i node s = do
    (node', s') ← listen_round b i node s
    peer_message_listen bs i node' s'
