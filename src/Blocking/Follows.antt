-- ===== src/Blocking/Follows.antt =====
-- A write of server_handler_blocking of server-part1.c at a peer that reads its messages from a socket:
-- the request of the lock, the write and the release.
use mathlib.Core.List.{head?, tail}
use cse511_lab.Prelude.{
  ℕ, ◌-◌, ◌<◌, ◌^◌, List, [], ◌∷◌, ◌++◌, some, ◌≡◌, refl, sym, ap, ◌∙◌, arith, false, get_elem?,
  length, to_bytes, ltb, Bool, true, Bool-cases, inl, inr, replicate,
}
use cse511_lab.Prelude.Signed.{pos}
use cse511_lab.CString.{CString}
use cse511_lab.CString.Tokens.{IsToken}
use cse511_lab.DataTypes.{
  MessageType, MessagePtr, PeerMessage, Peer, request_lock, release_lock, reply_lock, server_write,
}
use cse511_lab.PQueue.{max_slots, dequeue, peek}
use cse511_lab.PQueue.Sorted
use cse511_lab.PQueue.Refine.{
  IsValid, contents, Enqueued, enqueue_refines, Dequeued, dequeue_refines, peek_refines,
}
use cse511_lab.BlockingNode.{
  Node, Requested, update_timestamp, send_peer_message, handle_request_lock, own_message, tick,
  reset_peer,
}
use cse511_lab.BlockingNode.Handlers.{handle_peer_message, on_request_lock, answer_request}
use cse511_lab.BlockingNode.Wire.{
  max_message_size, type_code, type_of_code, message_buffer, unmarshall_pm,
}
use cse511_lab.BlockingNode.RoundTrip.{unmarshall_pm-marshall_pm}
use cse511_lab.BlockingNode.Listen.{Received, listen_round, peer_message_listen}
use cse511_lab.ServerPart1.{Server}
use cse511_lab.ServerPart1.Abd.{Surroundings}
use cse511_lab.Blocking.{Write, put, insert, delete, write_code, serve_write, server_requests}
use cse511_lab.Blocking.Sent.{write_message}
use cse511_lab.Blocking.Replicas.{request_of, handled_write}

-- the buffer of a message is read back as the message
unmarshall_pm-message_buffer :
    (spare : ℕ → Bool) (type : MessageType) (timestamp node_id write_type : ℕ) (k v : CString)
    (buf : List ℕ)
    → timestamp < 256 ^ 4
    → node_id < 256 ^ 4
    → write_type < 256 ^ 4
    → IsToken k
    → IsToken v
    → type_of_code (type_code type) ≡ type
    → type_code type < 256 ^ 4
    → spare (length k) ≡ true
    → spare (length v) ≡ true
    → message_buffer (record {
      message_type = type;
      timestamp = timestamp;
      node_id = node_id;
      key = some k;
      value = some v;
      write_type = write_type;
    })
      ≡ some buf
    → unmarshall_pm spare buf
      ≡ some (record {
        message_type = type;
        timestamp = timestamp;
        node_id = node_id;
        key = some k;
        value = some v;
        write_type = write_type;
      })
unfolding message_buffer
unmarshall_pm-message_buffer spare type timestamp node_id write_type k v buf a b c hk hv known bound
      sk sv h =
    let bytes : List ℕ =
      to_bytes 4 (type_code type)
      ++ (to_bytes 4 timestamp
          ++ (to_bytes 4 node_id ++ (to_bytes 4 write_type ++ (k ++ 32 ∷ (v ++ 0 ∷ []))))) in
    let padding : List ℕ = replicate (max_message_size - length bytes) 0 in
    elim (Bool-cases (ltb max_message_size (length bytes))) [
      | inl q ↦ let stuck = rw q at h in cc
      | inr q ↦
          let sent = rw q at h in
          let whole : bytes ++ padding ≡ buf = cc in
          ap (unmarshall_pm spare) (sym whole)
          ∙ unmarshall_pm-marshall_pm spare type timestamp node_id write_type k v bytes padding a b
              c hk hv known bound sk sv refl
    ]

-- a request of the lock at a peer that has no request of its own under way
handled_request :
    (o : Surroundings) (x : MessagePtr) (node : Node) (peer : Peer) (i id : ℕ) (q : Requested)
    (st : Server)
    → x.target.message_type ≡ request_lock
    → get_elem? node.peers i ≡ some peer
    → peer.peer_node_id ≡ some id
    → get_elem? node.requests id ≡ some q
    → q.requested_lock ≡ false
    → (e : Enqueued node.lock_queue x)
    → handle_peer_message (server_requests o) x i node st
      ≡ some (
        handle_request_lock peer
            (record (update_timestamp x.target.timestamp node) { lock_queue = e.after }),
        st,
        pos 0,
      )
unfolding handle_peer_message on_request_lock answer_request update_timestamp
handled_request o x node peer i id q st t p n r free e = rw (p, t, e.status, n, r, free)

handled_release :
    (o : Surroundings) (x : MessagePtr) (node : Node) (peer : Peer) (i : ℕ) (st : Server)
    → x.target.message_type ≡ release_lock
    → get_elem? node.peers i ≡ some peer
    → handle_peer_message (server_requests o) x i node st
      ≡ some (
        record (update_timestamp x.target.timestamp node) {
          lock_queue = (dequeue node.lock_queue).0;
        },
        st,
        pos 0,
      )
unfolding handle_peer_message update_timestamp
handled_release o x node peer i st t p = rw (p, t)

-- a buffer whose message is handled, in front of others
listen-suc :
    (o : Surroundings) (b : Received) (bs : List Received) (m : PeerMessage) (i : ℕ)
    (node node' : Node) (st st' : Server) (n : ℕ)
    → unmarshall_pm o.spare b.buffer ≡ some m
    → handle_peer_message (server_requests o) (record { address = b.address; target = m }) i node st
      ≡ some (node', st', pos n)
    → peer_message_listen o.spare (server_requests o) (b ∷ bs) i node st
      ≡ peer_message_listen o.spare (server_requests o) bs i node' st'
unfolding peer_message_listen listen_round
listen-suc o b bs m i node node' st st' n u h = rw (u, h)

tick_fits : (node : Node) → node.timestamp < 256 ^ 4 → (tick node).timestamp < 256 ^ 4
unfolding update_timestamp
tick_fits node h = ground arith

IsToken-one : IsToken (49 ∷ [])
IsToken-one = record { nonempty = λ e. cc; bytes = ((omega arith, omega arith), tt) }

code_fits : (w : Write) → write_code w < 256 ^ 4
code_fits put = omega arith
code_fits insert = omega arith
code_fits delete = omega arith

-- A peer reads what a node sends for a write from its socket: the request of the lock, the write, and
-- the release. The numbers fit into 4 bytes, the key and the value are not empty and have no blanks,
-- calloc leaves a zero byte behind their copies and that of a byte, the peer has no request of its own under way with the node, its valid queue has room, and the request
-- comes before what the queue holds. Then its server comes to the state that the write takes a server
-- in its state to; its queue holds what it held; and it has sent one message, a reply to the node.
pub peer_message_listen-serve_write :
    (o : Surroundings) (w : Write) (key value line : CString) (s1 s2 s3 node : Node) (peer : Peer)
    (i id : ℕ) (q : Requested) (st st' : Server) (response : List ℕ) (b1 b2 b3 : Received)
    → serve_write o (request_of w key value line) st ≡ some (st', response)
    → IsToken key
    → IsToken value
    → o.spare 1 ≡ true
    → o.spare (length key) ≡ true
    → o.spare (length value) ≡ true
    → s1.timestamp < 256 ^ 4
    → s2.timestamp < 256 ^ 4
    → s3.timestamp < 256 ^ 4
    → s1.node_id < 256 ^ 4
    → s2.node_id ≡ s1.node_id
    → s3.node_id ≡ s1.node_id
    → message_buffer (own_message request_lock s1) ≡ some b1.buffer
    → message_buffer (write_message (some key) (some value) (write_code w) s2) ≡ some b2.buffer
    → message_buffer (own_message release_lock s3) ≡ some b3.buffer
    → get_elem? node.peers i ≡ some peer
    → peer.peer_node_id ≡ some id
    → get_elem? node.requests id ≡ some q
    → q.requested_lock ≡ false
    → IsValid node.lock_queue
    → length (contents node.lock_queue) < max_slots
    → Sorted.insert
        (record { address = b1.address; target = own_message request_lock s1 })
        (contents node.lock_queue)
      ≡ record { address = b1.address; target = own_message request_lock s1 }
        ∷ contents node.lock_queue
    → (node' : Node) × (peer_message_listen o.spare
          (server_requests o)
          (b1 ∷ b2 ∷ b3 ∷ [])
          i
          node
          st
        ≡ some (reset_peer i node', st'))
      × (contents node'.lock_queue ≡ contents node.lock_queue)
      × (reply : PeerMessage) × (reply.message_type ≡ reply_lock)
      × (node'.sent ≡ node.sent ++ (peer.sock, reply) ∷ [])
unfolding handle_request_lock send_peer_message update_timestamp peer_message_listen type_of_code
    type_code
peer_message_listen-serve_write o w key value line s1 s2 s3 node peer i id q st st' response b1 b2
      b3 h hk hv c1 c2 c3 t1 t2 t3 n1 n2 n3 w1 w2 w3 p n r free valid room front =
    let x : MessagePtr = record { address = b1.address; target = own_message request_lock s1 } in
    let m2 = write_message (some key) (some value) (write_code w) s2 in
    let e : Enqueued node.lock_queue x = enqueue_refines node.lock_queue x valid room in
    let asked = record (update_timestamp s1.timestamp node) { lock_queue = e.after } in
    let node1 = handle_request_lock peer asked in
    let node2 = update_timestamp m2.timestamp node1 in
    let node3 = record (update_timestamp s3.timestamp node2) {
      lock_queue = (dequeue node2.lock_queue).0;
    } in
    let held : contents e.after ≡ x ∷ contents node.lock_queue = e.stored ∙ front in
    let head : peek e.after ≡ some x = (peek_refines e.after e.valid).0 ∙ ap head? held in
    let taken : Dequeued e.after = dequeue_refines e.after e.valid in
    let read1 =
      unmarshall_pm-message_buffer o.spare request_lock s1.timestamp s1.node_id 0 (49 ∷ [])
        (49 ∷ []) b1.buffer t1 n1 (omega arith) IsToken-one IsToken-one refl (omega arith) c1 c1
        w1 in
    let read2 =
      unmarshall_pm-message_buffer o.spare server_write m2.timestamp s2.node_id (write_code w) key
        value b2.buffer (tick_fits s2 t2) (omega arith) (code_fits w) hk hv refl (omega arith) c2 c3
        w2 in
    let read3 =
      unmarshall_pm-message_buffer o.spare release_lock s3.timestamp s3.node_id 0 (49 ∷ [])
        (49 ∷ []) b3.buffer t3 (omega arith) (omega arith) IsToken-one IsToken-one refl
        (omega arith) c1 c1 w3 in
    let (status, wrote) =
      handled_write o w key value line s2 node1 peer b2.address i x st st' response h p head
        (sym n2) in
    (
      node3,
      listen-suc o b1 (b2 ∷ b3 ∷ []) x.target i node node1 st st 0 read1
            (handled_request o x node peer i id q st refl p n r free e)
          ∙ listen-suc o b2 (b3 ∷ []) m2 i node1 node2 st st' status read2 wrote
          ∙ listen-suc o b3 [] (own_message release_lock s3) i node2 node3 st' st' 0 read3 (
              handled_release o
                (record { address = b3.address; target = own_message release_lock s3 }) node2 peer i
                st' refl p),
      taken.rest ∙ ap tail held,
      own_message reply_lock (tick asked),
      refl,
      refl,
    )
