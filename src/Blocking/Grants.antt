-- ===== src/Blocking/Grants.antt =====
-- The replies that give server_handler_blocking of server-part1.c the lock.
use mathlib.Core.List.{head?}
use cse511_lab.Prelude.{
  ℕ, suc, ◌+◌, ◌<◌, ◌≤◌, List, [], ◌∷◌, ◌++◌, some, ◌≡◌, refl, ap, ◌∙◌, arith, true, false,
  get_elem?, get_elem?_in, set, length, length-set, Bool-cases, inl, inr, ◌==◌, leb,
}
use cse511_lab.Prelude.Signed.{pos}
use cse511_lab.DataTypes.{MessagePtr, Peer, request_lock, reply_lock}
use cse511_lab.PQueue.{max_slots, peek}
use cse511_lab.PQueue.Sorted.{insert}
use cse511_lab.PQueue.Refine.{IsValid, contents, Enqueued, enqueue_refines, peek_refines}
use cse511_lab.BlockingNode.{
  Node, Requested, update_timestamp, tick, own_message, note_requests, lock_begin, lock_replied,
  lock_held, replies_quorum,
}
use cse511_lab.BlockingNode.Handlers.{handle_peer_message, on_reply_lock, answer_pending}
use cse511_lab.ServerPart1.{Server}
use cse511_lab.ServerPart1.Abd.{Surroundings}
use cse511_lab.ServerPart1.Handler.{Attempt}
use cse511_lab.Blocking.{
  starting, waiting, holding, State, peer_message, call_lock, see_quorum, see_head, WriteRequest,
  server_requests, thread_step, step, run_events,
}
use cse511_lab.Blocking.Sent.{to_valid, broadcast_lem}

length-note_requests :
    (ts : ℕ) (ps : List Peer) (qs : List Requested) → length (note_requests ts ps qs) ≡ length qs
unfolding note_requests
length-note_requests ts [] qs = refl
length-note_requests ts (p ∷ ps) [] = refl
length-note_requests ts (p ∷ ps) (q ∷ qs) = elim (Bool-cases p.valid) [
  | inl v ↦ rw v (ap suc (length-note_requests ts ps qs))
  | inr v ↦ rw v (ap suc (length-note_requests ts ps qs))
]

-- the node behind a reply of a peer that waits for no answer
abbrev counted : ℕ → ℕ → Requested → Node → Node
counted ts id q node = record (update_timestamp ts node) {
  requests = set node.requests id (record q { requested_lock = false });
  replies_received = node.replies_received + 1;
}

handled_reply :
    (o : Surroundings) (m : MessagePtr) (node : Node) (peer : Peer) (i id : ℕ) (q : Requested)
    (st : Server)
    → m.target.message_type ≡ reply_lock
    → get_elem? node.peers i ≡ some peer
    → peer.peer_node_id ≡ some id
    → get_elem? node.requests id ≡ some q
    → peer.peer_request_lock_pending ≡ false
    → handle_peer_message (server_requests o) m i node st
      ≡ some (counted m.target.timestamp id q node, st, pos 0)
unfolding handle_peer_message on_reply_lock answer_pending update_timestamp
handled_reply o m node peer i id q st t p n r idle = rw (p, t, idle, n, r)

-- the request of a node at an address
abbrev pub request_at : ℕ → Node → MessagePtr
request_at address node = record {
  address = address;
  target = own_message request_lock (tick node);
}

-- the node behind the requests that distributed_lock sends
abbrev asked :
    (address : ℕ) (node : Node) → Enqueued node.lock_queue (request_at address node) → Node
asked address node e =
    let node2 = record (tick node) {
      lock_queue = e.after;
      sent = node.sent ++ to_valid (own_message request_lock (tick node)) node.peers;
    } in
    record node2 { requests = note_requests node2.timestamp node.peers node.requests }

begun :
    (address : ℕ) (node : Node) (e : Enqueued node.lock_queue (request_at address node))
    → lock_begin address node ≡ some (asked address node e, request_at address node, pos 0)
unfolding lock_begin update_timestamp
begun address node e =
    let node2 = record (tick node) { lock_queue = e.after } in
    rw (e.status, broadcast_lem (own_message request_lock (tick node)) node.peers node2)

lock_held_lem :
    (x : MessagePtr) (node : Node) → peek node.lock_queue ≡ some x → lock_held node x ≡ true
unfolding lock_held
lock_held_lem x node head =
    let own : (x.address == x.address) ≡ true = ground arith in rw (head, lock_held) (rw own)

-- a thread that waits on a node with a quorum of replies, at the head of whose queue its request stands
seen :
    (o : Surroundings) (attempts : List Attempt) (r : WriteRequest) (x : MessagePtr) (node : Node)
    (st : Server)
    → replies_quorum ≤ node.replies_received
    → peek node.lock_queue ≡ some x
    → run_events o attempts r
        (see_quorum ∷ see_head ∷ [])
        (record { phase = waiting x; node = node; server = st })
      ≡ some (record { phase = holding; node = record node { replies_received = 0 }; server = st })
unfolding run_events step thread_step lock_replied
seen o attempts r x node st enough head =
    let replied : leb replies_quorum node.replies_received ≡ true = ground arith in
    let held : lock_held (record node { replies_received = 0 }) x ≡ true =
      lock_held_lem x (record node { replies_received = 0 }) head in
    rw (replied, held)

-- A thread whose request comes before what the valid queue of its node holds, where there is room, has
-- the lock behind any two replies of peers that wait for no answer: of whichever peers, also of one
-- alone, and however many peers there are.
pub two_replies_suffice :
    (o : Surroundings) (attempts : List Attempt) (r : WriteRequest) (address : ℕ) (node : Node)
    (st : Server) (m1 m2 : MessagePtr) (p1 p2 : Peer) (i1 i2 id1 id2 : ℕ)
    → m1.target.message_type ≡ reply_lock
    → m2.target.message_type ≡ reply_lock
    → get_elem? node.peers i1 ≡ some p1
    → get_elem? node.peers i2 ≡ some p2
    → p1.peer_node_id ≡ some id1
    → p2.peer_node_id ≡ some id2
    → id1 < length node.requests
    → id2 < length node.requests
    → p1.peer_request_lock_pending ≡ false
    → p2.peer_request_lock_pending ≡ false
    → IsValid node.lock_queue
    → length (contents node.lock_queue) < max_slots
    → insert (request_at address node) (contents node.lock_queue)
      ≡ request_at address node ∷ contents node.lock_queue
    → (s : State) × (run_events o attempts r
          (call_lock address ∷ peer_message m1 i1 ∷ peer_message m2 i2 ∷ see_quorum ∷ see_head ∷ [])
          (record { phase = starting; node = node; server = st })
        ≡ some s)
      × (s.phase ≡ holding)
      × (s.server ≡ st)
unfolding run_events step thread_step update_timestamp
two_replies_suffice o attempts r address node st m1 m2 p1 p2 i1 i2 id1 id2 t1 t2 f1 f2 n1 n2 l1 l2
      w1 w2 valid room front =
    let x = request_at address node in
    let e : Enqueued node.lock_queue x = enqueue_refines node.lock_queue x valid room in
    let a = asked address node e in
    let size = length-note_requests (tick node).timestamp node.peers node.requests in
    let (q1, r1) = get_elem?_in a.requests id1 (omega arith) in
    let b = counted m1.target.timestamp id1 q1 a in
    let same = length-set a.requests id1 (record q1 { requested_lock = false }) in
    let (q2, r2) = get_elem?_in b.requests id2 (omega arith) in
    let c = counted m2.target.timestamp id2 q2 b in
    let first = handled_reply o m1 a p1 i1 id1 q1 st t1 f1 n1 r1 w1 in
    let second = handled_reply o m2 b p2 i2 id2 q2 st t2 f2 n2 r2 w2 in
    let head : peek e.after ≡ some x =
      (peek_refines e.after e.valid).0 ∙ ap head? (e.stored ∙ front) in
    let rest = seen o attempts r x c st (omega arith) head in
    (
      record { phase = holding; node = record c { replies_received = 0 }; server = st },
      rw (begun address node e, first, second) rest,
      refl,
      refl,
    )
