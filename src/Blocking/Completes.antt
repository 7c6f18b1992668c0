-- ===== src/Blocking/Completes.antt =====
-- The way of a write in server_handler_blocking of server-part1.c through the lock to its answer.
use cse511_lab.Prelude.{ℕ, ◌≤◌, List, [], ◌∷◌, some, ◌≡◌, refl, arith, true, leb}
use cse511_lab.DataTypes.{MessagePtr}
use cse511_lab.BlockingNode.{
  Node, replies_quorum, lock_replied, lock_held, has_room, update_timestamp, distributed_unlock,
}
use cse511_lab.Blocking.Sent.{WriteSent, unlock-broadcast_write_sent}
use cse511_lab.ServerPart1.{Server}
use cse511_lab.ServerPart1.Abd.{Surroundings}
use cse511_lab.ServerPart1.Handler.{Attempt, logged}
use cse511_lab.Blocking.{
  waiting, released, State, Event, see_quorum, see_head, write_log, serve, send_write, unlock,
  WriteRequest, write_code, serve_write, thread_step, step, run_events,
}

-- the rest of the thread, when nothing comes between its steps
abbrev pub undisturbed : List Event
undisturbed = see_quorum ∷ see_head ∷ write_log ∷ serve ∷ send_write ∷ unlock ∷ []

-- A thread that waits for replies, on a node that has counted a quorum of them and whose queue has its
-- request at the head, comes in six steps to its answer, where the journal and the request return and
-- calloc leaves a byte behind the copies of the key and the value: the request is served once; the node
-- has sent the write and then the release to each of its valid peers, and nothing else; and the head of the
-- queue, its request, is gone.
pub undisturbed_completes :
    (o : Surroundings) (attempts : List Attempt) (r : WriteRequest) (msg : MessagePtr) (node : Node)
    (st logged_st st' : Server) (response : List ℕ)
    → replies_quorum ≤ node.replies_received
    → lock_held node msg ≡ true
    → logged attempts r.line st ≡ some logged_st
    → serve_write o r logged_st ≡ some (st', response)
    → has_room o.spare (some r.key) ≡ true
    → has_room o.spare r.value ≡ true
    → (s : State) × (run_events o attempts r undisturbed
          (record { phase = waiting msg; node = node; server = st })
        ≡ some s)
      × (s.phase ≡ released response)
      × (s.server ≡ st')
      × WriteSent (some r.key) r.value (write_code r.write) node s.node
unfolding run_events step thread_step lock_replied
undisturbed_completes o attempts r msg node st logged_st st' response enough head l h rk rv =
    let replied : leb replies_quorum node.replies_received ≡ true = ground arith in
    let node1 = record node { replies_received = 0 } in
    let first : lock_held node1 msg ≡ true = unfold lock_held in head in
    let (wrote, sends, sent) =
      unlock-broadcast_write_sent o.spare (some r.key) r.value (write_code r.write) node1 rk rv in
    let last : State = record {
      phase = released response;
      node = distributed_unlock wrote;
      server = st';
    } in
    (
      last,
      rw (replied, first, l, h, sends) refl,
      refl,
      refl,
      record {
        release = sent.release;
        releases = sent.releases;
        time = sent.time;
        sent = unfold update_timestamp in sent.sent;
        lock_queue = sent.lock_queue;
      },
    )
