-- ===== src/Blocking/Quorum.antt =====
-- The replies behind a lock that server_handler_blocking of server-part1.c holds.
use cse511_lab.Prelude.{
  ℕ, ◌+◌, ◌≤◌, List, [], ◌∷◌, Option, none, some, ◌>>=◌, ◌≡◌, subst, arith, Bool, true, false,
  Bool-cases, Option-cases, inl, inr, bind_elim,
}
use cse511_lab.Prelude.Signed.{ℤ, pos, negsuc}
use cse511_lab.DataTypes.{MessagePtr}
use cse511_lab.BlockingNode.{
  Node, lock_begin, replies_quorum, lock_replied, lock_held, broadcast_write,
}
use cse511_lab.ServerPart1.{Server}
use cse511_lab.ServerPart1.Abd.{Surroundings}
use cse511_lab.ServerPart1.Handler.{Attempt, logged}
use cse511_lab.Blocking.{
  Phase, starting, waiting, queued, holding, logging, served, written, released, State, Event,
  peer_message, call_lock, see_quorum, see_head, write_log, serve, send_write, unlock, WriteRequest,
  serve_write, write_code, server_requests, thread_step, step, run_events,
}
use cse511_lab.BlockingNode.Replies.{
  reply_of, Began, lock_begin-replies, Handled, handle_peer_message-replies,
}

-- 1 for a reply of a peer
abbrev pub is_reply : Event → ℕ
is_reply (peer_message m i) = reply_of m.target.message_type
is_reply e = 0

-- the replies among the events
abbrev pub replies : List Event → ℕ
replies [] = 0
replies (e ∷ es) = is_reply e + replies es

-- the phases behind distributed_lock
abbrev pub has_lock : Phase → Bool
has_lock starting = false
has_lock (waiting msg) = false
has_lock (queued msg) = false
has_lock p = true

module _ (o : Surroundings) (attempts : List Attempt) (r : WriteRequest) where
  -- where a thread of a phase may be, when a node has counted so many replies and so many have come
  abbrev Counted : Phase → ℕ → ℕ → Type 0
  Counted starting a n = a ≤ n
  Counted (waiting msg) a n = a ≤ n
  Counted p a n = replies_quorum ≤ n

  abbrev After : ℕ → Option State → Type 0
  After n none = Unit
  After n (some s) = Counted s.phase s.node.replies_received n

  Counted-mono : (p : Phase) (a a' n k : ℕ) → a' ≤ a + k → Counted p a n → Counted p a' (n + k)
  Counted-mono starting a a' n k h c = omega arith
  Counted-mono (waiting msg) a a' n k h c = omega arith
  Counted-mono p a a' n k h c = omega arith

  After-begin :
      (server : Server) (n : ℕ) (begun : Option (Node × MessagePtr × ℤ))
      → Began n begun
      → After n (
          begun >>= λ (node, msg, status). some (record {
            phase = elim status [ pos k ↦ waiting msg | negsuc k ↦ starting ];
            node = node;
            server = server;
          }))
  After-begin server n none h = tt
  After-begin server n (some (node, msg, pos k)) h = h
  After-begin server n (some (node, msg, negsuc k)) h = h

  at_starting :
      (e : Event) (node : Node) (server : Server) (n : ℕ)
      → node.replies_received ≤ n
      → After n
          (thread_step o attempts r e (record { phase = starting; node = node; server = server }))
  unfolding thread_step
  at_starting (call_lock address) node server n h =
      unfold thread_step in
      After-begin server n (lock_begin address node) (lock_begin-replies address node n h)
  at_starting e node server n h = tt

  at_waiting :
      (e : Event) (msg : MessagePtr) (node : Node) (server : Server) (n : ℕ)
      → node.replies_received ≤ n
      → After n (
          thread_step o attempts r e (record { phase = waiting msg; node = node; server = server }))
  unfolding thread_step lock_replied
  at_waiting see_quorum msg node server n h = ground arith
  at_waiting e msg node server n h = tt

  at_queued :
      (e : Event) (msg : MessagePtr) (node : Node) (server : Server) (n : ℕ)
      → replies_quorum ≤ n
      → After n
          (thread_step o attempts r e (record { phase = queued msg; node = node; server = server }))
  unfolding thread_step
  at_queued see_head msg node server n h = elim (Bool-cases (lock_held node msg)) [
    | inl p ↦ rw p h
    | inr p ↦ rw p tt
  ]
  at_queued e msg node server n h = tt

  at_holding :
      (e : Event) (node : Node) (server : Server) (n : ℕ)
      → replies_quorum ≤ n
      → After n
          (thread_step o attempts r e (record { phase = holding; node = node; server = server }))
  unfolding thread_step
  at_holding write_log node server n h =
      bind_elim (After n) tt (logged attempts r.line server) _ λ server'. h
  at_holding e node server n h = tt

  at_logging :
      (e : Event) (node : Node) (server : Server) (n : ℕ)
      → replies_quorum ≤ n
      → After n
          (thread_step o attempts r e (record { phase = logging; node = node; server = server }))
  unfolding thread_step
  at_logging serve node server n h =
      bind_elim (After n) tt (serve_write o r server) _ λ (server', response). h
  at_logging e node server n h = tt

  at_served :
      (e : Event) (response : List ℕ) (node : Node) (server : Server) (n : ℕ)
      → replies_quorum ≤ n
      → After n (
          thread_step o attempts r e
            (record { phase = served response; node = node; server = server }))
  unfolding thread_step
  at_served send_write response node server n h =
      bind_elim (After n) tt
        (broadcast_write o.spare (some r.key) r.value (write_code r.write) node) _ λ node'. h
  at_served e response node server n h = tt

  at_written :
      (e : Event) (response : List ℕ) (node : Node) (server : Server) (n : ℕ)
      → replies_quorum ≤ n
      → After n (
          thread_step o attempts r e
            (record { phase = written response; node = node; server = server }))
  unfolding thread_step
  at_written unlock response node server n h = h
  at_written e response node server n h = tt

  thread_step-Counted :
      (e : Event) (p : Phase) (node : Node) (server : Server) (n : ℕ)
      → Counted p node.replies_received n
      → After n (thread_step o attempts r e (record { phase = p; node = node; server = server }))
  thread_step-Counted e starting node server n h = at_starting e node server n h
  thread_step-Counted e (waiting msg) node server n h = at_waiting e msg node server n h
  thread_step-Counted e (queued msg) node server n h = at_queued e msg node server n h
  thread_step-Counted e holding node server n h = at_holding e node server n h
  thread_step-Counted e logging node server n h = at_logging e node server n h
  thread_step-Counted e (served response) node server n h = at_served e response node server n h
  thread_step-Counted e (written response) node server n h = at_written e response node server n h
  thread_step-Counted e (released response) node server n h = unfold thread_step in tt

  After-message :
      (p : Phase) (a n k : ℕ) (x : Option (Node × Server × ℤ))
      → Counted p a n
      → Handled (a + k) x
      → After (n + k) (
          x >>= λ (node, server, status). some (record { phase = p; node = node; server = server }))
  After-message p a n k none c h = tt
  After-message p a n k (some (node, server, status)) c h =
      Counted-mono p a node.replies_received n k h c

  step-Counted :
      (e : Event) (s : State) (n : ℕ)
      → Counted s.phase s.node.replies_received n
      → After (n + is_reply e) (step o attempts r e s)
  unfolding step
  step-Counted (peer_message message i) s n h =
      After-message s.phase s.node.replies_received n (reply_of message.target.message_type) _ h
        (handle_peer_message-replies (server_requests o) message i s.node s.server)
  step-Counted e s n h =
      let none_more : n ≡ n + 0 = omega arith in
      subst (λ k. After k (thread_step o attempts r e s)) none_more
        (thread_step-Counted e s.phase s.node s.server n h)

  run_events-Counted :
      (es : List Event) (s : State) (n m : ℕ)
      → Counted s.phase s.node.replies_received n
      → n + replies es ≡ m
      → After m (run_events o attempts r es s)
  unfolding run_events
  run_events-Counted [] s n m h same =
      let sum : n ≡ m = omega arith in subst (λ k. Counted s.phase s.node.replies_received k) sum h
  run_events-Counted (e ∷ es) s n m h same = elim (Option-cases (step o attempts r e s)) [
    | inl p ↦ rw p tt
    | inr (s', p) ↦
        let stepped : After (n + is_reply e) (step o attempts r e s) = step-Counted e s n h in
        let there = rw p at stepped in
        rw p (run_events-Counted es s' (n + is_reply e) m there (omega arith))
  ]

  Counted-has_lock : (p : Phase) (a n : ℕ) → has_lock p ≡ true → Counted p a n → replies_quorum ≤ n
  Counted-has_lock starting a n h c = cc
  Counted-has_lock (waiting msg) a n h c = cc
  Counted-has_lock p a n h c = c

  -- Where a run of the thread of a write and of the messages of peers, from a node that has counted no
  -- replies, has come to hold the lock, at least a quorum of replies has been handled in it.
  pub has_lock-replies :
      (es : List Event) (node : Node) (server : Server) (s : State)
      → node.replies_received ≡ 0
      → run_events o attempts r es (record { phase = starting; node = node; server = server })
        ≡ some s
      → has_lock s.phase ≡ true
      → replies_quorum ≤ replies es
  has_lock-replies es node server s none_counted run lock =
      let start : State = record { phase = starting; node = node; server = server } in
      let reached : After (replies es) (run_events o attempts r es start) =
        run_events-Counted es start 0 (replies es) (omega arith) (omega arith) in
      let there = rw run at reached in
      Counted-has_lock s.phase s.node.replies_received (replies es) lock there
