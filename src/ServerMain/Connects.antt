-- ===== src/ServerMain/Connects.antt =====
-- The peers of a node behind its start in server-main.c and run_server_1 of server-part1.c.
use cse511_lab.Prelude.{
  ℕ, zero, suc, ◌+◌, ◌≤◌, List, [], ◌∷◌, ◌++◌, Option, none, some, ◌≡◌, refl, ap, sym, ◌∙◌, subst,
  arith, Bool, true, false, if◌then◌else◌, set, length, Option-cases, inl, inr, append_assoc,
  append-nil,
}
use native.Mathlib.Decide.{dec_le}
use cse511_lab.CString.{CString}
use cse511_lab.DataTypes.{Peer}
use cse511_lab.BlockingNode.{
  Node, max_peers, empty_peer, connected, next_free, next_peer_index, connect_peer,
}
use cse511_lab.ServerPart1.Handler.{atoi}
use cse511_lab.ServerMain.{
  Start, run, has_flag, parse_args, initialize_blocking_node, connect_to, connect_peers, start_node,
}

-- the peer of a connection
abbrev pub peer_of : ℕ × ℕ → Peer
peer_of (sock, id) = connected sock (some id)

-- so many slots: the first connections, and empty ones behind them
abbrev pub filled : List (ℕ × ℕ) → ℕ → List Peer
filled xs zero = []
filled [] (suc m) = empty_peer ∷ filled [] m
filled (x ∷ xs) (suc m) = peer_of x ∷ filled xs m

next_free_full : (xs : List (ℕ × ℕ)) (m i : ℕ) → m ≤ length xs → next_free (filled xs m) i ≡ none
unfolding next_free
next_free_full xs zero i h = refl
next_free_full [] (suc m) i h = absurd (omega arith)
next_free_full (x ∷ xs) (suc m) i h = next_free_full xs m (i + 1) (omega arith)

next_free_room :
    (xs : List (ℕ × ℕ)) (m i : ℕ)
    → suc (length xs) ≤ m
    → next_free (filled xs m) i ≡ some (i + length xs)
unfolding next_free
next_free_room xs zero i h = absurd (omega arith)
next_free_room [] (suc m) i h = ap some (omega arith)
next_free_room (x ∷ xs) (suc m) i h =
    next_free_room xs m (i + 1) (omega arith) ∙ ap some (omega arith)

set-filled :
    (xs : List (ℕ × ℕ)) (m : ℕ) (y : ℕ × ℕ)
    → suc (length xs) ≤ m
    → set (filled xs m) (length xs) (peer_of y) ≡ filled (xs ++ y ∷ []) m
set-filled xs zero y h = absurd (omega arith)
set-filled [] (suc m) y h = refl
set-filled (x ∷ xs) (suc m) y h = ap (◌∷◌ (peer_of x)) (set-filled xs m y (omega arith))

filled_full :
    (xs : List (ℕ × ℕ)) (m : ℕ) (y : ℕ × ℕ) → m ≤ length xs → filled xs m ≡ filled (xs ++ y ∷ []) m
filled_full xs zero y h = refl
filled_full [] (suc m) y h = absurd (omega arith)
filled_full (x ∷ xs) (suc m) y h = ap (◌∷◌ (peer_of x)) (filled_full xs m y (omega arith))

-- the node with these connections, which keeps its number
record Holds (id : ℕ) (xs : List (ℕ × ℕ)) (node : Node) : Type 0 where
  peers_are : node.peers ≡ filled xs max_peers
  id_is : node.node_id ≡ id

connect_peer-Holds :
    (id : ℕ) (xs : List (ℕ × ℕ)) (y : ℕ × ℕ) (node : Node)
    → Holds id xs node
    → Holds id (xs ++ y ∷ []) (connect_peer y.0 (some y.1) node).0
unfolding connect_peer next_peer_index
connect_peer-Holds id xs y node h = elim (dec_le (suc (length xs)) max_peers) [
  | yes room ↦
      let found : next_free node.peers 0 ≡ some (length xs) =
        ap (λ ps. next_free ps 0) h.peers_are
        ∙ next_free_room xs max_peers 0 room
        ∙ ap some (omega arith) in
      rw (found, connect_peer)
        (record {
          peers_are =
              ap (λ ps. set ps (length xs) (peer_of y)) h.peers_are
              ∙ set-filled xs max_peers y room;
          id_is = h.id_is;
        })
  | no full ↦
      let missing : next_free node.peers 0 ≡ none =
        ap (λ ps. next_free ps 0) h.peers_are ∙ next_free_full xs max_peers 0 (omega arith) in
      rw (missing, connect_peer)
        (record {
          peers_are = h.peers_are ∙ filled_full xs max_peers y (omega arith);
          id_is = h.id_is;
        })
]

-- the arguments of these addresses and ports
abbrev pub flat : List (CString × CString) → List CString
flat [] = []
flat ((ip, port) ∷ pairs) = ip ∷ port ∷ flat pairs

module _ (network : CString → ℕ → Option (ℕ × ℕ)) where
  -- the connections that come about, in the order of the arguments
  abbrev pub made : List (CString × CString) → List (ℕ × ℕ)
  made [] = []
  made ((ip, port) ∷ pairs) = elim (network ip (atoi port)) [
    | none ↦ made pairs
    | some y ↦ y ∷ made pairs
  ]

  connect_peers-Holds :
      (id : ℕ) (pairs : List (CString × CString)) (xs : List (ℕ × ℕ)) (node : Node)
      → Holds id xs node
      → (node' : Node) × (connect_peers network (flat pairs) node ≡ some node')
        × Holds id (xs ++ made pairs) node'
  unfolding connect_peers connect_to
  connect_peers-Holds id [] xs node h =
      (node, refl, subst (λ ys. Holds id ys node) (sym (append-nil xs)) h)
  connect_peers-Holds id ((ip, port) ∷ pairs) xs node h =
      elim (Option-cases (network ip (atoi port))) [
        | inl e ↦
            let same : connect_to network ip port node ≡ node = rw (e, connect_to) in
            let none_made : made ((ip, port) ∷ pairs) ≡ made pairs = rw (e, made) in
            let (node', done, holds) = connect_peers-Holds id pairs xs node h in
            (
              node',
              ap (connect_peers network (flat pairs)) same ∙ done,
              subst (λ ys. Holds id (xs ++ ys) node') (sym none_made) holds,
            )
        | inr (y, e) ↦
            let same : connect_to network ip port node ≡ (connect_peer y.0 (some y.1) node).0 =
              rw (e, connect_to) in
            let one_made : made ((ip, port) ∷ pairs) ≡ y ∷ made pairs = rw (e, made) in
            let next = connect_peer-Holds id xs y node h in
            let (node', done, holds) =
              connect_peers-Holds id pairs (xs ++ y ∷ []) (connect_peer y.0 (some y.1) node).0
                next in
            (
              node',
              ap (connect_peers network (flat pairs)) same ∙ done,
              subst (λ ys. Holds id ys node')
                  (append_assoc xs (y ∷ []) (made pairs) ∙ sym (ap (λ ys. xs ++ ys) one_made))
                  holds,
            )
      ]

parsed :
    (mode id flag : CString) (recovering : Bool) (pairs : List (CString × CString))
    → has_flag (flat pairs) ≡ false
    → parse_args ((50 ∷ mode) ∷ id ∷ (if recovering then (114 ∷ flag) ∷ flat pairs else flat pairs))
      ≡ run (record {
        blocking = true;
        node_id = some (atoi id);
        recovering = recovering;
        peer_list = flat pairs;
      })
unfolding parse_args
parsed mode id flag true pairs plain = refl
parsed mode id flag false pairs plain = rw plain refl

-- main in its blocking mode, with or without the flag of the recovery in front of a list of addresses and
-- ports the first of which is no such flag: run_server_1 starts a node with the number from the arguments,
-- whose peers are the first ten of the connections that come about, in their order, in the first slots.
pub parse_args-start_node :
    (network : CString → ℕ → Option (ℕ × ℕ)) (mode id flag : CString) (recovering : Bool)
    (pairs : List (CString × CString)) (node : Node)
    → has_flag (flat pairs) ≡ false
    → (s : Start) × (parse_args
          ((50 ∷ mode) ∷ id ∷ (if recovering then (114 ∷ flag) ∷ flat pairs else flat pairs))
        ≡ run s)
      × (s.recovering ≡ recovering)
      × (node' : Node) × (start_node network s node ≡ some node')
      × (node'.node_id ≡ atoi id)
      × (node'.peers ≡ filled (made network pairs) max_peers)
unfolding parse_args start_node
parse_args-start_node network mode id flag recovering pairs node plain =
    let begun : Holds (atoi id) [] (initialize_blocking_node (record node { node_id = atoi id })) =
      record { peers_are = refl; id_is = refl } in
    let (node', done, holds) =
      connect_peers-Holds network (atoi id) pairs []
        (initialize_blocking_node (record node { node_id = atoi id })) begun in
    let s : Start = record {
      blocking = true;
      node_id = some (atoi id);
      recovering = recovering;
      peer_list = flat pairs;
    } in
    (s, parsed mode id flag recovering pairs plain, refl, node', done, holds.id_is, holds.peers_are)

-- the loop reads the port behind the last address, which is missing in a list of odd length
pub connect_peers_odd :
    (network : CString → ℕ → Option (ℕ × ℕ)) (pairs : List (CString × CString)) (ip : CString)
    (node : Node)
    → connect_peers network (flat pairs ++ ip ∷ []) node ≡ none
unfolding connect_peers
connect_peers_odd network [] ip node = refl
connect_peers_odd network ((a, p) ∷ pairs) ip node =
    connect_peers_odd network pairs ip (connect_to network a p node)
