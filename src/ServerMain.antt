-- ===== src/ServerMain.antt =====
-- server-main.c, and the start of a node in run_server_1 of server-part1.c: the arguments of the program,
-- and the connections to the peers they name. What a connection comes to is a parameter. No peer connects
-- from outside while the loop over the peers runs: the thread that listens for them is not modelled. none
-- is a read through NULL.
pub mod Connects
mod Tests
use cse511_lab.Prelude.{
  ℕ, suc, ◌+◌, List, [], ◌∷◌, Option, none, some, ◌>>=◌, Bool, true, false, if◌then◌else◌,
}
use cse511_lab.CString.{CString}
use cse511_lab.PQueue.{reset}
use cse511_lab.BlockingNode.{Node, init_peer_array, connect_peer}
use cse511_lab.ServerPart1.Handler.{atoi, starts_with}

-- what `main` has found when it calls run_server_1: `blocking`, `node_id` where it is set, whether it has
-- called recover, and the rest of its arguments
pub record Start : Type 0 where
  pub blocking : Bool
  pub node_id : Option ℕ
  pub recovering : Bool
  pub peer_list : List CString

-- The ways out of `main`: the usage with the status 1, a missing number of the node with 1, arguments
-- that are none with -1, or the call of run_server_1.
pub data Plan : Type 0 where
  usage no_node_id invalid : Plan
  run : Start → Plan

-- "r"
abbrev pub recovery_flag : CString
recovery_flag = 114 ∷ []

-- `argv[i] && strncmp(argv[i], "r", 1) == 0` on the arguments from `argv[i]` on
unfoldable pub has_flag : List CString → Bool
unfolding starts_with
has_flag [] = false
has_flag (arg ∷ args) = starts_with recovery_flag arg

-- the arguments behind the flag
abbrev pub rest_of : List CString → List CString
rest_of [] = []
rest_of (arg ∷ args) = args

-- the case of `argv[1]` that starts with 2, from `argv[2]` on
unfoldable pub parse_blocking : List CString → Plan
unfolding has_flag atoi
parse_blocking [] = no_node_id
parse_blocking (id ∷ args) = run (record {
  blocking = true;
  node_id = some (atoi id);
  recovering = has_flag args;
  peer_list = if has_flag args then rest_of args else args;
})

-- `main` on the arguments from `argv[1]` on
unfoldable pub parse_args : List CString → Plan
unfolding parse_blocking has_flag starts_with
parse_args [] = usage
parse_args (mode ∷ args) =
    if starts_with (49 ∷ []) mode
    then run
        (record { blocking = false; node_id = none; recovering = has_flag args; peer_list = [] })
    else if starts_with (50 ∷ []) mode
    then parse_blocking args
    else invalid

-- `initialize_blocking_node`
unfoldable pub initialize_blocking_node : Node → Node
unfolding init_peer_array reset
initialize_blocking_node node =
    init_peer_array (record node { lock_queue = reset node.lock_queue; timestamp = 0 })

module _ (network : CString → ℕ → Option (ℕ × ℕ)) where
  -- `connect_peer`, where the network gives a socket and the number of the peer
  unfoldable pub connect_to : CString → CString → Node → Node
  unfolding connect_peer atoi
  connect_to ip port node = elim (network ip (atoi port)) [
    | none ↦ node
    | some (sock, id) ↦ (connect_peer sock (some id) node).0
  ]

  -- the loop of `run_server_1` over the pairs of an address and a port
  unfoldable pub connect_peers : List CString → Node → Option Node
  unfolding connect_to
  connect_peers [] node = some node
  connect_peers (ip ∷ []) node = none
  connect_peers (ip ∷ port ∷ rest) node = connect_peers rest (connect_to ip port node)

  -- the number of the node, or the one that it has
  abbrev pub with_id : Option ℕ → Node → Node
  with_id none node = node
  with_id (some id) node = record node { node_id = id }

  -- the node behind `if (blocking) …` of `run_server_1`
  unfoldable pub start_node : Start → Node → Option Node
  unfolding initialize_blocking_node connect_peers
  start_node s node =
      if s.blocking
      then connect_peers s.peer_list (initialize_blocking_node (with_id s.node_id node))
      else some node
