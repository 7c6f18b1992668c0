-- ===== src/ServerMain/Tests.antt =====
-- Instances of the theorems about the start of a server, and tests.
use cse511_lab.Prelude.{ℕ, [], ◌∷◌, List, Option, none, some, ◌≡◌, refl, true, ◌==◌, if◌then◌else◌}
use cse511_lab.CString.{CString}
use cse511_lab.Blocking.Tests.{quiet}
use cse511_lab.BlockingNode.{Node, max_peers}
use cse511_lab.ServerPart1.Handler.{atoi}
use cse511_lab.ServerMain.{Start, has_flag, usage, no_node_id, invalid, run, parse_args, start_node}
use cse511_lab.ServerMain.Connects.{filled, made, flat, parse_args-start_node}

-- a network in which port 8 answers
abbrev network : CString → ℕ → Option (ℕ × ℕ)
network ip port = if port == 8 then some (4, 1) else none

-- "h", and the ports "8" and "9"
abbrev pairs : List (CString × CString)
pairs = ((104 ∷ []), (56 ∷ [])) ∷ ((104 ∷ []), (57 ∷ [])) ∷ []

parse_args-start_node_example :
    (s : Start) × (parse_args ((50 ∷ []) ∷ (51 ∷ []) ∷ (114 ∷ []) ∷ flat pairs) ≡ run s)
    × (s.recovering ≡ true)
    × (node' : Node) × (start_node network s quiet ≡ some node')
    × (node'.node_id ≡ atoi (51 ∷ []))
    × (node'.peers ≡ filled (made network pairs) max_peers)
unfolding has_flag
parse_args-start_node_example = parse_args-start_node network [] (51 ∷ []) [] true pairs quiet refl

no_arguments : parse_args [] ≡ usage
unfolding parse_args
no_arguments = refl

no_number : parse_args ((50 ∷ []) ∷ []) ≡ no_node_id
unfolding parse_args
no_number = refl

unknown_mode : parse_args ((51 ∷ []) ∷ []) ≡ invalid
unfolding parse_args
unknown_mode = refl
