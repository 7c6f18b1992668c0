-- ===== src/ServerPart1/Lines.antt =====
-- Lines of clients, as server_handler of server-part1.c takes them apart, and its journal.
use cse511_lab.Prelude.{List, [], ◌∷◌, ◌++◌, none, ◌≡◌, refl, true, false, Bool-cases, inl, inr}
use cse511_lab.CString.{CString}
use cse511_lab.CString.Tokens.{IsToken, strtok-blank, strtok_end}
use cse511_lab.Abd.{Tag}
use cse511_lab.Journal.{JournalState, log_transaction}
use cse511_lab.ServerPart1.{Server}
use cse511_lab.ServerPart1.Abd.{Surroundings}
use cse511_lab.ServerPart1.Handler.{Attempt, atoi, log_until, serve_abd, server_handler}

-- A line of a command and a key alone, as the clients without tags send it, crashes server_handler: it
-- reads the number of a missing tag.
pub server_handler_short :
    (o : Surroundings) (attempts : List Attempt) (unset : Tag) (command key : CString) (st : Server)
    → IsToken command
    → IsToken key
    → server_handler o attempts unset (command ++ 32 ∷ key) st ≡ none
unfolding server_handler
server_handler_short o attempts unset command key st c k =
    rw (strtok-blank command key c, strtok_end key k)

-- The tokens of a line of five, and the branches of the handler.
pub server_handler_line :
    (o : Surroundings) (attempts : List Attempt) (unset : Tag) (c k v t i : CString) (st : Server)
    → IsToken c
    → IsToken k
    → IsToken v
    → IsToken t
    → IsToken i
    → server_handler o attempts unset (c ++ 32 ∷ (k ++ 32 ∷ (v ++ 32 ∷ (t ++ 32 ∷ i)))) st
      ≡ serve_abd o attempts unset
          (c ++ 32 ∷ (k ++ 32 ∷ (v ++ 32 ∷ (t ++ 32 ∷ i))))
          c
          k
          v
          (record { timestamp = atoi t; client_id = atoi i })
          st
unfolding server_handler
server_handler_line o attempts unset c k v t i st hc hk hv ht hi =
    let first = strtok-blank c (k ++ 32 ∷ (v ++ 32 ∷ (t ++ 32 ∷ i))) hc in
    let second = strtok-blank k (v ++ 32 ∷ (t ++ 32 ∷ i)) hk in
    let third = strtok-blank v (t ++ 32 ∷ i) hv in
    let fourth = strtok-blank t i ht in
    rw (first, second, third, fourth, strtok_end i hi, first, second, first, second, third)

-- a locked mutex blocks the loop
log_until_locked :
    (attempts : List Attempt) (line : CString) (j : JournalState)
    → j.locked ≡ true
    → log_until attempts line j ≡ none
unfolding log_until log_transaction
log_until_locked [] line j l = refl
log_until_locked (a ∷ attempts) line j l = rw (l, log_until) refl

log_until_first :
    (a : Attempt) (attempts : List Attempt) (line : CString) (j : JournalState)
    → a.opens ≡ false
    → j.locked ≡ false
    → log_until (a ∷ attempts) line j ≡ none
unfolding log_until log_transaction
log_until_first a attempts line j closed l =
    rw (l, log_until, closed) (log_until_locked attempts line (record j { locked = true }) refl)

-- A call of log_transaction that finds no file leaves the mutex locked, and the loop around it blocks
-- for ever, whatever the later calls would do.
pub log_until_closed :
    (a : Attempt) (attempts : List Attempt) (line : CString) (j : JournalState)
    → a.opens ≡ false
    → log_until (a ∷ attempts) line j ≡ none
log_until_closed a attempts line j closed = elim (Bool-cases j.locked) [
  | inl l ↦ log_until_locked (a ∷ attempts) line j l
  | inr l ↦ log_until_first a attempts line j closed l
]
