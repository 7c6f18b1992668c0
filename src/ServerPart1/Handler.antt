-- ===== src/ServerPart1/Handler.antt =====
-- One line of a client in server_handler of server-part1.c, and the journal in front of it.
use cse511_lab.Prelude.{
  ℕ, ◌-◌, ◌%◌, ◌^◌, List, [], ◌∷◌, Option, none, some, ◌>>=◌, Bool, true, false, ltb, ◌==◌, ◌&&◌,
  if◌then◌else◌,
}
use cse511_lab.Prelude.Signed.{pos, negsuc}
use cse511_lab.CString.{CString, skip_spaces, take_digits}
use cse511_lab.CString.Tokens.{strtok}
use cse511_lab.Abd.{Tag}
use cse511_lab.Journal.{JournalState, Outcome, log_transaction}
use cse511_lab.ServerPart1.{Server, server_1_get_request}
use cse511_lab.ServerPart1.Abd.{
  Surroundings, server_1_put_request_abd, server_1_insert_request_abd, server_1_delete_request_abd,
}

-- the low 32 bits of what strtol returns for the digits of a number, behind a minus or not
abbrev pub low_positive : ℕ → ℕ
low_positive n = if ltb n (2 ^ 63) then n % 2 ^ 32 else 2 ^ 32 - 1

abbrev pub low_negative : ℕ → ℕ
low_negative n = if ltb n (2 ^ 63) then (2 ^ 32 - n % 2 ^ 32) % 2 ^ 32 else 0

unfoldable pub signed_digits : CString → ℕ
unfolding take_digits
signed_digits [] = 0
signed_digits (c ∷ s) =
    if c == 45
    then low_negative (take_digits 0 s).0
    else if c == 43
    then low_positive (take_digits 0 s).0
    else low_positive (take_digits 0 (c ∷ s)).0

-- `atoi` of the C library as a `uint32_t`: strtol, which stops at the greatest and the least long, cut to
-- 32 bits
unfoldable pub atoi : CString → ℕ
unfolding skip_spaces signed_digits
atoi s = signed_digits (skip_spaces s)

-- `strncmp(s, w, strlen(w)) == 0`
unfoldable pub starts_with : CString → CString → Bool
starts_with [] s = true
starts_with (c ∷ w) [] = false
starts_with (c ∷ w) (d ∷ s) = c == d && starts_with w s

-- "GET", "PUT", "INSERT", "DELETE"
abbrev pub get_word : CString
get_word = 71 ∷ 69 ∷ 84 ∷ []

abbrev pub put_word : CString
put_word = 80 ∷ 85 ∷ 84 ∷ []

abbrev pub insert_word : CString
insert_word = 73 ∷ 78 ∷ 83 ∷ 69 ∷ 82 ∷ 84 ∷ []

abbrev pub delete_word : CString
delete_word = 68 ∷ 69 ∷ 76 ∷ 69 ∷ 84 ∷ 69 ∷ []

-- "BAD BOI", "ERROR" and "OK" as they are sent, the first two with their terminator
abbrev pub bad_boi : List ℕ
bad_boi = 66 ∷ 65 ∷ 68 ∷ 32 ∷ 66 ∷ 79 ∷ 73 ∷ 0 ∷ []

abbrev pub error_reply : List ℕ
error_reply = 69 ∷ 82 ∷ 82 ∷ 79 ∷ 82 ∷ 0 ∷ []

abbrev pub ok_reply : List ℕ
ok_reply = 79 ∷ 75 ∷ []

-- how one call of `log_transaction` finds its file, and what rand returns there
pub record Attempt : Type 0 where
  pub opens : Bool
  pub outcomes : ℕ → Outcome
  pub txid : ℕ

-- `while (log_transaction(&txn) != 0);` with as many calls as there are attempts
unfoldable pub log_until : List Attempt → CString → JournalState → Option JournalState
unfolding log_transaction
log_until [] line j = none
log_until (a ∷ attempts) line j = do
  (j', status) ← log_transaction a.opens a.outcomes a.txid line j
  elim status [
    | pos n ↦ if n == 0 then some j' else log_until attempts line j'
    | negsuc n ↦ log_until attempts line j'
  ]

-- the transaction of a line in the server's journal
unfoldable pub logged : List Attempt → CString → Server → Option Server
unfolding log_until
logged attempts line st = do
  j ← log_until attempts line st.journal
  some (record st { journal = j })

-- The branches of `server_handler` for a command; `unset` stands in the tag of a delete.
unfoldable pub serve_abd :
    Surroundings
    → List Attempt
    → Tag
    → CString
    → CString
    → CString
    → CString
    → Tag
    → Server
    → Option (Server × List ℕ)
unfolding starts_with logged server_1_get_request server_1_put_request_abd
    server_1_insert_request_abd server_1_delete_request_abd
serve_abd o attempts unset line command key value tag st =
    if starts_with get_word command
    then server_1_get_request o.file_opens o.first_node key st
    else if starts_with put_word command
    then (do st' ← logged attempts line st; server_1_put_request_abd o key value tag st')
    else if starts_with insert_word command
    then (do
      st' ← logged attempts line st
      (st'', _) ← server_1_insert_request_abd o key value tag st'
      some (st'', ok_reply))
    else if starts_with delete_word command
    then (do st' ← logged attempts line st; server_1_delete_request_abd o unset key tag st')
    else some (st, error_reply)

-- A line of `server_handler`: the server and what it sends. The numbers are read before the test for
-- missing tokens, so a missing one is a crash; by then the other tokens are there.
unfoldable pub server_handler :
    Surroundings → List Attempt → Tag → CString → Server → Option (Server × List ℕ)
unfolding strtok atoi serve_abd
server_handler o attempts unset line st = do
  let (command, rest1) = strtok line
  let (key, rest2) = strtok rest1
  let (value, rest3) = strtok rest2
  let (tag, rest4) = strtok rest3
  let (client_id, _) = strtok rest4
  t ← tag
  i ← client_id
  elim command [
    | none ↦ some (st, bad_boi)
    | some c ↦ elim key [
      | none ↦ some (st, bad_boi)
      | some k ↦ do
        v ← value
        serve_abd o attempts unset line c k v (record { timestamp = atoi t; client_id = atoi i }) st
    ]
  ]
