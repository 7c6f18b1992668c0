-- ===== src/Workload/Loads.antt =====
-- write_all_keys of blocking_client.c at server_handler_blocking of server-part1.c.
use mathlib.Core.List.{reverse, reverse-append}
use cse511_lab.Prelude.{
  ℕ, ◌+◌, List, [], ◌∷◌, ◌++◌, some, ◌≡◌, refl, sym, arith, All, All-append, subst,
}
use cse511_lab.CString.{CString}
use cse511_lab.CString.Tokens.{IsToken, strtok, strtok-blank, strtok_end}
use cse511_lab.ServerPart1.{Server}
use cse511_lab.ServerPart1.Abd.{Surroundings}
use cse511_lab.ServerPart1.Handler.{starts_with, insert_word}
use cse511_lab.Blocking.{write, insert, react}
use cse511_lab.Blocking.Replicas.{request_of}
use cse511_lab.Workload.{
  n_key, value_size, rand_string, generate_key_values, insert_commands, write_all_keys,
}
use cse511_lab.Workload.Keys.{
  IsKey, rand_string-IsToken, length-rand_string, generate_key_values-IsKey,
}
use cse511_lab.Workload.Sends.{insert_command_lem}

-- a line for each key, each of which starts the insertion of its key
abbrev pub Inserts : Surroundings → List CString → List CString → Type 0
Inserts o [] [] = Unit
Inserts o (key ∷ keys) (line ∷ lines) =
    ((val : CString) × IsToken val
      × ((st : Server) → react o line st ≡ some (st, write (request_of insert key val line))))
    × Inserts o keys lines
Inserts o [] (line ∷ lines) = ⊥
Inserts o (key ∷ keys) [] = ⊥

IsToken-insert_word : IsToken insert_word
IsToken-insert_word = record { nonempty = λ e. cc; bytes = omega arith }

insert_tokens :
    (o : Surroundings) (line rest k rest' v rest'' : CString) (st : Server)
    → strtok line ≡ (some insert_word, rest)
    → strtok rest ≡ (some k, rest')
    → strtok rest' ≡ (some v, rest'')
    → react o line st ≡ some (st, write (request_of insert k v line))
unfolding react starts_with
insert_tokens o line rest k rest' v rest'' st e f g = rw (e, react) (rw (e, f) (rw (e, f, g)))

react-insert :
    (o : Surroundings) (k v : CString) (st : Server)
    → IsToken k
    → IsToken v
    → react o (insert_word ++ 32 ∷ (k ++ 32 ∷ v)) st
      ≡ some (st, write (request_of insert k v (insert_word ++ 32 ∷ (k ++ 32 ∷ v))))
react-insert o k v st h i =
    insert_tokens o (insert_word ++ 32 ∷ (k ++ 32 ∷ v)) (k ++ 32 ∷ v) k v v [] st
      (strtok-blank insert_word (k ++ 32 ∷ v) IsToken-insert_word) (strtok-blank k v h)
      (strtok_end v i)

insert_commands-Inserts :
    (o : Surroundings) (rand : ℕ → ℕ) (n : ℕ) (keys : List CString)
    → All IsKey keys
    → (lines : List CString) × (insert_commands rand n keys ≡ some lines) × Inserts o keys lines
unfolding insert_commands
insert_commands-Inserts o rand n [] a = ([], refl, tt)
insert_commands-Inserts o rand n (key ∷ keys) (k, a) =
    let val = rand_string rand n value_size in
    let token = rand_string-IsToken rand n 9 in
    let sent = insert_command_lem key val k.size (length-rand_string rand n value_size) in
    let (lines, rest, all) = insert_commands-Inserts o rand (n + value_size) keys a in
    (
      (insert_word ++ 32 ∷ (key ++ 32 ∷ val)) ∷ lines,
      rw (sent, rest) refl,
      ((val, token, λ st. react-insert o key val st k.token token), all),
    )

All-reverse : (P : CString → Type 0) (xs : List CString) → All P xs → All P (reverse xs)
All-reverse P [] a = tt
All-reverse P (x ∷ xs) (p, a) =
    subst (All P) (sym (reverse-append (x ∷ []) xs))
      (All-append P (reverse xs) (x ∷ []) (All-reverse P xs a) (p, tt))

-- write_all_keys sends one line for each key that generate_key_values has made, the last key first, and
-- server_handler_blocking takes each line for the insertion of its key with a value that is one token.
pub write_all_keys-Inserts :
    (o : Surroundings) (rand : ℕ → ℕ) (first n : ℕ)
    → (lines : List CString) × (write_all_keys rand n (generate_key_values rand first n_key)
        ≡ some lines)
      × Inserts o (reverse (generate_key_values rand first n_key)) lines
unfolding write_all_keys
write_all_keys-Inserts o rand first n =
    insert_commands-Inserts o rand n (reverse (generate_key_values rand first n_key)) (
      All-reverse IsKey (generate_key_values rand first n_key)
        (generate_key_values-IsKey rand first n_key))
