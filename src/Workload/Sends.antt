-- ===== src/Workload/Sends.antt =====
-- The lines that the threads of blocking_client.c send.
use cse511_lab.Prelude.{
  ℕ, zero, suc, ◌+◌, ◌/◌, ◌%◌, ◌<◌, ◌≤◌, List, [], ◌∷◌, ◌++◌, some, ◌≡◌, refl, ap, arith, All, Bool,
  true, false, Bool-cases, inl, inr, get_elem?, length, leb, length-append, ◌==◌,
}
use cse511_lab.CString.{CString}
use cse511_lab.CString.Tokens.{IsToken}
use cse511_lab.Client.{in_cmd, max_entry_size}
use cse511_lab.ServerPart1.Handler.{get_word, put_word, insert_word}
use cse511_lab.Workload.{
  Doubles, n_key, key_size, value_size, num_ops, num_threads, rand_string, generate_key_values,
  get_command, put_command, insert_command, calc_cdf, next_req_type, next_arrival, next_command,
  client_rounds, client_func,
}
use cse511_lab.Workload.Keys.{
  IsKey, rand_string-IsToken, length-rand_string, generate_key_values-IsKey,
  length-generate_key_values,
}
use cse511_lab.Workload.Popular.{NonNegative, IsFiniteSum, Laws, All-get_elem?, next_key-Picked}

-- a line is a get of one of the keys, or a put of one with a value of ten bytes
pub data Asks (keys : List CString) (line : CString) : Type 0 where
  gets :
      (i : ℕ) (key : CString)
      → get_elem? keys i ≡ some key
      → line ≡ get_word ++ 32 ∷ key
      → Asks keys line
  puts :
      (i : ℕ) (key val : CString)
      → get_elem? keys i ≡ some key
      → IsToken val
      → line ≡ put_word ++ 32 ∷ (key ++ 32 ∷ val)
      → Asks keys line

in_cmd_short : (s : CString) → length s < max_entry_size → in_cmd s ≡ some s
unfolding in_cmd
in_cmd_short s h = ground arith

get_command_lem :
    (key : CString) → length key ≡ key_size → get_command key ≡ some (get_word ++ 32 ∷ key)
unfolding get_command
get_command_lem key h = in_cmd_short (get_word ++ 32 ∷ key) (omega arith)

length_of_pair :
    (key val : CString)
    → length key ≡ key_size
    → length val ≡ value_size
    → length (key ++ 32 ∷ val) ≡ 21
length_of_pair key val h k = omega (arith, length-append key (32 ∷ val))

put_command_lem :
    (key val : CString)
    → length key ≡ key_size
    → length val ≡ value_size
    → put_command key val ≡ some (put_word ++ 32 ∷ (key ++ 32 ∷ val))
unfolding put_command
put_command_lem key val h k =
    in_cmd_short (put_word ++ 32 ∷ (key ++ 32 ∷ val)) (omega (arith, length_of_pair key val h k))

pub insert_command_lem :
    (key val : CString)
    → length key ≡ key_size
    → length val ≡ value_size
    → insert_command key val ≡ some (insert_word ++ 32 ∷ (key ++ 32 ∷ val))
unfolding insert_command
insert_command_lem key val h k =
    in_cmd_short (insert_word ++ 32 ∷ (key ++ 32 ∷ val)) (omega (arith, length_of_pair key val h k))

module _ (d : Doubles) (laws : Laws d) (rand : ℕ → ℕ) (bounded : (n : ℕ) → rand n ≤ d.rand_max)
    (ps : List d.Double) (nonneg : All (NonNegative d) ps) (fin : IsFiniteSum d ps)
    (size : length ps ≡ n_key) (keys : List CString) (named : All IsKey keys)
    (many : length keys ≡ n_key) where
  pub next_command-Asks :
      (n : ℕ)
      → (line : CString) × (n' : ℕ) × (next_command d rand (calc_cdf d ps) keys n ≡ some (line, n'))
        × Asks keys line
  unfolding next_command
  next_command-Asks n =
      let cdf = calc_cdf d ps in
      let (key, found, all, last, picked) =
        next_key-Picked d laws rand ps keys (n + 1) nonneg fin size many (bounded (n + 1)) in
      let k : IsKey key = All-get_elem? IsKey keys picked.index key named picked.key_at in
      let val = rand_string rand (n + 2) value_size in
      elim (Bool-cases (next_req_type d rand n == 0)) [
        | inl e ↦ (
          get_word ++ 32 ∷ key,
          n + 2,
          rw (found, e, get_command_lem key k.size) refl,
          gets picked.index key picked.key_at refl,
        )
        | inr e ↦ (
          put_word ++ 32 ∷ (key ++ 32 ∷ val),
          n + 2 + value_size,
          rw (found, e, put_command_lem key val k.size (length-rand_string rand (n + 2) value_size))
              refl,
          puts picked.index key val picked.key_at (rand_string-IsToken rand (n + 2) 9) refl,
        )
      ]

  rounds-Asks :
      (arr_type arr_rate : ℕ) (answered : ℕ → Bool) (served : (i : ℕ) → answered i ≡ true)
      (left count n : ℕ)
      → count + left ≡ num_ops / num_threads + 1
      → (lines : List (ℕ × CString)) × (client_rounds d rand
            (calc_cdf d ps)
            keys
            arr_type
            arr_rate
            answered
            (suc left)
            count
            n
          ≡ some lines)
        × (length lines ≡ left)
        × All (λ (sock, line). (sock < 3) × Asks keys line) lines
  unfolding client_rounds
  rounds-Asks arr_type arr_rate answered served zero count n h =
      let done : leb count (num_ops / num_threads) ≡ false = ground arith in
      ([], rw (done, client_rounds) refl, refl, tt)
  rounds-Asks arr_type arr_rate answered served (suc left) count n h =
      let more : leb count (num_ops / num_threads) ≡ true = ground arith in
      let (line, n1, sent, asks) = next_command-Asks n in
      let drawn = (next_arrival d rand arr_type arr_rate (n1 + 1)).1 in
      let (lines, rest, many_lines, all) =
        rounds-Asks arr_type arr_rate answered served left (count + 1) (n1 + 1 + drawn)
          (omega arith) in
      (
        (rand n1 % 3, line) ∷ lines,
        rw (more, client_rounds, sent, served count, rest) refl,
        ap suc many_lines,
        ((omega arith, asks), all),
      )

-- A thread of the workload, whose every line is answered, ends: it sends 401 lines, one more than its
-- share of NUM_OPS, each to one of its three sockets, and each is a get of one of the keys or a put of one
-- with a value that is one token. The popularities are not negative and have a finite sum, there is one for each
-- key, and rand returns no more than RAND_MAX.
pub client_func_sends :
    (d : Doubles) (laws : Laws d) (rand : ℕ → ℕ) (bounded : (n : ℕ) → rand n ≤ d.rand_max)
    (ps : List d.Double) (first arr_type arr_rate n : ℕ) (answered : ℕ → Bool)
    → All (NonNegative d) ps
    → IsFiniteSum d ps
    → length ps ≡ n_key
    → ((i : ℕ) → answered i ≡ true)
    → (lines : List (ℕ × CString)) × (client_func d rand
          (calc_cdf d ps)
          (generate_key_values rand first n_key)
          arr_type
          arr_rate
          answered
          n
        ≡ some lines)
      × (length lines ≡ num_ops / num_threads + 1)
      × All (λ (sock, line). (sock < 3) × Asks (generate_key_values rand first n_key) line) lines
unfolding client_func
client_func_sends d laws rand bounded ps first arr_type arr_rate n answered nonneg fin size served =
    rounds-Asks d laws rand bounded ps nonneg fin size (generate_key_values rand first n_key)
      (generate_key_values-IsKey rand first n_key) (length-generate_key_values rand first n_key)
      arr_type arr_rate answered served (num_ops / num_threads + 1) 0 n (omega arith)
