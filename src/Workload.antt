-- ===== src/Workload.antt =====
-- blocking_client.c, and the same functions of client.c and client_common.c: random keys, their
-- popularities, and the lines that the threads of a client send. The values of rand and the floating-point
-- numbers are parameters; a function that calls rand is given the number of its first call. none is
-- a crash.
pub mod Keys
pub mod Popular
pub mod Sends
pub mod Served
pub mod Loads
mod Tests
use mathlib.Core.List.{reverse}
use cse511_lab.Prelude.{
  ℕ, zero, suc, ◌+◌, ◌-◌, ◌*◌, ◌/◌, ◌%◌, List, [], ◌∷◌, ◌++◌, Option, none, some, ◌>>=◌, Bool, true,
  false, leb, ◌==◌, if◌then◌else◌, get_elem?, get_or,
}
use cse511_lab.CString.{CString}
use cse511_lab.Client.{in_cmd}
use cse511_lab.ServerPart1.Handler.{get_word, put_word, insert_word}

-- `N_KEY`, `key_size`, `value_size`, `NUM_OPS`, `NUM_THREADS`
abbrev pub n_key : ℕ
n_key = 37

abbrev pub key_size : ℕ
key_size = 10

abbrev pub value_size : ℕ
value_size = 10

abbrev pub num_ops : ℕ
num_ops = 10000

abbrev pub num_threads : ℕ
num_threads = 25

-- `double`, with what the code calls of it and of the library: the last four are `pow(x, a)`, the
-- constant `ratio`, RAND_MAX, and the largest number that is finite, DBL_MAX.
pub record Doubles : Type 1 where
  pub Double : Type 0
  pub of_int : ℕ → Double
  pub add : Double → Double → Double
  pub sub : Double → Double → Double
  pub mul : Double → Double → Double
  pub div : Double → Double → Double
  pub log : Double → Double
  pub negate : Double → Double
  pub le : Double → Double → Bool
  pub pow : ℕ → Double
  pub ratio : Double
  pub rand_max : ℕ
  pub largest : Double

-- the bytes from a number on, as many as are asked for
abbrev pub bytes_from : ℕ → ℕ → List ℕ
bytes_from zero c = []
bytes_from (suc n) c = c ∷ bytes_from n (c + 1)

-- `charset` of `rand_string`
abbrev pub key_charset : CString
key_charset = bytes_from 26 97 ++ (bytes_from 26 65 ++ bytes_from 10 48)

-- the loop of `rand_string`
unfoldable pub rand_string : (ℕ → ℕ) → ℕ → ℕ → CString
rand_string rand n zero = []
rand_string rand n (suc size) = get_or key_charset (rand n % 62) 0 ∷ rand_string rand (n + 1) size

-- the loop of `generate_key_values`, for as many keys
unfoldable pub generate_key_values : (ℕ → ℕ) → ℕ → ℕ → List CString
unfolding rand_string
generate_key_values rand n zero = []
generate_key_values rand n (suc count) =
    rand_string rand n key_size ∷ generate_key_values rand (n + key_size) count

-- `strcat(cmd, …)` for each part
unfoldable pub get_command : CString → Option CString
unfolding in_cmd
get_command key = in_cmd (get_word ++ 32 ∷ key)

unfoldable pub put_command : CString → CString → Option CString
unfolding in_cmd
put_command key val = in_cmd (put_word ++ 32 ∷ (key ++ 32 ∷ val))

unfoldable pub insert_command : CString → CString → Option CString
unfolding in_cmd
insert_command key val = in_cmd (insert_word ++ 32 ∷ (key ++ 32 ∷ val))

-- the lines of the loop of `write_all_keys`, for the keys in the order in which it takes them
unfoldable pub insert_commands : (ℕ → ℕ) → ℕ → List CString → Option (List CString)
unfolding rand_string insert_command
insert_commands rand n [] = some []
insert_commands rand n (key ∷ keys) = do
  cmd ← insert_command key (rand_string rand n value_size)
  cmds ← insert_commands rand (n + value_size) keys
  some (cmd ∷ cmds)

-- `write_all_keys`, from the last key to the first
unfoldable pub write_all_keys : (ℕ → ℕ) → ℕ → List CString → Option (List CString)
unfolding insert_commands
write_all_keys rand n keys = insert_commands rand n (reverse keys)

module _ (d : Doubles) where
  -- the loop of `calc_zeta`
  unfoldable pub zeta_from : ℕ → ℕ → d.Double → d.Double
  zeta_from zero i sum = sum
  zeta_from (suc rounds) i sum = zeta_from rounds (i + 1) (d.add sum (d.div (d.of_int 1) (d.pow i)))

  unfoldable pub calc_zeta : d.Double
  unfolding zeta_from
  calc_zeta = zeta_from n_key 1 (d.of_int 0)

  unfoldable pub zipf : d.Double → ℕ → d.Double
  zipf zeta x = d.div (d.div (d.of_int 1) (d.pow x)) zeta

  -- the loop of `generate_popularities` from index `i` on
  unfoldable pub popularities_from : d.Double → ℕ → ℕ → List d.Double
  unfolding zipf
  popularities_from zeta zero i = []
  popularities_from zeta (suc rounds) i = zipf zeta (i + 1) ∷ popularities_from zeta rounds (i + 1)

  unfoldable pub generate_popularities : d.Double → List d.Double
  unfolding popularities_from
  generate_popularities zeta = popularities_from zeta n_key 0

  -- the loop of `calc_cdf` behind an element
  unfoldable pub sums : d.Double → List d.Double → List d.Double
  sums before [] = []
  sums before (p ∷ ps) = d.add before p ∷ sums (d.add before p) ps

  unfoldable pub calc_cdf : List d.Double → List d.Double
  unfolding sums
  calc_cdf [] = []
  calc_cdf (p ∷ ps) = p ∷ sums p ps

  -- the loop of `next_key`; none is NULL
  unfoldable pub pick : d.Double → List d.Double → List CString → Option CString
  pick p (c ∷ cdf) (key ∷ keys) = if d.le p c then some key else pick p cdf keys
  pick p _ _ = none

  module _ (rand : ℕ → ℕ) where
    -- `rand() / (RAND_MAX+1.0)`
    abbrev pub fraction : ℕ → d.Double
    fraction n = d.div (d.of_int (rand n)) (d.add (d.of_int d.rand_max) (d.of_int 1))

    unfoldable pub next_key : List d.Double → List CString → ℕ → Option CString
    unfolding pick
    next_key cdf keys n = do all ← get_elem? cdf (n_key - 1); pick (d.mul (fraction n) all) cdf keys

    -- `nextReqType`, 0 for a get and 1 for a put
    unfoldable pub next_req_type : ℕ → ℕ
    next_req_type n = if d.le (fraction n) d.ratio then 0 else 1

    -- `nextArrival`, with the number of its calls of rand; the quotient of integers is one too.
    unfoldable pub next_arrival : ℕ → ℕ → ℕ → d.Double × ℕ
    next_arrival arr_type arr_rate n = if arr_type == 1 then (d.of_int (1 / arr_rate), 0) else (
      d.div (d.mul (d.negate (d.of_int 1)) (d.log (d.sub (d.of_int 1) (fraction n))))
          (d.of_int arr_rate),
      1,
    )

    module _ (cdf : List d.Double) (keys : List CString) where
      -- the line of a round of `client_func`, and the number of the next call of rand
      unfoldable pub next_command : ℕ → Option (CString × ℕ)
      unfolding next_req_type next_key get_command put_command rand_string
      next_command n = do
        key ← next_key cdf keys (n + 1)
        if next_req_type n == 0 then (do cmd ← get_command key; some (cmd, n + 2)) else (do
          cmd ← put_command key (rand_string rand (n + 2) value_size)
          some (cmd, n + 2 + value_size))

      -- The loop of `client_func` of blocking_client.c from a value of `local_count` on: the sockets and the
      -- lines it sends; `answered` says which rounds get an answer. none also where the fuel runs out.
      unfoldable pub client_rounds : ℕ → ℕ → (ℕ → Bool) → ℕ → ℕ → ℕ → Option (List (ℕ × CString))
      unfolding next_command next_arrival
      client_rounds arr_type arr_rate answered zero local_count n = none
      client_rounds arr_type arr_rate answered (suc fuel) local_count n =
          elim (leb local_count (num_ops / num_threads)) [
            | false ↦ some []
            | true ↦ do
              (cmd, n1) ← next_command n
              let sent : ℕ × CString = (rand n1 % 3, cmd)
              elim (answered local_count) [
                | false ↦ some (sent ∷ [])
                | true ↦ do
                  let drawn = (next_arrival arr_type arr_rate (n1 + 1)).1
                  rest ←
                      client_rounds arr_type arr_rate answered fuel (local_count + 1)
                        (n1 + 1 + drawn)
                  some (sent ∷ rest)
              ]
          ]

      unfoldable pub client_func : ℕ → ℕ → (ℕ → Bool) → ℕ → Option (List (ℕ × CString))
      unfolding client_rounds
      client_func arr_type arr_rate answered n =
          client_rounds arr_type arr_rate answered (num_ops / num_threads + 2) 0 n

      -- the same loop in client.c, which has one socket
      unfoldable pub abd_client_rounds : ℕ → ℕ → (ℕ → Bool) → ℕ → ℕ → ℕ → Option (List CString)
      unfolding next_command next_arrival
      abd_client_rounds arr_type arr_rate answered zero local_count n = none
      abd_client_rounds arr_type arr_rate answered (suc fuel) local_count n =
          elim (leb local_count (num_ops / num_threads)) [
            | false ↦ some []
            | true ↦ do
              (cmd, n1) ← next_command n
              elim (answered local_count) [
                | false ↦ some (cmd ∷ [])
                | true ↦ do
                  let drawn = (next_arrival arr_type arr_rate n1).1
                  rest ←
                      abd_client_rounds arr_type arr_rate answered fuel (local_count + 1)
                        (n1 + drawn)
                  some (cmd ∷ rest)
              ]
          ]

      unfoldable pub abd_client_func : ℕ → ℕ → (ℕ → Bool) → ℕ → Option (List CString)
      unfolding abd_client_rounds
      abd_client_func arr_type arr_rate answered n =
          abd_client_rounds arr_type arr_rate answered (num_ops / num_threads + 2) 0 n
