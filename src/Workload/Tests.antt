-- ===== src/Workload/Tests.antt =====
-- Instances of the theorems about the workload of the clients, and tests.
use cse511_lab.Prelude.{
  ℕ, ◌+◌, ◌-◌, ◌*◌, ◌/◌, ◌%◌, ◌<◌, ◌≤◌, List, [], ◌∷◌, none, some, ◌≡◌, refl, arith, All, true,
  false, leb, length, get_elem?, replicate,
}
use cse511_lab.CString.{CString}
use cse511_lab.ServerPart1.Tests.{start}
use cse511_lab.ServerPart1.AbdTests.{here, succeeds}
use cse511_lab.ServerPart1.Handler.{server_handler}
use cse511_lab.Workload.{
  Doubles, n_key, num_ops, num_threads, generate_key_values, calc_cdf, sums, fraction, next_key,
  next_arrival, next_command, client_func, abd_client_func, write_all_keys,
}
use cse511_lab.Workload.Popular.{NonNegative, IsFiniteSum, Laws, Picked, next_key-Picked}
use cse511_lab.Workload.Sends.{Asks, client_func_sends}
use mathlib.Core.List.{reverse}
use cse511_lab.Workload.Loads.{Inserts, write_all_keys-Inserts}
use cse511_lab.Workload.Served.{ReactsTo, next_command-ReactsTo, abd_client_func_crashes}

-- thousandths, rounded down; what the tests do not reach is left as it is
abbrev thousandths : Doubles
thousandths = record {
  Double = ℕ;
  of_int = λ n. n * 1000;
  add = λ x y. x + y;
  sub = λ x y. x - y;
  mul = λ x y. x * y / 1000;
  div = λ x y. x * 1000 / y;
  log = λ x. x;
  negate = λ x. x;
  le = leb;
  pow = λ x. x * 1000;
  ratio = 100;
  rand_max = 2147483647;
  largest = 1000000000;
}

fraction_small : (r : ℕ) → r ≤ 2147483647 → r * 1000 * 1000 / (2147483647 * 1000 + 1 * 1000) ≤ 1000
fraction_small r h = omega arith

scaled : (q x : ℕ) → q ≤ 1000 → q * x / 1000 ≤ x
scaled q x h = grind arith

thousandths-Laws : Laws thousandths
thousandths-Laws = record {
  add_nonneg = λ x y h k. ground arith;
  scale_le = λ r x h k l.
      let small =
        scaled (r * 1000 * 1000 / (2147483647 * 1000 + 1 * 1000)) x (fraction_small r h) in
      ground arith;
}

abbrev draws : ℕ → ℕ
draws n = n % 100

draws_bounded : (n : ℕ) → draws n ≤ 2147483647
draws_bounded n = omega arith

-- as many keys that are equally popular
abbrev level : List ℕ
level = replicate n_key 10

level_nonneg : All (NonNegative thousandths) level
level_nonneg = ground arith

level_finite : IsFiniteSum thousandths level
unfolding calc_cdf sums
level_finite all h = let same : 370 ≡ all = cc in ground arith

next_key-Picked_example :
    (key : CString) × (next_key thousandths draws
        (calc_cdf thousandths level)
        (generate_key_values draws 0 n_key)
        7
      ≡ some key)
    × (all : ℕ) × (get_elem? (calc_cdf thousandths level) (n_key - 1) ≡ some all)
    × Picked thousandths
        (fraction thousandths draws 7 * all / 1000)
        (calc_cdf thousandths level)
        (generate_key_values draws 0 n_key)
        key
unfolding generate_key_values
next_key-Picked_example =
    next_key-Picked thousandths thousandths-Laws draws level (generate_key_values draws 0 n_key) 7
      level_nonneg level_finite refl refl (draws_bounded 7)

client_func_sends_example :
    (lines : List (ℕ × CString)) × (client_func thousandths draws
        (calc_cdf thousandths level)
        (generate_key_values draws 0 n_key)
        1
        100
        (λ i. true)
        5
      ≡ some lines)
    × (length lines ≡ num_ops / num_threads + 1)
    × All (λ (sock, line). (sock < 3) × Asks (generate_key_values draws 0 n_key) line) lines
client_func_sends_example =
    client_func_sends thousandths thousandths-Laws draws draws_bounded level 0 1 100 5 (λ i. true)
      level_nonneg level_finite refl (λ i. refl)

next_command-ReactsTo_example :
    (line : CString) × (n' : ℕ) × (next_command thousandths draws
        (calc_cdf thousandths level)
        (generate_key_values draws 0 n_key)
        3
      ≡ some (line, n'))
    × ReactsTo here (generate_key_values draws 0 n_key) line
next_command-ReactsTo_example =
    next_command-ReactsTo thousandths thousandths-Laws draws draws_bounded level 0 3 here
      level_nonneg level_finite refl

abd_client_func_crashes_example :
    (line : CString) × (abd_client_func thousandths draws
        (calc_cdf thousandths level)
        (generate_key_values draws 0 n_key)
        1
        100
        (λ i. false)
        5
      ≡ some (line ∷ []))
    × (server_handler here (succeeds ∷ []) (record { timestamp = 0; client_id = 0 }) line start
        ≡ none)
abd_client_func_crashes_example =
    abd_client_func_crashes thousandths thousandths-Laws draws draws_bounded level 0 1 100 5 here
      (succeeds ∷ []) (record { timestamp = 0; client_id = 0 }) start level_nonneg level_finite refl

-- with the settings of the program a thread does not wait between its requests
no_wait : next_arrival thousandths draws 1 100 5 ≡ (0, 0)
unfolding next_arrival
no_wait = refl

write_all_keys-Inserts_example :
    (lines : List CString) × (write_all_keys draws 9 (generate_key_values draws 0 n_key)
      ≡ some lines)
    × Inserts here (reverse (generate_key_values draws 0 n_key)) lines
write_all_keys-Inserts_example = write_all_keys-Inserts here draws 0 9
