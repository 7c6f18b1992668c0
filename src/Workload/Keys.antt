-- ===== src/Workload/Keys.antt =====
-- The strings of rand_string in blocking_client.c.
use cse511_lab.Prelude.{
  ℕ, zero, suc, ◌+◌, ◌%◌, ◌<◌, List, [], ◌∷◌, ◌≡◌, ◌≢◌, refl, ap, arith, All, get_or, length,
}
use cse511_lab.CString.{CString}
use cse511_lab.CString.Tokens.{IsToken}
use cse511_lab.Workload.{key_charset, rand_string, generate_key_values, key_size}

All-get_or : (P : ℕ → Type 0) (xs : List ℕ) (i : ℕ) → All P xs → i < length xs → P (get_or xs i 0)
All-get_or P [] i a h = absurd (omega arith)
All-get_or P (x ∷ xs) zero (p, a) h = p
All-get_or P (x ∷ xs) (suc i) (p, a) h = All-get_or P xs i a (omega arith)

charset_bytes : All (λ c. (c ≢ 32) × (c ≢ 0)) key_charset
charset_bytes = omega arith

rand_string_bytes :
    (rand : ℕ → ℕ) (n size : ℕ) → All (λ c. (c ≢ 32) × (c ≢ 0)) (rand_string rand n size)
unfolding rand_string
rand_string_bytes rand n zero = tt
rand_string_bytes rand n (suc size) = (
  All-get_or (λ c. (c ≢ 32) × (c ≢ 0)) key_charset (rand n % 62) charset_bytes (omega arith),
  rand_string_bytes rand (n + 1) size,
)

pub length-rand_string : (rand : ℕ → ℕ) (n size : ℕ) → length (rand_string rand n size) ≡ size
unfolding rand_string
length-rand_string rand n zero = refl
length-rand_string rand n (suc size) = ap suc (length-rand_string rand (n + 1) size)

nonempty_of_length : (s : CString) (n : ℕ) → length s ≡ suc n → s ≢ []
nonempty_of_length [] n h = absurd (omega arith)
nonempty_of_length (c ∷ s) n h = λ e. cc

pub rand_string-IsToken : (rand : ℕ → ℕ) (n size : ℕ) → IsToken (rand_string rand n (suc size))
rand_string-IsToken rand n size = record {
  nonempty = nonempty_of_length _ size (length-rand_string rand n (suc size));
  bytes = rand_string_bytes rand n (suc size);
}

-- a key of the workload
pub record IsKey (k : CString) : Type 0 where
  pub token : IsToken k
  pub size : length k ≡ key_size

pub generate_key_values-IsKey :
    (rand : ℕ → ℕ) (n count : ℕ) → All IsKey (generate_key_values rand n count)
unfolding generate_key_values
generate_key_values-IsKey rand n zero = tt
generate_key_values-IsKey rand n (suc count) = (
  record { token = rand_string-IsToken rand n 9; size = length-rand_string rand n key_size },
  generate_key_values-IsKey rand (n + key_size) count,
)

pub length-generate_key_values :
    (rand : ℕ → ℕ) (n count : ℕ) → length (generate_key_values rand n count) ≡ count
unfolding generate_key_values
length-generate_key_values rand n zero = refl
length-generate_key_values rand n (suc count) =
    ap suc (length-generate_key_values rand (n + key_size) count)
