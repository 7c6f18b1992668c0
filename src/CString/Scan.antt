-- ===== src/CString/Scan.antt =====
-- The conversions %s and %d, from printf to scanf.
use cse511_lab.Prelude.{
  ℕ, zero, suc, ◌+◌, ◌-◌, ◌*◌, ◌/◌, ◌%◌, ◌<◌, [], ◌∷◌, ◌++◌, true, false, some, ◌≡◌, ◌≢◌, refl, sym,
  ap, ◌∙◌, arith, All, All-imp, All-append, Bool-cases, inl, inr, append_assoc, ltb, ◌==◌, ◌^◌,
}
use cse511_lab.CString.{
  CString, until_nul, is_space, is_digit, skip_spaces, take_word, scan_word, take_digits, digits_at,
  scan_int, digits_of, print_int, print_uint32, nonnegative_at, negative_at, uint32_at, scan_uint32,
}

-- a byte of a word: neither white space nor the terminator
abbrev pub IsWordByte : ℕ → Type 0
IsWordByte c = (is_space c ≡ false) × (c ≢ 0)

-- a string that %s writes and %ms reads back
pub record IsWord (w : CString) : Type 0 where
  pub nonempty : w ≢ []
  pub bytes : All IsWordByte w

take_word_lem : (w rest : CString) → All IsWordByte w → take_word (w ++ 32 ∷ rest) ≡ (w, 32 ∷ rest)
unfolding take_word
take_word_lem [] rest b = refl
take_word_lem (c ∷ w) rest ((p, n), b) = rw (p, take_word) (rw (take_word_lem w rest b))

pub scan_word-space :
    (w rest : CString) → IsWord w → scan_word (w ++ 32 ∷ rest) ≡ some (w, 32 ∷ rest)
unfolding scan_word
scan_word-space [] rest h = absurd (h.nonempty refl)
scan_word-space (c ∷ w) rest h =
    let stays : skip_spaces ((c ∷ w) ++ 32 ∷ rest) ≡ (c ∷ w) ++ 32 ∷ rest =
      unfold skip_spaces in rw (h.bytes.0.0, skip_spaces) in
    rw (stays, take_word_lem (c ∷ w) rest h.bytes)

pub scan_word_after_space : (s : CString) → scan_word (32 ∷ s) ≡ scan_word s
unfolding scan_word
scan_word_after_space s = refl

take_digit :
    (acc d : ℕ) (rest : CString)
    → d < 10
    → take_digits acc ((48 + d) ∷ rest) ≡ take_digits (acc * 10 + d) rest
unfolding take_digits
take_digit acc d rest h =
    let digit : is_digit (48 + d) ≡ true = ground arith in
    let back : 48 + d - 48 ≡ d = omega arith in
    rw (digit, take_digits) (ap (λ k. take_digits (acc * 10 + k) rest) back)

pub take_digits-digits_of :
    (fuel n : ℕ) (rest : CString)
    → n < fuel
    → take_digits 0 (digits_of fuel n ++ rest) ≡ take_digits n rest
unfolding digits_of
take_digits-digits_of zero n rest h = absurd (omega arith)
take_digits-digits_of (suc fuel) n rest h = elim (Bool-cases (ltb n 10)) [
  | inl low ↦
      rw low (take_digit 0 n rest (ground arith) ∙ ap (λ k. take_digits k rest) (omega arith))
  | inr high ↦
      rw (high, append_assoc)
        (take_digits-digits_of fuel (n / 10) ((48 + n % 10) ∷ rest) (ground arith)
          ∙ take_digit (n / 10) (n % 10) rest (omega arith)
          ∙ ap (λ k. take_digits k rest) (omega arith))
]

-- a printed number starts with a digit
pub digits_of_head :
    (fuel n : ℕ)
    → n < fuel
    → (c : ℕ) × (s : CString) × (digits_of fuel n ≡ c ∷ s) × (is_digit c ≡ true)
unfolding digits_of
digits_of_head zero n h = absurd (omega arith)
digits_of_head (suc fuel) n h = elim (Bool-cases (ltb n 10)) [
  | inl low ↦ (48 + n, [], rw low, ground arith)
  | inr high ↦
      let (c, s, e, d) = digits_of_head fuel (n / 10) (ground arith) in
      (c, s ++ (48 + n % 10) ∷ [], rw (high, e), d)
]

scan_int_at :
    (c : ℕ) (s : CString) → is_digit c ≡ true → scan_int (32 ∷ c ∷ s) ≡ some (take_digits 0 (c ∷ s))
unfolding scan_int
scan_int_at c s d =
    let word : is_space c ≡ false = ground arith in rw (word, skip_spaces) (rw (d, digits_at))

pub print_int_lem : (n : ℕ) → print_int n ≡ digits_of (suc n) n
unfolding print_int
print_int_lem n = refl

pub take_digits_stop :
    (n c : ℕ) (rest : CString) → is_digit c ≡ false → take_digits n (c ∷ rest) ≡ (n, c ∷ rest)
unfolding take_digits
take_digits_stop n c rest h = rw (h, take_digits)

-- %d reads back the number that %d wrote, where no digit follows.
pub scan_int-print_int :
    (n c : ℕ) (rest : CString)
    → is_digit c ≡ false
    → scan_int (32 ∷ (print_int n ++ c ∷ rest)) ≡ some (n, c ∷ rest)
scan_int-print_int n c rest stop =
    let (d, s, e, digit) = digits_of_head (suc n) n (omega arith) in
    let whole : print_int n ≡ d ∷ s = print_int_lem n ∙ e in
    let value : take_digits 0 ((d ∷ s) ++ c ∷ rest) ≡ (n, c ∷ rest) =
      ap (λ t. take_digits 0 (t ++ c ∷ rest)) (sym e)
      ∙ take_digits-digits_of (suc n) n (c ∷ rest) (omega arith)
      ∙ take_digits_stop n c rest stop in
    rw (whole, scan_int_at d (s ++ c ∷ rest) digit, value)

-- a string without a terminator among its bytes
abbrev pub IsText : CString → Type 0
IsText = All (λ c. c ≢ 0)

pub until_nul_lem : (s rest : CString) → IsText s → until_nul (s ++ 0 ∷ rest) ≡ s
unfolding until_nul
until_nul_lem [] rest t = refl
until_nul_lem (c ∷ s) rest (n, t) =
    let more : (c == 0) ≡ false = ground arith in
    rw (more, until_nul) (ap (◌∷◌ c) (until_nul_lem s rest t))

pub IsWord-IsText : (w : CString) → IsWord w → IsText w
IsWord-IsText w h = All-imp (λ c b. b.1) w h.bytes

digits_of-IsText : (fuel n : ℕ) → IsText (digits_of fuel n)
unfolding digits_of
digits_of-IsText zero n = tt
digits_of-IsText (suc fuel) n = elim (Bool-cases (ltb n 10)) [
  | inl low ↦ rw low (omega arith, tt)
  | inr high ↦ rw high (
      All-append (λ c. c ≢ 0) (digits_of fuel (n / 10)) ((48 + n % 10) ∷ [])
        (digits_of-IsText fuel (n / 10)) (omega arith, tt))
]

pub print_int-IsText : (n : ℕ) → IsText (print_int n)
print_int-IsText n = rw print_int_lem (digits_of-IsText (suc n) n)

-- the digits of a number are digits
pub digits_of-AllDigits : (fuel n : ℕ) → All (λ c. is_digit c ≡ true) (digits_of fuel n)
unfolding digits_of
digits_of-AllDigits zero n = tt
digits_of-AllDigits (suc fuel) n = elim (Bool-cases (ltb n 10)) [
  | inl low ↦ rw low (ground arith, tt)
  | inr high ↦
      let last : is_digit (48 + n % 10) ≡ true = ground arith in
      rw high (
        All-append (λ c. is_digit c ≡ true) (digits_of fuel (n / 10)) ((48 + n % 10) ∷ [])
          (digits_of-AllDigits fuel (n / 10)) (last, tt))
]

digits_at-print_int :
    (n c : ℕ) (rest : CString)
    → is_digit c ≡ false
    → digits_at (print_int n ++ c ∷ rest) ≡ some (n, c ∷ rest)
unfolding digits_at
digits_at-print_int n c rest stop =
    let (d, s, e, digit) = digits_of_head (suc n) n (omega arith) in
    let whole : print_int n ≡ d ∷ s = print_int_lem n ∙ e in
    let value : take_digits 0 ((d ∷ s) ++ c ∷ rest) ≡ (n, c ∷ rest) =
      ap (λ t. take_digits 0 (t ++ c ∷ rest)) (sym e)
      ∙ take_digits-digits_of (suc n) n (c ∷ rest) (omega arith)
      ∙ take_digits_stop n c rest stop in
    rw whole (rw (digit, digits_at) (ap some value))

uint32_at_digit :
    (d : ℕ) (s : CString) → is_digit d ≡ true → uint32_at (d ∷ s) ≡ nonnegative_at (d ∷ s)
unfolding uint32_at
uint32_at_digit d s digit =
    let plain : (d == 45) ≡ false = ground arith in
    let unsigned : (d == 43) ≡ false = ground arith in rw (plain, unsigned)

uint32_at-print_uint32 :
    (n c : ℕ) (rest : CString)
    → n < 2 ^ 32
    → is_digit c ≡ false
    → uint32_at (print_uint32 n ++ c ∷ rest) ≡ some (n, c ∷ rest)
unfolding print_uint32 uint32_at nonnegative_at negative_at
uint32_at-print_uint32 n c rest small stop = elim (Bool-cases (ltb n (2 ^ 31))) [
  | inl low ↦
      let (d, s, e, digit) = digits_of_head (suc n) n (omega arith) in
      let whole : print_int n ≡ d ∷ s = print_int_lem n ∙ e in
      let read = digits_at-print_int n c rest stop in
      rw low (
        ap (λ t. uint32_at (t ++ c ∷ rest)) whole
        ∙ uint32_at_digit d (s ++ c ∷ rest) digit
        ∙ ap (λ t. nonnegative_at (t ++ c ∷ rest)) (sym whole)
        ∙ rw (read, nonnegative_at) (rw low refl))
  | inr high ↦
      let read = digits_at-print_int (2 ^ 32 - n) c rest stop in
      let fits : ltb (2 ^ 31) (2 ^ 32 - n) ≡ false = ground arith in
      let back : (2 ^ 32 - (2 ^ 32 - n)) % 2 ^ 32 ≡ n = omega arith in
      rw high (rw (read, negative_at) (rw fits (ap (λ m. some (m, c ∷ rest)) back)))
]

skip_spaces-print_uint32 :
    (n : ℕ) (s : CString) → skip_spaces (32 ∷ (print_uint32 n ++ s)) ≡ print_uint32 n ++ s
unfolding skip_spaces print_uint32
skip_spaces-print_uint32 n s = elim (Bool-cases (ltb n (2 ^ 31))) [
  | inl low ↦
      let (d, t, e, digit) = digits_of_head (suc n) n (omega arith) in
      let whole : print_int n ≡ d ∷ t = print_int_lem n ∙ e in
      let word : is_space d ≡ false = ground arith in
      rw low (rw whole (rw (word, skip_spaces) refl))
  | inr high ↦ rw high refl
]

-- %d reads back the uint32_t that %d wrote, where no digit follows.
pub scan_uint32-print_uint32 :
    (n c : ℕ) (rest : CString)
    → n < 2 ^ 32
    → is_digit c ≡ false
    → scan_uint32 (32 ∷ (print_uint32 n ++ c ∷ rest)) ≡ some (n, c ∷ rest)
unfolding scan_uint32
scan_uint32-print_uint32 n c rest small stop =
    ap uint32_at (skip_spaces-print_uint32 n (c ∷ rest))
    ∙ uint32_at-print_uint32 n c rest small stop

pub print_uint32-IsText : (n : ℕ) → IsText (print_uint32 n)
unfolding print_uint32
print_uint32-IsText n = elim (Bool-cases (ltb n (2 ^ 31))) [
  | inl low ↦ rw low (print_int-IsText n)
  | inr high ↦ rw high (omega arith, print_int-IsText (2 ^ 32 - n))
]
