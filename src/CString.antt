-- ===== src/CString.antt =====
-- NUL-terminated strings as lists of bytes without the terminator, and the C library's functions
-- on them that the sources call: strcmp (c0.c, c1.c), and the conversions %s and %d of printf and
-- scanf (c1.c, server-part1.c): print_int and scan_int for fields that are not negative, print_uint32 and
-- scan_uint32 for a uint32_t that %d takes for an int.
pub mod Order
pub mod Scan
pub mod Tokens
use cse511_lab.Prelude.{
  ℕ, zero, suc, ◌+◌, ◌-◌, ◌*◌, ◌/◌, ◌%◌, List, [], ◌∷◌, ◌++◌, compare, Ordering, Bool, true, false,
  ◌&&◌, ◌||◌, Option, none, some, ltb, leb, ◌==◌, if◌then◌else◌, ◌^◌, ◌>>=◌,
}

abbrev pub CString : Type 0
CString = List ℕ

-- The sign of `strcmp(s, t)`: `lt` for a negative, `eq` for 0, `gt` for a positive result.
unfoldable pub strcmp : CString → CString → Ordering
strcmp [] [] = Ordering.eq
strcmp [] (b ∷ t) = Ordering.lt
strcmp (a ∷ s) [] = Ordering.gt
strcmp (a ∷ s) (b ∷ t) = elim (compare a b) [ Ordering.eq ↦ strcmp s t | o ↦ o ]

-- the string that stands at the head of a buffer
unfoldable pub until_nul : List ℕ → CString
until_nul [] = []
until_nul (c ∷ cs) = elim (c == 0) [ true ↦ [] | false ↦ c ∷ until_nul cs ]

-- `isspace` in the C locale
abbrev pub is_space : ℕ → Bool
is_space c = c == 32 || leb 9 c && leb c 13

abbrev pub is_digit : ℕ → Bool
is_digit c = leb 48 c && leb c 57

unfoldable pub skip_spaces : CString → CString
skip_spaces [] = []
skip_spaces (c ∷ cs) = elim (is_space c) [ true ↦ skip_spaces cs | false ↦ c ∷ cs ]

-- the bytes up to the first white space, and the rest
unfoldable pub take_word : CString → CString × CString
take_word [] = ([], [])
take_word (c ∷ cs) = elim (is_space c) [
  | true ↦ ([], c ∷ cs)
  | false ↦ let (w, rest) = take_word cs in (c ∷ w, rest)
]

abbrev pub nonempty_word : CString × CString → Option (CString × CString)
nonempty_word ([], rest) = none
nonempty_word (c ∷ w, rest) = some (c ∷ w, rest)

-- `%ms` of sscanf, which fails where no byte is left
unfoldable pub scan_word : CString → Option (CString × CString)
unfolding skip_spaces take_word
scan_word s = nonempty_word (take_word (skip_spaces s))

-- the value of the digits at the head of a string, behind digits of the value `acc`
unfoldable pub take_digits : ℕ → CString → ℕ × CString
take_digits acc [] = (acc, [])
take_digits acc (c ∷ cs) = elim (is_digit c) [
  | true ↦ take_digits (acc * 10 + (c - 48)) cs
  | false ↦ (acc, c ∷ cs)
]

unfoldable pub digits_at : CString → Option (ℕ × CString)
unfolding take_digits
digits_at [] = none
digits_at (c ∷ cs) = elim (is_digit c) [ true ↦ some (take_digits 0 (c ∷ cs)) | false ↦ none ]

-- `%d` of sscanf
unfoldable pub scan_int : CString → Option (ℕ × CString)
unfolding skip_spaces digits_at
scan_int s = digits_at (skip_spaces s)

-- The digits of a number; a fuel above the number is enough.
unfoldable pub digits_of : ℕ → ℕ → CString
digits_of zero n = []
digits_of (suc fuel) n =
    let front = digits_of fuel (n / 10) in
    if ltb n 10 then (48 + n) ∷ [] else front ++ (48 + n % 10) ∷ []

-- `%d` of snprintf
unfoldable pub print_int : ℕ → CString
unfolding digits_of
print_int n = digits_of (suc n) n

-- `%d` of snprintf on a uint32_t, which it takes for an int
unfoldable pub print_uint32 : ℕ → CString
unfolding print_int
print_uint32 n = if ltb n (2 ^ 31) then print_int n else 45 ∷ print_int (2 ^ 32 - n)

-- digits of an int that is not negative, or is; a number that no int has is undefined behaviour: none
unfoldable pub nonnegative_at : CString → Option (ℕ × CString)
unfolding digits_at
nonnegative_at s = do (n, rest) ← digits_at s; if ltb n (2 ^ 31) then some (n, rest) else none

unfoldable pub negative_at : CString → Option (ℕ × CString)
unfolding digits_at
negative_at s = do
  (n, rest) ← digits_at s
  if ltb (2 ^ 31) n then none else some ((2 ^ 32 - n) % 2 ^ 32, rest)

-- behind the sign, if there is one
unfoldable pub uint32_at : CString → Option (ℕ × CString)
unfolding nonnegative_at negative_at
uint32_at [] = none
uint32_at (c ∷ s) =
    if c == 45 then negative_at s else if c == 43 then nonnegative_at s else nonnegative_at (c ∷ s)

-- `%d` of sscanf into a uint32_t
unfoldable pub scan_uint32 : CString → Option (ℕ × CString)
unfolding skip_spaces uint32_at
scan_uint32 s = uint32_at (skip_spaces s)
