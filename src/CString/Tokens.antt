-- ===== src/CString/Tokens.antt =====
-- `strtok_r(…, " ", …)`, on which unmarshall_pm, the handlers of server-part1.c and recover take a
-- line apart.
use cse511_lab.Prelude.{
  [], ◌∷◌, ◌++◌, Option, none, some, true, false, ◌≡◌, ◌≢◌, refl, arith, ◌==◌, All, All-imp,
}
use cse511_lab.CString.{CString}
use cse511_lab.CString.Scan.{IsText}

unfoldable pub skip_blanks : CString → CString
skip_blanks [] = []
skip_blanks (c ∷ cs) = elim (c == 32) [ true ↦ skip_blanks cs | false ↦ c ∷ cs ]

-- the bytes up to the first blank, and those behind that blank
unfoldable pub take_token : CString → CString × CString
take_token [] = ([], [])
take_token (c ∷ cs) = elim (c == 32) [
  | true ↦ ([], cs)
  | false ↦ let (w, rest) = take_token cs in (c ∷ w, rest)
]

abbrev pub nonempty_token : CString × CString → Option CString × CString
nonempty_token ([], rest) = (none, rest)
nonempty_token (c ∷ w, rest) = (some (c ∷ w), rest)

-- `strtok_r(…, " ", …)`: the token, none for NULL, and where the next call goes on
unfoldable pub strtok : CString → Option CString × CString
unfolding skip_blanks take_token
strtok s = nonempty_token (take_token (skip_blanks s))

-- a string that strtok_r takes as one token
pub record IsToken (w : CString) : Type 0 where
  pub nonempty : w ≢ []
  pub bytes : All (λ c. (c ≢ 32) × (c ≢ 0)) w

take_token-blank :
    (w rest : CString) → All (λ c. (c ≢ 32) × (c ≢ 0)) w → take_token (w ++ 32 ∷ rest) ≡ (w, rest)
unfolding take_token
take_token-blank [] rest b = refl
take_token-blank (c ∷ w) rest ((n, z), b) =
    let stays : (c == 32) ≡ false = ground arith in
    rw (stays, take_token) (rw (take_token-blank w rest b))

take_token_end : (w : CString) → All (λ c. (c ≢ 32) × (c ≢ 0)) w → take_token w ≡ (w, [])
unfolding take_token
take_token_end [] b = refl
take_token_end (c ∷ w) ((n, z), b) =
    let stays : (c == 32) ≡ false = ground arith in rw (stays, take_token) (rw (take_token_end w b))

pub strtok-blank : (w rest : CString) → IsToken w → strtok (w ++ 32 ∷ rest) ≡ (some w, rest)
unfolding strtok
strtok-blank [] rest h = absurd (h.nonempty refl)
strtok-blank (c ∷ w) rest h =
    let stays : (c == 32) ≡ false = let first = h.bytes.0.0 in ground arith in
    let whole : skip_blanks ((c ∷ w) ++ 32 ∷ rest) ≡ (c ∷ w) ++ 32 ∷ rest =
      unfold skip_blanks in rw (stays, skip_blanks) in
    rw (whole, take_token-blank (c ∷ w) rest h.bytes)

pub strtok_end : (w : CString) → IsToken w → strtok w ≡ (some w, [])
unfolding strtok
strtok_end [] h = absurd (h.nonempty refl)
strtok_end (c ∷ w) h =
    let stays : (c == 32) ≡ false = let first = h.bytes.0.0 in ground arith in
    let whole : skip_blanks (c ∷ w) ≡ c ∷ w = unfold skip_blanks in rw (stays, skip_blanks) in
    rw (whole, take_token_end (c ∷ w) h.bytes)

pub IsToken-IsText : (w : CString) → IsToken w → IsText w
IsToken-IsText w h = All-imp (λ c b. b.1) w h.bytes
