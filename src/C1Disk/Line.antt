-- ===== src/C1Disk/Line.antt =====
-- The bytes of a record of c1.c, for entries that fit.
use cse511_lab.Prelude.{
  suc, ◌-◌, ◌<◌, List, [], ◌∷◌, ◌++◌, some, refl, ◌≡◌, ◌≢◌, ap, ◌∙◌, arith, length, take, replicate,
  take_of_length_le, All, All-append, map,
}
use cse511_lab.CString.{until_nul, print_int}
use cse511_lab.CString.Scan.{
  IsWord, IsText, IsWord-IsText, print_int-IsText, until_nul_lem, scan_word-space,
  scan_word_after_space, scan_int-print_int,
}
use cse511_lab.C0Tree.{Entry}
use cse511_lab.C1Disk.{Block, line_size, line_text, format_line, parse_line}

-- An entry whose key and value are words, and whose text leaves room for the terminator.
pub record IsStorable (e : Entry) : Type 0 where
  pub key_word : IsWord e.key
  pub value_word : IsWord e.value
  pub fits : length (line_text e) < line_size

line_text-IsText : (e : Entry) → IsStorable e → IsText (line_text e)
line_text-IsText e h =
    All-append (λ c. c ≢ 0) e.key _ (IsWord-IsText e.key h.key_word)
      (
        omega arith,
        All-append (λ c. c ≢ 0) e.value _ (IsWord-IsText e.value h.value_word)
            (
              omega arith,
              All-append (λ c. c ≢ 0) (print_int e.flag) _ (print_int-IsText e.flag)
                  (omega arith, tt),
            ),
      )

pub format_line_lem :
    (e : Entry)
    → IsStorable e
    → format_line e ≡ line_text e ++ 0 ∷ replicate (line_size - length (line_text e) - 1) 0
unfolding format_line
format_line_lem e h =
    let whole : take (line_size - 1) (line_text e) ≡ line_text e =
      take_of_length_le (line_size - 1) (line_text e) (omega (arith, h.fits)) in
    let room : line_size - length (line_text e) ≡ suc (line_size - length (line_text e) - 1) =
      omega (arith, h.fits) in
    rw whole (ap (λ n. line_text e ++ replicate n 0) room)

-- What snprintf writes for a storable entry, sscanf reads back: key, value and flag.
pub parse_line-format_line : (e : Entry) → IsStorable e → parse_line (format_line e) ≡ some e
unfolding parse_line
parse_line-format_line e h =
    let text : until_nul (format_line e) ≡ line_text e =
      ap until_nul (format_line_lem e h) ∙ until_nul_lem (line_text e) _ (line_text-IsText e h) in
    rw (
      text,
      scan_word-space e.key (e.value ++ 32 ∷ (print_int e.flag ++ 10 ∷ [])) h.key_word,
      scan_word_after_space,
      scan_word-space e.value (print_int e.flag ++ 10 ∷ []) h.value_word,
      scan_int-print_int e.flag 10 [] refl,
    )

abbrev pub AllStorable : List Entry → Type 0
AllStorable = All IsStorable

-- the records of a file that holds these entries
abbrev pub format_lines : List Entry → List Block
format_lines = map format_line
