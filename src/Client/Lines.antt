-- ===== src/Client/Lines.antt =====
-- The lines that client.c sends, at server_handler of server-part1.c.
use cse511_lab.Prelude.{
  ℕ, suc, ◌+◌, ◌-◌, ◌<◌, ◌^◌, List, [], ◌∷◌, ◌++◌, some, ◌>>=◌, ◌≡◌, ◌≢◌, refl, sym, ap, ◌∙◌, arith,
  true, false, ltb, ◌==◌, length, take_of_length_le, All, All-imp, All-append, Option-cases, inl,
  inr, append-nil, ap₂, subst, length-append, length-take, Bool-cases, ltb→lt,
}
use cse511_lab.CString.{
  CString, is_digit, is_space, skip_spaces, take_digits, print_int, print_uint32,
}
use cse511_lab.CString.Scan.{
  digits_of-AllDigits, print_int_lem, digits_of_head, take_digits-digits_of, take_digits_stop,
}
use cse511_lab.CString.Tokens.{IsToken}
use cse511_lab.Abd.{Tag}
use cse511_lab.ServerPart1.{Server, server_1_get_request}
use cse511_lab.ServerPart1.Abd.{Surroundings, tagged_text, server_1_put_request_abd}
use cse511_lab.ServerPart1.Handler.{
  Attempt, low_positive, low_negative, signed_digits, atoi, starts_with, logged, get_word, put_word,
  serve_abd, server_handler,
}
use cse511_lab.ServerPart1.Lines.{server_handler_line}
use cse511_lab.Client.{
  Semaphores, client_id, max_entry_size, in_cmd, print_tagged, AbdArg, read_command, write_command,
  abd_write_query, abd_write, quorum,
}

-- the digits of a number, and a tail of such bytes, are a token
print_int-IsToken :
    (n : ℕ) (rest : CString) → All (λ c. (c ≢ 32) × (c ≢ 0)) rest → IsToken (print_int n ++ rest)
print_int-IsToken n rest b =
    let (d, s, e, digit) = digits_of_head (suc n) n (omega arith) in
    let whole : print_int n ≡ d ∷ s = print_int_lem n ∙ e in
    let digits : All (λ c. is_digit c ≡ true) (print_int n) =
      rw (print_int_lem n) (digits_of-AllDigits (suc n) n) in
    record {
      nonempty = rw whole (λ h. cc);
      bytes =
          All-append (λ c. (c ≢ 32) × (c ≢ 0)) (print_int n) rest
            (All-imp (λ c h. (ground arith, ground arith)) (print_int n) digits) b;
    }

print_uint32-IsToken :
    (n : ℕ) (rest : CString) → All (λ c. (c ≢ 32) × (c ≢ 0)) rest → IsToken (print_uint32 n ++ rest)
unfolding print_uint32
print_uint32-IsToken n rest b = elim (Bool-cases (ltb n (2 ^ 31))) [
  | inl low ↦ rw low (print_int-IsToken n rest b)
  | inr high ↦
      let digits = print_int-IsToken (2 ^ 32 - n) rest b in
      rw high (record { nonempty = λ h. cc; bytes = ((omega arith, omega arith), digits.bytes) })
]

atoi_digit :
    (d : ℕ) (s : CString)
    → is_digit d ≡ true
    → atoi (d ∷ s) ≡ low_positive (take_digits 0 (d ∷ s)).0
unfolding atoi signed_digits skip_spaces
atoi_digit d s digit =
    let word : is_space d ≡ false = ground arith in
    let plain : (d == 45) ≡ false = ground arith in
    let unsigned : (d == 43) ≡ false = ground arith in
    rw (word, skip_spaces) (rw (plain, signed_digits) (rw unsigned))

atoi_minus : (s : CString) → atoi (45 ∷ s) ≡ low_negative (take_digits 0 s).0
unfolding atoi signed_digits skip_spaces
atoi_minus s = refl

printed_digits :
    (n : ℕ) (rest : CString)
    → take_digits n rest ≡ (n, rest)
    → (take_digits 0 (print_int n ++ rest)).0 ≡ n
printed_digits n rest stop =
    ap (λ t. (take_digits 0 (t ++ rest)).0) (print_int_lem n)
    ∙ ap (λ r. r.0) (take_digits-digits_of (suc n) n rest (omega arith) ∙ stop)

-- atoi reads a printed uint32_t back, where the next byte is no digit.
pub atoi-print_uint32 :
    (n : ℕ) (rest : CString)
    → n < 2 ^ 32
    → ((m : ℕ) → take_digits m rest ≡ (m, rest))
    → atoi (print_uint32 n ++ rest) ≡ n
unfolding print_uint32
atoi-print_uint32 n rest small stop = elim (Bool-cases (ltb n (2 ^ 31))) [
  | inl low ↦
      let (d, s, e, digit) = digits_of_head (suc n) n (omega arith) in
      let whole : print_int n ≡ d ∷ s = print_int_lem n ∙ e in
      let short : ltb n (2 ^ 63) ≡ true = ground arith in
      rw low (
        ap (λ t. atoi (t ++ rest)) whole
        ∙ atoi_digit d (s ++ rest) digit
        ∙ ap (λ t. low_positive (take_digits 0 (t ++ rest)).0) (sym whole)
        ∙ ap low_positive (printed_digits n rest (stop n))
        ∙ rw short (omega arith))
  | inr high ↦
      let m = 2 ^ 32 - n in
      let short : ltb m (2 ^ 63) ≡ true = ground arith in
      rw high (
        atoi_minus (print_int m ++ rest)
        ∙ ap low_negative (printed_digits m rest (stop m))
        ∙ rw short (omega arith))
]

take_digits_end : (n : ℕ) → take_digits n [] ≡ (n, [])
unfolding take_digits
take_digits_end n = refl

-- A command of a key, a value and a tag, as the client prints it, in the handler of the server.
server_handler-tagged :
    (o : Surroundings) (attempts : List Attempt) (unset : Tag) (c k v : CString) (t : Tag)
    (st : Server)
    → IsToken c
    → IsToken k
    → IsToken v
    → t.timestamp < 2 ^ 32
    → t.client_id < 2 ^ 32
    → server_handler o attempts unset (c ++ 32 ∷ (k ++ 32 ∷ tagged_text v t)) st
      ≡ serve_abd o attempts unset (c ++ 32 ∷ (k ++ 32 ∷ tagged_text v t)) c k v t st
server_handler-tagged o attempts unset c k v t st hc hk hv ht hi =
    let line = c ++ 32 ∷ (k ++ 32 ∷ tagged_text v t) in
    let ts = print_uint32 t.timestamp in
    let id = print_uint32 t.client_id ++ 10 ∷ [] in
    let timestamp : atoi (ts ++ []) ≡ t.timestamp =
      atoi-print_uint32 t.timestamp [] ht take_digits_end in
    let number : atoi id ≡ t.client_id =
      atoi-print_uint32 t.client_id (10 ∷ []) hi (λ m. take_digits_stop m 10 [] refl) in
    server_handler_line o attempts unset c k v ts id st hc hk hv
      (subst IsToken (append-nil ts) (print_uint32-IsToken t.timestamp [] tt))
      (print_uint32-IsToken t.client_id (10 ∷ []) ((omega arith, omega arith), tt))
    ∙ ap (λ u. serve_abd o attempts unset line c k v u st)
        (ap₂ (λ a b. record { timestamp = a; client_id = b })
          (ap atoi (sym (append-nil ts)) ∙ timestamp) number)

-- what fits into `cmd` has not been cut off before
print_tagged_whole :
    (v : CString) (t : Tag)
    → length (print_tagged v t) < max_entry_size
    → print_tagged v t ≡ tagged_text v t
unfolding print_tagged
print_tagged_whole v t h =
    let cut = length-take (max_entry_size + 20 + 3 - 1) (tagged_text v t) in
    take_of_length_le (max_entry_size + 20 + 3 - 1) (tagged_text v t) (omega arith)

in_cmd_fits : (s line : CString) → in_cmd s ≡ some line → (s ≡ line) × (length s < max_entry_size)
unfolding in_cmd
in_cmd_fits s line h = elim (Bool-cases (ltb (length s) max_entry_size)) [
  | inl p ↦ let sent = rw (p, in_cmd) at h in (cc, ltb→lt (length s) max_entry_size p)
  | inr p ↦ let stuck = rw (p, in_cmd) at h in cc
]

command_sent :
    (c k v : CString) (t : Tag) (line : CString)
    → in_cmd (c ++ 32 ∷ (k ++ 32 ∷ print_tagged v t)) ≡ some line
    → line ≡ c ++ 32 ∷ (k ++ 32 ∷ tagged_text v t)
command_sent c k v t line h =
    let (same, fits) = in_cmd_fits (c ++ 32 ∷ (k ++ 32 ∷ print_tagged v t)) line h in
    let outer = length-append c (32 ∷ (k ++ 32 ∷ print_tagged v t)) in
    let inner = length-append k (32 ∷ print_tagged v t) in
    sym same ∙ ap (λ s. c ++ 32 ∷ (k ++ 32 ∷ s)) (print_tagged_whole v t (omega arith))

-- the tag of every write of the client
abbrev pub write_tag : Tag
write_tag = record { timestamp = 0; client_id = client_id }

pub write_query_sent :
    (k v line : CString) (t : Tag) (s s' : Semaphores)
    → abd_write_query k (print_tagged v t) s ≡ some (line, s')
    → line ≡ put_word ++ 32 ∷ (k ++ 32 ∷ tagged_text v t)
unfolding abd_write_query write_command
write_query_sent k v line t s s' h =
    elim (Option-cases (in_cmd (put_word ++ 32 ∷ (k ++ 32 ∷ print_tagged v t)))) [
      | inl p ↦ let stuck = rw (p, abd_write_query) at h in cc
      | inr (cmd, p) ↦
          let posted = rw (p, abd_write_query) at h in
          let answered : ltb (s.wq_sem + 1) quorum ≡ false = ground arith in
          let sent = rw answered at posted in
          command_sent put_word k v t line (p ∙ ap some (let same : cmd ≡ line = cc in same))
    ]

pub IsToken-put_word : IsToken put_word
IsToken-put_word = record {
  nonempty = λ e. cc;
  bytes =
      ((omega arith, omega arith), ((omega arith, omega arith), ((omega arith, omega arith), tt)));
}

pub IsToken-get_word : IsToken get_word
IsToken-get_word = record {
  nonempty = λ e. cc;
  bytes =
      ((omega arith, omega arith), ((omega arith, omega arith), ((omega arith, omega arith), tt)));
}

-- a put of a line in the handler of the server
server_handler-put :
    (o : Surroundings) (attempts : List Attempt) (unset : Tag) (k v line : CString) (t : Tag)
    (st : Server)
    → IsToken k
    → IsToken v
    → t.timestamp < 2 ^ 32
    → t.client_id < 2 ^ 32
    → line ≡ put_word ++ 32 ∷ (k ++ 32 ∷ tagged_text v t)
    → server_handler o attempts unset line st
      ≡ (logged attempts line st >>= λ st'. server_1_put_request_abd o k v t st')
unfolding serve_abd starts_with
server_handler-put o attempts unset k v line t st hk hv ht hi same =
    subst
      (λ l.
        server_handler o attempts unset l st
        ≡ (logged attempts l st >>= λ st'. server_1_put_request_abd o k v t st'))
      (sym same)
      (server_handler-tagged o attempts unset put_word k v t st IsToken-put_word hk hv ht hi)

-- The line that abd_write sends is, at server_handler, a transaction of the journal and then
-- server_1_put_request_abd of its key and value, with the timestamp 0 whatever timestamp it was given.
pub server_handler-abd_write :
    (o : Surroundings) (attempts : List Attempt) (unset : Tag) (k v line : CString) (timestamp : ℕ)
    (s s' : Semaphores) (st : Server)
    → IsToken k
    → IsToken v
    → abd_write k v timestamp s ≡ some (line, s')
    → server_handler o attempts unset line st
      ≡ (logged attempts line st >>= λ st'. server_1_put_request_abd o k v write_tag st')
unfolding abd_write
server_handler-abd_write o attempts unset k v line timestamp s s' st hk hv h =
    server_handler-put o attempts unset k v line write_tag st hk hv (omega arith) (omega arith)
      (write_query_sent k v line write_tag s s' h)

-- The line that send_abd_read_query sends is, at server_handler, server_1_get_request of its key.
pub server_handler-read_command :
    (o : Surroundings) (attempts : List Attempt) (unset : Tag) (line : CString) (arg : AbdArg)
    (st : Server)
    → IsToken arg.key
    → arg.tag.timestamp < 2 ^ 32
    → arg.tag.client_id < 2 ^ 32
    → read_command arg ≡ some line
    → server_handler o attempts unset line st
      ≡ server_1_get_request o.file_opens o.first_node arg.key st
unfolding read_command serve_abd starts_with
server_handler-read_command o attempts unset line arg st hk ht hi h =
    let same = command_sent get_word arg.key (45 ∷ []) arg.tag line h in
    subst
      (λ l.
        server_handler o attempts unset l st
        ≡ server_1_get_request o.file_opens o.first_node arg.key st)
      (sym same)
      (server_handler-tagged o attempts unset get_word arg.key (45 ∷ []) arg.tag st IsToken-get_word
        hk (record { nonempty = λ e. cc; bytes = ((omega arith, omega arith), tt) }) ht hi)
