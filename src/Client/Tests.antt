-- ===== src/Client/Tests.antt =====
-- Instances of the theorems about client.c, and tests.
use cse511_lab.Prelude.{[], ◌∷◌, ◌++◌, some, ◌>>=◌, ◌≡◌, refl, true, false, arith, to_bytes}
use cse511_lab.CString.{CString, print_uint32, strcmp}
use cse511_lab.CString.Tokens.{IsToken}
use cse511_lab.Abd.{Tag}
use cse511_lab.Journal.Entry.{entry_bytes}
use cse511_lab.ServerPart1.{Server, server_1_get_request}
use cse511_lab.ServerPart1.Abd.{tagged_text, scan_tagged, server_1_put_request_abd}
use cse511_lab.ServerPart1.Handler.{logged, put_word, server_handler}
use cse511_lab.ServerPart1.AbdTests.{here, tagged, succeeds}
use cse511_lab.ServerPart1.Tests.{start, empty_cache}
use cse511_lab.C0Tree.{null, node}
use cse511_lab.Cache.{push_front}
use cse511_lab.Client.{
  Semaphores, AbdArg, fresh_arg, read_command, abd_read_query, abd_read, abd_write,
}
use cse511_lab.Client.Lines.{write_tag, server_handler-abd_write}
use cse511_lab.Client.Replies.{tag_of_value, abd_read_loses_tag}
use cse511_lab.Client.Ignored.{abd_write_ignored}

abbrev none_posted : Semaphores
none_posted = record { rq_sem = 0; wq_sem = 0 }

-- the key "a" and the value "x"
abbrev key : CString
key = 97 ∷ []

abbrev value : CString
value = 120 ∷ []

IsToken-key : IsToken key
IsToken-key = record { nonempty = λ e. cc; bytes = ((omega arith, omega arith), tt) }

IsToken-value : IsToken value
IsToken-value = record { nonempty = λ e. cc; bytes = ((omega arith, omega arith), tt) }

-- "PUT a x 0 10\n" and "GET a - 0 10\n"
abbrev put_line : CString
put_line = 80 ∷ 85 ∷ 84 ∷ 32 ∷ 97 ∷ 32 ∷ 120 ∷ 32 ∷ 48 ∷ 32 ∷ 49 ∷ 48 ∷ 10 ∷ []

abbrev get_line : CString
get_line = 71 ∷ 69 ∷ 84 ∷ 32 ∷ 97 ∷ 32 ∷ 45 ∷ 32 ∷ 48 ∷ 32 ∷ 49 ∷ 48 ∷ 10 ∷ []

abbrev one_written : Semaphores
one_written = record { rq_sem = 0; wq_sem = 1 }

write_x : abd_write key value 5 none_posted ≡ some (put_line, one_written)
unfolding abd_write print_uint32
write_x = refl

read_x : read_command (fresh_arg key) ≡ some get_line
unfolding read_command print_uint32
read_x = refl

server_handler-abd_write_example : server_handler here (succeeds ∷ []) write_tag put_line tagged ≡ (
    logged (succeeds ∷ []) put_line tagged >>= λ st'.
    server_1_put_request_abd here key value write_tag st')
server_handler-abd_write_example =
    server_handler-abd_write here (succeeds ∷ []) write_tag key value put_line 5 none_posted
      one_written tagged IsToken-key IsToken-value write_x

-- the answer "x 7 3\n", which abd_read writes back with another tag
abbrev seven : Tag
seven = record { timestamp = 7; client_id = 3 }

abbrev both_posted : Semaphores
both_posted = record { rq_sem = 1; wq_sem = 1 }

read_back :
    abd_read false (tagged_text value seven ++ 0 ∷ []) key none_posted
    ≡ some (put_line, both_posted)
unfolding abd_read print_uint32
read_back = refl

abd_read_loses_tag_example :
    put_line ≡ put_word ++ 32 ∷ (key ++ 32 ∷ tagged_text value (tag_of_value value))
abd_read_loses_tag_example =
    abd_read_loses_tag value key put_line seven [] none_posted both_posted IsToken-value read_back

abbrev one_read : Semaphores
one_read = record { rq_sem = 1; wq_sem = 0 }

abbrev answered : AbdArg
answered = record { key = key; value = some value; tag = write_tag }

read_once : abd_read_query false (120 ∷ 0 ∷ []) key none_posted ≡ some (answered, one_read)
unfolding abd_read_query
read_once = refl

-- a server that holds "w" with the tag of the client, before and behind the transaction of the journal
abbrev text : CString
text = 119 ∷ 32 ∷ 48 ∷ 32 ∷ 49 ∷ 48 ∷ 10 ∷ []

abbrev holding : Server
holding = record start {
  tree = node null (record { key = key; value = text; flag = 0 }) 0 null;
  cache = record (push_front 7 key (some text) empty_cache) { count = 1 };
}

abbrev holding_logged : Server
holding_logged = record holding {
  journal = record { tx_log = some (entry_bytes 5 put_line); locked = false };
}

log_line : logged (succeeds ∷ []) put_line holding ≡ some holding_logged
unfolding logged to_bytes
log_line = refl

get_held : server_1_get_request true 8 key holding_logged ≡ some (holding_logged, text)
unfolding server_1_get_request strcmp
get_held = refl

text_scanned : scan_tagged text ≡ some (119 ∷ [], write_tag)
unfolding scan_tagged
text_scanned = refl

abd_write_ignored_example :
    server_handler here (succeeds ∷ []) write_tag put_line holding ≡ some (holding_logged, text)
abd_write_ignored_example =
    abd_write_ignored here (succeeds ∷ []) write_tag key value put_line text (119 ∷ []) 5 write_tag
      none_posted one_written holding holding_logged holding_logged IsToken-key IsToken-value
      write_x log_line get_held text_scanned (omega arith)
