-- ===== src/ServerPart1/AbdTests.antt =====
-- Instances of the theorems about the requests of the ABD protocol and the lines of clients, and tests.
use cse511_lab.Prelude.{
  [], ◌∷◌, ◌++◌, Option, none, some, ◌≡◌, ◌⊎◌, refl, true, false, arith, ◌%◌, ◌==◌, if◌then◌else◌,
}
use cse511_lab.CString.{CString, strcmp}
use cse511_lab.Abd.{Tag, abd_tag_cmp}
use cse511_lab.C0Tree.{null, node}
use cse511_lab.C1Disk.Appended.{all_open}
use cse511_lab.CString.Scan.{IsWord}
use cse511_lab.CString.Tokens.{IsToken}
use cse511_lab.Cache.{push_front}
use cse511_lab.Journal.{written}
use cse511_lab.ServerPart1.{Server, server_1_get_request}
use cse511_lab.ServerPart1.Abd.{
  Surroundings, success, duplicate, tagged_value, scan_tagged, server_1_put_request_abd,
  server_1_insert_request_abd,
}
use cse511_lab.ServerPart1.Handler.{Attempt, put_word}
use cse511_lab.ServerPart1.Tagged.{get_request-put_request_abd, insert_request_abd_inserts_nothing}
use cse511_lab.ServerPart1.Tests.{start, empty_cache}

-- the key "a", and the value "x" with the tag 1 2 and the new tag 3 4
abbrev key : CString
key = 97 ∷ []

abbrev old_tag : Tag
old_tag = record { timestamp = 1; client_id = 2 }

abbrev new_tag : Tag
new_tag = record { timestamp = 3; client_id = 4 }

abbrev text : CString
text = 120 ∷ 32 ∷ 49 ∷ 32 ∷ 50 ∷ 10 ∷ []

-- an allocator whose blocks have 24 bytes, 40, and so on
abbrev pub here : Surroundings
here = record {
  opens = all_open;
  file_opens = true;
  first_node = 8;
  second_node = 9;
  spare = λ n. if n % 16 == 8 then n == 8 else true;
}

-- a server that holds the old value
abbrev pub tagged : Server
tagged = record start {
  tree = node null (record { key = key; value = text; flag = 0 }) 0 null;
  cache = record (push_front 7 key (some text) empty_cache) { count = 1 };
}

IsWord-of_x : IsWord (120 ∷ [])
IsWord-of_x = record { nonempty = λ e. cc; bytes = ((refl, omega arith), tt) }

tagged_get : server_1_get_request true 8 key tagged ≡ some (tagged, text)
unfolding server_1_get_request strcmp
tagged_get = refl

old_scanned : scan_tagged text ≡ some (120 ∷ [], old_tag)
unfolding scan_tagged
old_scanned = refl

new_above : abd_tag_cmp new_tag old_tag ≡ 1
unfolding abd_tag_cmp
new_above = refl

abbrev server_of : Option (Server × CString) → Server
server_of none = start
server_of (some (st, answer)) = st

-- the server behind a put of "y" with the new tag
abbrev tagged_anew : Server
unfolding server_1_put_request_abd
tagged_anew = server_of (server_1_put_request_abd here key (121 ∷ []) new_tag tagged)

put_anew : server_1_put_request_abd here key (121 ∷ []) new_tag tagged ≡ some (tagged_anew, success)
unfolding server_1_put_request_abd strcmp
put_anew = refl

get_request-put_request_abd_example :
    server_1_get_request true 8 key tagged_anew
    ≡ some (tagged_anew, tagged_value (120 ∷ []) new_tag)
get_request-put_request_abd_example =
    get_request-put_request_abd here here key (121 ∷ []) text (120 ∷ []) new_tag old_tag tagged
      tagged tagged_anew success tagged_get old_scanned new_above put_anew

insert_anew :
    server_1_insert_request_abd here key (121 ∷ []) new_tag tagged ≡ some (tagged, duplicate)
unfolding server_1_insert_request_abd strcmp
insert_anew = refl

insert_request_abd_inserts_nothing_example :
    (tagged.tree ≡ tagged.tree)
    × (tagged.store ≡ tagged.store)
    × ((duplicate ≡ duplicate)
        ⊎ (server_1_get_request true 8 key tagged ≡ some (tagged, duplicate)))
insert_request_abd_inserts_nothing_example =
    insert_request_abd_inserts_nothing here key (121 ∷ []) new_tag tagged tagged duplicate
      insert_anew

IsToken-put_word : IsToken put_word
IsToken-put_word = record {
  nonempty = λ e. cc;
  bytes =
      ((omega arith, omega arith), ((omega arith, omega arith), ((omega arith, omega arith), tt)));
}

IsToken-digit : IsToken (49 ∷ [])
IsToken-digit = record { nonempty = λ e. cc; bytes = ((omega arith, omega arith), tt) }

-- a call of log_transaction that succeeds, and one that finds no file
abbrev pub succeeds : Attempt
succeeds = record { opens = true; outcomes = λ i. written; txid = 5 }

abbrev closed : Attempt
closed = record { opens = false; outcomes = λ i. written; txid = 5 }

-- "PUT 1 1 1 1"
abbrev line : CString
line = put_word ++ 32 ∷ 49 ∷ 32 ∷ 49 ∷ 32 ∷ 49 ∷ 32 ∷ 49 ∷ []
