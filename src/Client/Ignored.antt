-- ===== src/Client/Ignored.antt =====
-- Writes of client.c that the server leaves aside.
use cse511_lab.Prelude.{ℕ, ◌≤◌, List, some, ◌>>=◌, ◌≡◌, ap, ◌∙◌, arith, false, ◌==◌}
use cse511_lab.CString.{CString}
use cse511_lab.CString.Tokens.{IsToken}
use cse511_lab.Abd.{Tag, abd_tag_cmp}
use cse511_lab.ServerPart1.{Server, server_1_get_request}
use cse511_lab.ServerPart1.Abd.{Surroundings, scan_tagged, server_1_put_request_abd}
use cse511_lab.ServerPart1.Handler.{Attempt, logged, server_handler}
use cse511_lab.Client.{Semaphores, client_id, abd_write}
use cse511_lab.Client.Lines.{write_tag, server_handler-abd_write}

write_tag_old : (t : Tag) → client_id ≤ t.client_id → (abd_tag_cmp write_tag t == 1) ≡ false
unfolding abd_tag_cmp
write_tag_old t h = ground arith

put_abd_older :
    (o : Surroundings) (k v text old : CString) (tag t : Tag) (st st' : Server)
    → server_1_get_request o.file_opens o.first_node k st ≡ some (st', text)
    → scan_tagged text ≡ some (old, t)
    → (abd_tag_cmp tag t == 1) ≡ false
    → server_1_put_request_abd o k v tag st ≡ some (st', text)
unfolding server_1_put_request_abd
put_abd_older o k v text old tag t st st' g s n = rw (g, s, n)

-- The server answers a line of abd_write with the old value and stores nothing, when the tag of the old
-- value has the client's number or a greater one, as the tag of each write of this client has.
pub abd_write_ignored :
    (o : Surroundings) (attempts : List Attempt) (unset : Tag) (k v line text old : CString)
    (timestamp : ℕ) (t : Tag) (s s' : Semaphores) (st logged_st st' : Server)
    → IsToken k
    → IsToken v
    → abd_write k v timestamp s ≡ some (line, s')
    → logged attempts line st ≡ some logged_st
    → server_1_get_request o.file_opens o.first_node k logged_st ≡ some (st', text)
    → scan_tagged text ≡ some (old, t)
    → client_id ≤ t.client_id
    → server_handler o attempts unset line st ≡ some (st', text)
abd_write_ignored o attempts unset k v line text old timestamp t s s' st logged_st st' hk hv w l g
      scanned h =
    server_handler-abd_write o attempts unset k v line timestamp s s' st hk hv w
    ∙ ap (λ r. r >>= λ st1. server_1_put_request_abd o k v write_tag st1) l
    ∙ put_abd_older o k v text old write_tag t logged_st st' g scanned (write_tag_old t h)
