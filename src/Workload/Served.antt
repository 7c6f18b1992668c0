-- ===== src/Workload/Served.antt =====
-- The lines of the workload of blocking_client.c, and of client.c, at the servers of server-part1.c.
use cse511_lab.Prelude.{
  ℕ, ◌≤◌, List, [], ◌∷◌, ◌++◌, none, some, ◌>>=◌, ◌≡◌, refl, ap, sym, ◌∙◌, subst, All, false,
  get_elem?, length,
}
use cse511_lab.CString.{CString}
use cse511_lab.CString.Tokens.{IsToken, strtok, strtok-blank, strtok_end}
use cse511_lab.Abd.{Tag}
use cse511_lab.ServerPart1.{Server, server_1_get_request}
use cse511_lab.ServerPart1.Abd.{Surroundings}
use cse511_lab.ServerPart1.Handler.{Attempt, starts_with, get_word, put_word, server_handler}
use cse511_lab.ServerPart1.Lines.{server_handler_short}
use cse511_lab.Blocking.{answer, write, put, react}
use cse511_lab.Blocking.Replicas.{request_of}
use cse511_lab.Client.Lines.{IsToken-put_word, IsToken-get_word}
use cse511_lab.Workload.{
  Doubles, n_key, generate_key_values, calc_cdf, next_command, abd_client_func,
}
use cse511_lab.Workload.Sends.{Asks, gets, puts, next_command-Asks}
use cse511_lab.Workload.Popular.{NonNegative, IsFiniteSum, Laws, All-get_elem?}
use cse511_lab.Workload.Keys.{IsKey, generate_key_values-IsKey, length-generate_key_values}

get_tokens :
    (o : Surroundings) (line rest k rest' : CString) (st : Server)
    → strtok line ≡ (some get_word, rest)
    → strtok rest ≡ (some k, rest')
    → react o line st ≡ (
        server_1_get_request o.file_opens o.first_node k st >>= λ (st', response).
        some (st', answer response))
unfolding react starts_with
get_tokens o line rest k rest' st e f = rw (e, react) (rw (e, f))

put_tokens :
    (o : Surroundings) (line rest k rest' v rest'' : CString) (st : Server)
    → strtok line ≡ (some put_word, rest)
    → strtok rest ≡ (some k, rest')
    → strtok rest' ≡ (some v, rest'')
    → react o line st ≡ some (st, write (request_of put k v line))
unfolding react starts_with
put_tokens o line rest k rest' v rest'' st e f g = rw (e, react) (rw (e, f) (rw (e, f, g)))

react-get :
    (o : Surroundings) (k : CString) (st : Server)
    → IsToken k
    → react o (get_word ++ 32 ∷ k) st ≡ (
        server_1_get_request o.file_opens o.first_node k st >>= λ (st', response).
        some (st', answer response))
react-get o k st h =
    get_tokens o (get_word ++ 32 ∷ k) k k [] st (strtok-blank get_word k IsToken-get_word)
      (strtok_end k h)

react-put :
    (o : Surroundings) (k v : CString) (st : Server)
    → IsToken k
    → IsToken v
    → react o (put_word ++ 32 ∷ (k ++ 32 ∷ v)) st
      ≡ some (st, write (request_of put k v (put_word ++ 32 ∷ (k ++ 32 ∷ v))))
react-put o k v st h i =
    put_tokens o (put_word ++ 32 ∷ (k ++ 32 ∷ v)) (k ++ 32 ∷ v) k v v [] st
      (strtok-blank put_word (k ++ 32 ∷ v) IsToken-put_word) (strtok-blank k v h) (strtok_end v i)

-- What server_handler_blocking makes of a line of the workload: the get of a key, or a write of it that
-- goes for the lock, with the line as it is logged.
pub data ReactsTo (o : Surroundings) (keys : List CString) (line : CString) : Type 0 where
  serves_get :
      (i : ℕ) (key : CString)
      → get_elem? keys i ≡ some key
      → ((st : Server)
          → react o line st ≡ (
              server_1_get_request o.file_opens o.first_node key st >>= λ (st', response).
              some (st', answer response)))
      → ReactsTo o keys line
  starts_put :
      (i : ℕ) (key val : CString)
      → get_elem? keys i ≡ some key
      → ((st : Server) → react o line st ≡ some (st, write (request_of put key val line)))
      → ReactsTo o keys line

IsToken-at :
    (keys : List CString) (i : ℕ) (key : CString)
    → All IsKey keys
    → get_elem? keys i ≡ some key
    → IsToken key
IsToken-at keys i key named h =
    let k : IsKey key = All-get_elem? IsKey keys i key named h in k.token

Asks-ReactsTo :
    (o : Surroundings) (keys : List CString) (line : CString)
    → All IsKey keys
    → Asks keys line
    → ReactsTo o keys line
Asks-ReactsTo o keys line named (gets i key h e) = serves_get i key h λ st.
    subst
      (λ l. react o l st ≡ (
        server_1_get_request o.file_opens o.first_node key st >>= λ (st', response).
        some (st', answer response)))
      (sym e) (react-get o key st (IsToken-at keys i key named h))
Asks-ReactsTo o keys line named (puts i key val h token e) = starts_put i key val h λ st.
    subst (λ l. react o l st ≡ some (st, write (request_of put key val l))) (sym e)
      (react-put o key val st (IsToken-at keys i key named h) token)

-- Whatever line the loop of client_func comes to next, server_handler_blocking takes it for the get of a
-- key or the put of a key that the client has generated. The popularities are not negative and have a
-- finite sum, there is one for each key, and rand returns no more than RAND_MAX.
pub next_command-ReactsTo :
    (d : Doubles) (laws : Laws d) (rand : ℕ → ℕ) (bounded : (n : ℕ) → rand n ≤ d.rand_max)
    (ps : List d.Double) (first n : ℕ) (o : Surroundings)
    → All (NonNegative d) ps
    → IsFiniteSum d ps
    → length ps ≡ n_key
    → (line : CString) × (n' : ℕ) × (next_command d rand
          (calc_cdf d ps)
          (generate_key_values rand first n_key)
          n
        ≡ some (line, n'))
      × ReactsTo o (generate_key_values rand first n_key) line
next_command-ReactsTo d laws rand bounded ps first n o nonneg fin size =
    let keys = generate_key_values rand first n_key in
    let named = generate_key_values-IsKey rand first n_key in
    let (line, n', sent, asks) =
      next_command-Asks d laws rand bounded ps nonneg fin size keys named
        (length-generate_key_values rand first n_key) n in
    (line, n', sent, Asks-ReactsTo o keys line named asks)

server_handler_untagged :
    (o : Surroundings) (attempts : List Attempt) (unset : Tag) (c k v : CString) (st : Server)
    → IsToken c
    → IsToken k
    → IsToken v
    → server_handler o attempts unset (c ++ 32 ∷ (k ++ 32 ∷ v)) st ≡ none
unfolding server_handler
server_handler_untagged o attempts unset c k v st hc hk hv =
    rw (strtok-blank c (k ++ 32 ∷ v) hc, strtok-blank k v hk, strtok_end v hv)

Asks-crash :
    (keys : List CString) (line : CString)
    → All IsKey keys
    → Asks keys line
    → (o : Surroundings) (attempts : List Attempt) (unset : Tag) (st : Server)
    → server_handler o attempts unset line st ≡ none
Asks-crash keys line named (gets i key h e) o attempts unset st =
    ap (λ l. server_handler o attempts unset l st) e
    ∙ server_handler_short o attempts unset get_word key st IsToken-get_word
        (IsToken-at keys i key named h)
Asks-crash keys line named (puts i key val h token e) o attempts unset st =
    ap (λ l. server_handler o attempts unset l st) e
    ∙ server_handler_untagged o attempts unset put_word key val st IsToken-put_word
        (IsToken-at keys i key named h) token

-- A thread of the workload of client.c, which is not answered, sends one line and stops; and its line,
-- which has no tag, crashes server_handler in every state. The popularities are not negative and have a
-- finite sum, there is one for each key, and rand returns no more than RAND_MAX.
pub abd_client_func_crashes :
    (d : Doubles) (laws : Laws d) (rand : ℕ → ℕ) (bounded : (n : ℕ) → rand n ≤ d.rand_max)
    (ps : List d.Double) (first arr_type arr_rate n : ℕ) (o : Surroundings)
    (attempts : List Attempt) (unset : Tag) (st : Server)
    → All (NonNegative d) ps
    → IsFiniteSum d ps
    → length ps ≡ n_key
    → (line : CString) × (abd_client_func d rand
          (calc_cdf d ps)
          (generate_key_values rand first n_key)
          arr_type
          arr_rate
          (λ i. false)
          n
        ≡ some (line ∷ []))
      × (server_handler o attempts unset line st ≡ none)
unfolding abd_client_func
abd_client_func_crashes d laws rand bounded ps first arr_type arr_rate n o attempts unset st nonneg
      fin size =
    let keys = generate_key_values rand first n_key in
    let named = generate_key_values-IsKey rand first n_key in
    let (line, n', sent, asks) =
      next_command-Asks d laws rand bounded ps nonneg fin size keys named
        (length-generate_key_values rand first n_key) n in
    (line, rw sent refl, Asks-crash keys line named asks o attempts unset st)
