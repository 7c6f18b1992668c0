-- ===== src/ServerPart1/Requests.antt =====
-- A get request of server-part1.c behind a put request.
use cse511_lab.Prelude.{ℕ, none, refl, ap, ◌∙◌, some, ◌≡◌, subst, Option-cases, inl, inr, Bool}
use cse511_lab.CString.{CString}
use cse511_lab.C1Disk.Store.{Opens}
use cse511_lab.Cache.{Cache, cache_get, cache_put}
use cse511_lab.Cache.Recall.{cache_get-cache_put, cache_get_again}
use cse511_lab.ServerPart1.{
  Server, stored_value, put_c0, put_in_cache, server_1_put_request, server_1_get_request,
}

get_cached :
    (opens : Bool) (new a : ℕ) (key value : CString) (st : Server)
    → cache_get key st.cache ≡ some (st.cache, some a)
    → (st.cache.heap a).defn ≡ some value
    → server_1_get_request opens new key st ≡ some (st, value)
unfolding server_1_get_request
get_cached opens new a key value st p v = rw (p, server_1_get_request) (rw v)

get_after_cache :
    (opens : Bool) (new new' : ℕ) (key value : CString) (st st' : Server)
    → put_in_cache new key value st ≡ some st'
    → server_1_get_request opens new' key st' ≡ some (st', value)
unfolding put_in_cache
get_after_cache opens new new' key value st st' h =
    elim (Option-cases (cache_put new key (some value) st.cache)) [
      | inl p ↦ let stuck = rw (p, put_in_cache) at h in cc
      | inr (c, p) ↦
          let (a, q, v) = cache_get-cache_put new key (some value) st.cache c p in
          let put = rw (p, put_in_cache) at h in
          let same : record st { cache = c } ≡ st' = cc in
          subst (λ s. server_1_get_request opens new' key s ≡ some (s, value)) same
            (get_cached opens new' a key value (record st { cache = c }) q v)
    ]

-- What server_1_get_request leaves behind: only the cache may have changed, and it holds the answer.
pub record Got (key : CString) (st st' : Server) (value : CString) : Type 0 where
  pub tree : st'.tree ≡ st.tree
  pub store : st'.store ≡ st.store
  pub journal : st'.journal ≡ st.journal
  pub found :
      (a : ℕ) × (cache_get key st'.cache ≡ some (st'.cache, some a))
      × ((st'.cache.heap a).defn ≡ some value)

put_in_cache-Got :
    (new : ℕ) (key value : CString) (st st' : Server)
    → put_in_cache new key value st ≡ some st'
    → Got key st st' value
unfolding put_in_cache
put_in_cache-Got new key value st st' h =
    elim (Option-cases (cache_put new key (some value) st.cache)) [
      | inl p ↦ let stuck = rw (p, put_in_cache) at h in cc
      | inr (c, p) ↦
          let put = rw (p, put_in_cache) at h in
          let same : record st { cache = c } ≡ st' = cc in
          subst (λ s. Got key st s value) same
            (record {
              tree = refl;
              store = refl;
              journal = refl;
              found = cache_get-cache_put new key (some value) st.cache c p;
            })
    ]

get_hit :
    (opens : Bool) (new a : ℕ) (key value : CString) (st st' : Server) (c : Cache)
    → cache_get key st.cache ≡ some (c, some a)
    → server_1_get_request opens new key st ≡ some (st', value)
    → Got key st st' value
unfolding server_1_get_request
get_hit opens new a key value st st' c p h =
    let hit = rw (p, server_1_get_request) at h in
    elim (Option-cases (c.heap a).defn) [
      | inl q ↦ let stuck = rw q at hit in cc
      | inr (v, q) ↦
          let done = rw q at hit in
          let same : record st { cache = c } ≡ st' = cc in
          let equal : v ≡ value = cc in
          subst (λ s. Got key st s value) same
            (record {
              tree = refl;
              store = refl;
              journal = refl;
              found = (a, cache_get_again key st.cache c a p, q ∙ ap some equal);
            })
    ]

get_miss :
    (opens : Bool) (new : ℕ) (key value : CString) (st st' : Server) (c : Cache)
    → cache_get key st.cache ≡ some (c, none)
    → server_1_get_request opens new key st ≡ some (st', value)
    → Got key st st' value
unfolding server_1_get_request
get_miss opens new key value st st' c p h =
    let st1 = record st { cache = c } in
    let miss = rw (p, server_1_get_request) at h in
    elim (Option-cases (stored_value opens key st1)) [
      | inl q ↦ let stuck = rw q at miss in cc
      | inr (v, q) ↦
          let stored = rw q at miss in
          elim (Option-cases (put_in_cache new key v st1)) [
            | inl r ↦ let stuck = rw r at stored in cc
            | inr (st2, r) ↦
                let done = rw r at stored in
                let same : st2 ≡ st' = cc in
                let equal : v ≡ value = cc in
                let got : Got key st1 st2 v = put_in_cache-Got new key v st1 st2 r in
                subst (λ s. Got key st s value) same
                  (subst (λ w. Got key st st2 w) equal
                    (record {
                      tree = got.tree;
                      store = got.store;
                      journal = got.journal;
                      found = got.found;
                    }))
          ]
    ]

pub get_request-Got :
    (opens : Bool) (new : ℕ) (key value : CString) (st st' : Server)
    → server_1_get_request opens new key st ≡ some (st', value)
    → Got key st st' value
unfolding server_1_get_request
get_request-Got opens new key value st st' h = elim (Option-cases (cache_get key st.cache)) [
  | inl p ↦ let stuck = rw (p, server_1_get_request) at h in cc
  | inr ((c, none), p) ↦ get_miss opens new key value st st' c p h
  | inr ((c, some a), p) ↦ get_hit opens new a key value st st' c p h
]

-- A get request that has answered is answered in the same way the next time, from the cache, and changes
-- nothing then; whatever it has changed the first time is in the cache.
pub get_request_again :
    (opens opens' : Bool) (new new' : ℕ) (key value : CString) (st st' : Server)
    → server_1_get_request opens new key st ≡ some (st', value)
    → (server_1_get_request opens' new' key st' ≡ some (st', value))
      × (st'.tree ≡ st.tree)
      × (st'.store ≡ st.store)
get_request_again opens opens' new new' key value st st' h =
    let got : Got key st st' value = get_request-Got opens new key value st st' h in
    let (a, q, v) = got.found in (get_cached opens' new' a key value st' q v, got.tree, got.store)

-- After server_1_put_request has returned, server_1_get_request of the key answers with the value that
-- was put, and leaves the server as it is.
pub get_request-put_request :
    (o : Opens) (opens : Bool) (new new' : ℕ) (key value : CString) (st st' : Server)
    → server_1_put_request o new key value st ≡ some st'
    → server_1_get_request opens new' key st' ≡ some (st', value)
unfolding server_1_put_request
get_request-put_request o opens new new' key value st st' h =
    elim (Option-cases (put_c0 o key value st)) [
      | inl p ↦ let stuck = rw (p, server_1_put_request) at h in cc
      | inr (st1, p) ↦
          let rest = rw (p, server_1_put_request) at h in
          get_after_cache opens new new' key value st1 st' rest
    ]
