-- ===== src/ServerPart1/Tagged.antt =====
-- The tagged values that the requests of the ABD protocol store, and what they leave of the old ones.
use cse511_lab.Prelude.{
  ◌-◌, ◌<◌, ◌^◌, [], ◌∷◌, ◌++◌, some, ◌≡◌, ◌⊎◌, refl, sym, ap, ap₂, ◌∙◌, arith, true, ◌==◌, length,
  take, take_of_length_le, Bool-cases, Option-cases, inl, inr,
}
use cse511_lab.CString.{CString, print_uint32}
use cse511_lab.CString.Scan.{IsWord, scan_word-space, scan_uint32-print_uint32}
use cse511_lab.Abd.{Tag, abd_tag_cmp}
use cse511_lab.ServerPart1.{
  Server, server_1_get_request, server_1_put_request, server_1_insert_request,
}
use cse511_lab.ServerPart1.Requests.{Got, get_request-Got, get_request-put_request}
use cse511_lab.ServerPart1.Abd.{
  Surroundings, duplicate, scan_tagged, tagged_size, tagged_text, tagged_value,
  server_1_put_request_abd, server_1_insert_request_abd,
}

-- What snprintf writes for a word and a tag of 32 bits, sscanf reads back, when it fits into the buffer.
pub scan_tagged-tagged_value :
    (value : CString) (tag : Tag)
    → IsWord value
    → tag.timestamp < 2 ^ 32
    → tag.client_id < 2 ^ 32
    → length (tagged_text value tag) < tagged_size
    → scan_tagged (tagged_value value tag) ≡ some (value, tag)
unfolding scan_tagged tagged_value
scan_tagged-tagged_value value tag w t i fits =
    let whole : take (tagged_size - 1) (tagged_text value tag) ≡ tagged_text value tag =
      take_of_length_le (tagged_size - 1) (tagged_text value tag) (omega arith) in
    rw (
      whole,
      scan_word-space value
          (print_uint32 tag.timestamp ++ 32 ∷ (print_uint32 tag.client_id ++ 10 ∷ [])) w,
      scan_uint32-print_uint32 tag.timestamp 32 (print_uint32 tag.client_id ++ 10 ∷ []) t refl,
      scan_uint32-print_uint32 tag.client_id 10 [] i refl,
    )

put_abd_newer :
    (o : Surroundings) (key value text old : CString) (tag t : Tag) (st st1 st2 : Server)
    (answer : CString)
    → server_1_get_request o.file_opens o.first_node key st ≡ some (st1, text)
    → scan_tagged text ≡ some (old, t)
    → abd_tag_cmp tag t ≡ 1
    → server_1_put_request_abd o key value tag st ≡ some (st2, answer)
    → server_1_put_request o.opens o.second_node key (tagged_value old tag) st1 ≡ some st2
unfolding server_1_put_request_abd
put_abd_newer o key value text old tag t st st1 st2 answer g s n h =
    let got = rw (g, server_1_put_request_abd) at h in
    let scanned = rw s at got in
    let newer : (abd_tag_cmp tag t == 1) ≡ true = ground arith in
    let stored = rw newer at scanned in
    elim (Option-cases
      (server_1_put_request o.opens o.second_node key (tagged_value old tag) st1)) [
        | inl p ↦ let stuck = rw p at stored in cc
        | inr (st', p) ↦ let done = rw p at stored in let same : st' ≡ st2 = cc in p ∙ ap some same
      ]

-- Where server_1_get_request answers with an old value and its tag, and the new tag is newer, a
-- server_1_put_request_abd that returns has stored the old value with the new tag: a get of the key
-- answers with that, and not with the value of the request.
pub get_request-put_request_abd :
    (o o' : Surroundings) (key value text old : CString) (tag t : Tag) (st st1 st2 : Server)
    (answer : CString)
    → server_1_get_request o.file_opens o.first_node key st ≡ some (st1, text)
    → scan_tagged text ≡ some (old, t)
    → abd_tag_cmp tag t ≡ 1
    → server_1_put_request_abd o key value tag st ≡ some (st2, answer)
    → server_1_get_request o'.file_opens o'.first_node key st2 ≡ some (st2, tagged_value old tag)
get_request-put_request_abd o o' key value text old tag t st st1 st2 answer g s n h =
    get_request-put_request o.opens o'.file_opens o.second_node o'.first_node key
      (tagged_value old tag) st1 st2
      (put_abd_newer o key value text old tag t st st1 st2 answer g s n h)

insert_cached :
    (o : Surroundings) (key value : CString) (st st' : Server) (v : CString)
    → Got key st st' v
    → server_1_insert_request o.opens o.second_node key value st' ≡ some (st', 1)
unfolding server_1_insert_request
insert_cached o key value st st' v got =
    let (a, q, d) = got.found in rw (q, server_1_insert_request)

insert_abd_at :
    (o : Surroundings) (key value text : CString) (tag : Tag) (st st1 st2 : Server)
    (answer : CString)
    → server_1_get_request o.file_opens o.first_node key st ≡ some (st1, text)
    → server_1_insert_request_abd o key value tag st ≡ some (st2, answer)
    → (st2 ≡ st1) × ((answer ≡ duplicate) ⊎ (answer ≡ text))
unfolding server_1_insert_request_abd
insert_abd_at o key value text tag st st1 st2 answer g h =
    let read = rw (g, server_1_insert_request_abd) at h in
    elim (Option-cases (scan_tagged text)) [
      | inl p ↦ let stuck = rw p at read in cc
      | inr ((old, t), p) ↦
          let scanned = rw p at read in
          elim (Bool-cases (abd_tag_cmp tag t == 1)) [
            | inl n ↦
                let inserted = rw n at scanned in
                let refused =
                  rw
                    (insert_cached o key (tagged_value old tag) st st1 text
                      (get_request-Got o.file_opens o.first_node key text st st1 g))
                    at inserted in
                let same : st1 ≡ st2 = cc in
                let said : answer ≡ duplicate = cc in (sym same, inl said)
            | inr n ↦
                let kept = rw n at scanned in
                let same : st1 ≡ st2 = cc in
                let said : text ≡ answer = cc in (sym same, inr (sym said))
          ]
    ]

-- server_1_insert_request_abd never inserts: when it returns, the tree and the files are as before, and
-- the answer is DUPLICATE or the value that was there.
pub insert_request_abd_inserts_nothing :
    (o : Surroundings) (key value : CString) (tag : Tag) (st st' : Server) (answer : CString)
    → server_1_insert_request_abd o key value tag st ≡ some (st', answer)
    → (st'.tree ≡ st.tree)
      × (st'.store ≡ st.store)
      × ((answer ≡ duplicate)
          ⊎ (server_1_get_request o.file_opens o.first_node key st ≡ some (st', answer)))
unfolding server_1_insert_request_abd
insert_request_abd_inserts_nothing o key value tag st st' answer h =
    elim (Option-cases (server_1_get_request o.file_opens o.first_node key st)) [
      | inl p ↦ let stuck = rw (p, server_1_insert_request_abd) at h in cc
      | inr ((st1, text), p) ↦
          let (same, said) = insert_abd_at o key value text tag st st1 st' answer p h in
          let got : Got key st st1 text =
            get_request-Got o.file_opens o.first_node key text st st1 p in
          (
            ap (λ s. s.tree) same ∙ got.tree,
            ap (λ s. s.store) same ∙ got.store,
            elim said [
              | inl e ↦ inl e
              | inr e ↦ inr (p ∙ ap₂ (λ s t. some (s, t)) (sym same) (sym e))
            ],
          )
    ]
