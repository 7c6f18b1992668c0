-- ===== src/Client/Replies.antt =====
-- The answers that client.c takes apart in abd_read, and the semaphore that it waits for.
use cse511_lab.Prelude.{
  ℕ, ◌+◌, ◌≤◌, List, [], ◌∷◌, ◌++◌, none, some, ◌≡◌, ◌≢◌, refl, ap, arith, Bool, true, false, ltb,
  ◌==◌, if◌then◌else◌, Option-cases, Bool-cases, All-append, inl, inr,
}
use cse511_lab.CString.{CString, print_uint32}
use cse511_lab.CString.Scan.{IsText, until_nul_lem, print_uint32-IsText}
use cse511_lab.CString.Tokens.{IsToken, IsToken-IsText, strtok-blank, strtok_end}
use cse511_lab.Abd.{Tag, abd_tag_cmp}
use cse511_lab.ServerPart1.Abd.{tagged_text}
use cse511_lab.ServerPart1.Handler.{atoi, put_word}
use cse511_lab.Client.{
  AbdArg, Semaphores, quorum, fresh_arg, take_reply, send_abd_read_query, abd_read_query, abd_read,
}
use cse511_lab.Client.Lines.{write_tag, write_query_sent}

-- the tag that the client makes of a value
abbrev pub tag_of_value : CString → Tag
tag_of_value v =
    let tag : Tag = record { timestamp = atoi v; client_id = atoi v } in
    if abd_tag_cmp tag write_tag == 0 then write_tag else tag

tagged_text-IsText : (v : CString) (t : Tag) → IsToken v → IsText (tagged_text v t)
tagged_text-IsText v t h =
    All-append (λ c. c ≢ 0) v
      (32 ∷ (print_uint32 t.timestamp ++ 32 ∷ (print_uint32 t.client_id ++ 10 ∷ [])))
      (IsToken-IsText v h)
      (
        omega arith,
        All-append (λ c. c ≢ 0) (print_uint32 t.timestamp)
            (32 ∷ (print_uint32 t.client_id ++ 10 ∷ [])) (print_uint32-IsText t.timestamp)
            (
              omega arith,
              All-append (λ c. c ≢ 0) (print_uint32 t.client_id) (10 ∷ [])
                  (print_uint32-IsText t.client_id) (omega arith, tt),
            ),
      )

take_reply_lem :
    (v : CString) (t : Tag) (zeros : List ℕ) (k : CString)
    → IsToken v
    → take_reply (tagged_text v t ++ 0 ∷ zeros) (fresh_arg k)
      ≡ some (record { key = k; value = some v; tag = tag_of_value v })
unfolding take_reply
take_reply_lem v t zeros k h = rw (
  until_nul_lem (tagged_text v t) zeros (tagged_text-IsText v t h),
  strtok-blank v (print_uint32 t.timestamp ++ 32 ∷ (print_uint32 t.client_id ++ 10 ∷ [])) h,
  strtok_end v h,
)

answer_taken :
    (v : CString) (t : Tag) (zeros : List ℕ) (k : CString) (s : Semaphores)
    → IsToken v
    → abd_read_query false (tagged_text v t ++ 0 ∷ zeros) k s
      ≡ some (
        record { key = k; value = some v; tag = tag_of_value v },
        record s { rq_sem = s.rq_sem + 1 },
      )
unfolding abd_read_query send_abd_read_query
answer_taken [] t zeros k s h = absurd (h.nonempty refl)
answer_taken (c ∷ w) t zeros k s h =
    let posted : ltb (s.rq_sem + 1) quorum ≡ false = ground arith in
    rw (take_reply_lem (c ∷ w) t zeros k h, posted)

-- When the server has answered abd_read with a value and its tag, the line of the write phase has the
-- value with a tag that is made of the value alone: the tag of the answer is not in it.
pub abd_read_loses_tag :
    (v k line : CString) (t : Tag) (zeros : List ℕ) (s s' : Semaphores)
    → IsToken v
    → abd_read false (tagged_text v t ++ 0 ∷ zeros) k s ≡ some (line, s')
    → line ≡ put_word ++ 32 ∷ (k ++ 32 ∷ tagged_text v (tag_of_value v))
unfolding abd_read
abd_read_loses_tag v k line t zeros s s' h read =
    let sent = rw (answer_taken v t zeros k s h) at read in
    write_query_sent k v line (tag_of_value v) (record s { rq_sem = s.rq_sem + 1 }) s' sent

query_posted :
    (early : Bool) (reply : List ℕ) (k : CString) (arg : AbdArg) (s s' : Semaphores)
    → abd_read_query early reply k s ≡ some (arg, s')
    → quorum ≤ s'.rq_sem
unfolding abd_read_query
query_posted early reply k arg s s' h =
    elim (Option-cases (
      if early
      then some (fresh_arg k, s.rq_sem)
      else send_abd_read_query reply (fresh_arg k) s.rq_sem)) [
        | inl p ↦ let stuck = rw (p, abd_read_query) at h in cc
        | inr ((arg', n), p) ↦
            let waited = rw (p, abd_read_query) at h in
            elim (Bool-cases (ltb n quorum)) [
              | inl q ↦ let stuck = rw q at waited in cc
              | inr q ↦
                  let done = rw q at waited in
                  let same : record s { rq_sem = n } ≡ s' = cc in
                  let count : n ≡ s'.rq_sem = ap (λ r. r.rq_sem) same in ground arith
            ]
      ]

-- Once abd_read_query has returned, its semaphore stays at the quorum, which nothing takes back: the next
-- call may return before any answer is there, with the value of its argument unset, and abd_read then
-- reads that value.
pub abd_read_query_stale :
    (reply reply' : List ℕ) (early : Bool) (k k' : CString) (arg : AbdArg) (s s' : Semaphores)
    → abd_read_query early reply k s ≡ some (arg, s')
    → (abd_read_query true reply' k' s' ≡ some (fresh_arg k', s'))
      × (abd_read true reply' k' s' ≡ none)
unfolding abd_read_query abd_read
abd_read_query_stale reply reply' early k k' arg s s' h =
    let enough = query_posted early reply k arg s s' h in
    let goes_on : ltb s'.rq_sem quorum ≡ false = ground arith in
    let returns : abd_read_query true reply' k' s' ≡ some (fresh_arg k', s') = rw goes_on refl in
    (returns, rw returns)
