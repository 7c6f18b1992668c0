-- ===== src/ServerPart1/Tests.antt =====
-- Instances of the theorems about server-part1.c, and tests.
use cse511_lab.Prelude.{ℕ, [], ◌∷◌, none, some, ◌≡◌, ◌≢◌, refl, true, false, arith, replicate}
use cse511_lab.CString.{strcmp}
use cse511_lab.C0Tree.{Entry, Tree, null, node, size}
use cse511_lab.C0Tree.Ascending.{IsAscending, find}
use cse511_lab.C0Tree.Inorder.{inorder}
use cse511_lab.C0Tree.Ordered.{IsValid}
use cse511_lab.C1Disk.Store.{index_size}
use cse511_lab.C1Disk.Appended.{all_open}
use cse511_lab.Cache.{Cache, push_front}
use cse511_lab.ServerPart1.{
  Server, server_1_put_request, server_1_get_request, server_1_insert_request, put_c0,
}
use cse511_lab.ServerPart1.Requests.{get_request-put_request}
use cse511_lab.ServerPart1.Lost.{put_c0_lost}

-- an empty cache, and a server without data
abbrev pub empty_cache : Cache
empty_cache = record {
  heap = λ a. record { name = none; defn = none; next = none; prev = none };
  head = none;
  tail = none;
  count = 0;
}

abbrev pub start : Server
start = record {
  tree = null;
  cache = empty_cache;
  store = record {
    files = λ n. none;
    file_counter = none;
    metadata = record { counter_value = none; ssindex = replicate index_size (some 0) };
  };
  journal = record { tx_log = none; locked = false };
}

-- a valid entry whose key and value are one byte each
abbrev entry : ℕ → ℕ → Entry
entry k v = record { key = k ∷ []; value = v ∷ []; flag = 0 }

-- the server behind a put
abbrev one_put : Server
one_put = record start {
  tree = node null (entry 97 1) 0 null;
  cache = record (push_front 7 (97 ∷ []) (some (1 ∷ [])) empty_cache) { count = 1 };
}

put_one : server_1_put_request all_open 7 (97 ∷ []) (1 ∷ []) start ≡ some one_put
unfolding server_1_put_request
put_one = refl

get_request-put_request_example :
    server_1_get_request true 8 (97 ∷ []) one_put ≡ some (one_put, 1 ∷ [])
get_request-put_request_example =
    get_request-put_request all_open true 7 8 (97 ∷ []) (1 ∷ []) start one_put put_one

-- a second insert of the key is a duplicate
insert_duplicate : server_1_insert_request all_open 8 (97 ∷ []) (2 ∷ []) one_put ≡ some (one_put, 1)
unfolding server_1_insert_request strcmp push_front
insert_duplicate = refl

abbrev leaf : Entry → Tree
leaf e = node null e 0 null

-- the keys a to c under b
abbrev three : Tree
three = node (leaf (entry 97 1)) (entry 98 2) 1 (leaf (entry 99 3))

three-IsValid : IsValid three
unfolding IsAscending inorder strcmp
three-IsValid = record {
  balanced = omega arith;
  ascending = ((refl, (refl, tt)), ((refl, tt), (tt, tt)));
}

three_holds : find (97 ∷ []) (inorder (leaf (entry 97 1))) ≡ some (entry 97 1)
unfolding find inorder strcmp
three_holds = refl

three_small : size three ≢ 100
unfolding size
three_small = λ h. absurd (omega arith)

put_c0_lost_example :
    (t : Tree) × (put_c0 all_open (97 ∷ []) (9 ∷ []) (record start { tree = three })
      ≡ some (record start { tree = t }))
    × (inorder t ≡ inorder three)
put_c0_lost_example =
    put_c0_lost all_open (leaf (entry 97 1)) (entry 98 2) 1 (leaf (entry 99 3)) (97 ∷ []) (9 ∷ [])
      (entry 97 1) (record start { tree = three }) refl three-IsValid three_small three_holds
