-- ===== src/ServerPart1/Dumps.antt =====
-- The timer of server-part1.c: c0_dump of c0.c stores the tree in the files of c1.c.
use cse511_lab.Prelude.{
  ℕ, suc, ◌<◌, true, false, List, [], some, ◌>>=◌, ◌≡◌, ◌≢◌, refl, sym, ap, ◌∙◌, arith, ◌==◌,
  length-replicate, replicate, append-nil,
}
use cse511_lab.CString.{CString}
use cse511_lab.C0Tree.{Entry, Tree, null, node, get, size, dump_to_array}
use cse511_lab.C0Tree.Ascending.{find}
use cse511_lab.C0Tree.Inorder.{inorder}
use cse511_lab.C0Tree.Reads.{dump_to_array_lem}
use cse511_lab.C1Disk.Appended.{all_open}
use cse511_lab.C1Disk.Batches.{c1_batch_insert_refines}
use cse511_lab.C1Disk.Fused.{fused, AllCovered}
use cse511_lab.C1Disk.Holds.{IsBatch, Holds, c1_get-Holds}
use cse511_lab.C1Disk.Oldest.{or_else, find-fused}
use cse511_lab.C1Disk.Ranges.{key_idx}
use cse511_lab.C1Disk.Search.{value_of}
use cse511_lab.C1Disk.Store.{Store, index_size}
use cse511_lab.Journal.{flush_log}
use cse511_lab.ServerPart1.{Server, blank, c0_dump, my_timer_handler, stored_value}

-- dumpToArray fills the array of c0_dump with the entries in order
dumped : (t : Tree) → (dump_to_array t (replicate (size t) blank) 0).0 ≡ inorder t
dumped t =
    let room = replicate (size t) blank in
    ap (λ es. (dump_to_array t es 0).0) (sym (append-nil room))
    ∙ ap (λ p. p.0) (dump_to_array_lem t [] room [] (length-replicate (size t) blank))
    ∙ append-nil (inorder t)

not_empty : (t : Tree) → inorder t ≢ [] → (size t == 0) ≡ false
unfolding inorder size
not_empty null h = absurd (h refl)
not_empty (node l e h' r) h = ground arith

c0_dump-Holds :
    (t : Tree) (old : List Entry) (st : Server)
    → Holds old st.store
    → IsBatch (inorder t)
    → AllCovered (inorder t) old
    → (store' : Store) × (c0_dump all_open t st
        ≡ some (record st { store = store'; journal = (flush_log st.journal).0 }))
      × Holds (fused (inorder t) old) store'
unfolding c0_dump
c0_dump-Holds t old st h b c =
    let (store', p, held) = c1_batch_insert_refines (inorder t) old st.store h b c in
    let full = not_empty t b.nonempty in
    (store', rw (full, c0_dump) (rw (dumped t) (rw p refl)), held)

-- The timer of a server whose current file holds entries, where all files open and the tree is not empty
-- and has valid and storable entries in ascending order, whose keys start with a byte of charset and none
-- of which comes behind all those of the file: the tree is empty then, the journal is flushed, the new file holds the
-- entries of both, and a request behind a miss of the cache reads each key but those of the last index from
-- it: the older value where there is one, and else that of the tree.
pub my_timer_handler-stored_value :
    (st : Server) (old : List Entry) (key : CString) (k : ℕ)
    → Holds old st.store
    → IsBatch (inorder st.tree)
    → AllCovered (inorder st.tree) old
    → key_idx key ≡ some k
    → suc k < index_size
    → (st' : Server) × (my_timer_handler all_open st ≡ some st')
      × (st'.tree ≡ null)
      × (st'.journal ≡ (flush_log st.journal).0)
      × Holds (fused (inorder st.tree) old) st'.store
      × (stored_value true key st' ≡ value_of (or_else (find key old) (find key (inorder st.tree))))
unfolding my_timer_handler stored_value get
my_timer_handler-stored_value st old key k h b c p less =
    let (store', q, held) = c0_dump-Holds st.tree old (record st { tree = null }) h b c in
    let read =
      c1_get-Holds (fused (inorder st.tree) old) store' key k held p less
      ∙ ap (λ o. some (value_of o))
          (find-fused key (inorder st.tree) old b.ascending h.batch.ascending) in
    (
      record st { tree = null; store = store'; journal = (flush_log st.journal).0 },
      q,
      refl,
      refl,
      held,
      ap (λ r. r >>= λ v. v) read,
    )
