-- ===== src/ServerPart1/DumpTests.antt =====
-- An instance of the theorem about the timer of server-part1.c.
use cse511_lab.Prelude.{[], ◌∷◌, none, some, ◌≡◌, refl, true, arith}
use cse511_lab.Prelude.Signed.{pos}
use cse511_lab.C0Tree.{null, node}
use cse511_lab.C0Tree.Ascending.{find}
use cse511_lab.C0Tree.Inorder.{inorder}
use cse511_lab.C1Disk.Appended.{all_open}
use cse511_lab.C1Disk.Batches.{c1_batch_insert_first}
use cse511_lab.C1Disk.Fused.{fused}
use cse511_lab.C1Disk.Holds.{Holds}
use cse511_lab.C1Disk.Oldest.{or_else}
use cse511_lab.C1Disk.Search.{value_of}
use cse511_lab.C1Disk.Store.{Store, c1_batch_insert, char_to_idx}
use cse511_lab.C1Disk.Tests.{
  file_ab, no_files, IsBatch-ab, IsBatch-update_b, IsUnset-no_files, b_not_behind,
}
use cse511_lab.Journal.{flush_log}
use cse511_lab.ServerPart1.{Server, my_timer_handler, stored_value}
use cse511_lab.ServerPart1.Dumps.{my_timer_handler-stored_value}
use cse511_lab.ServerPart1.Tests.{start}

stored_ab :
    (st : Store) × (c1_batch_insert all_open file_ab no_files ≡ some (st, pos 0)) × Holds file_ab st
stored_ab = c1_batch_insert_first file_ab (λ k. none) no_files.metadata IsBatch-ab IsUnset-no_files

-- a server that has stored two entries, and has a new value of the second key in its tree
abbrev updated : Server
updated = record start {
  tree = node null (record { key = 66 ∷ []; value = 66 ∷ []; flag = 0 }) 1 null;
  store = stored_ab.0;
}

my_timer_handler-stored_value_example :
    (st' : Server) × (my_timer_handler all_open updated ≡ some st')
    × (st'.tree ≡ null)
    × (st'.journal ≡ (flush_log updated.journal).0)
    × Holds (fused (inorder updated.tree) file_ab) st'.store
    × (stored_value true (66 ∷ []) st'
        ≡ value_of (or_else (find (66 ∷ []) file_ab) (find (66 ∷ []) (inorder updated.tree))))
unfolding char_to_idx inorder
my_timer_handler-stored_value_example =
    my_timer_handler-stored_value updated file_ab (66 ∷ []) 11 stored_ab.2 IsBatch-update_b
      (b_not_behind, tt) refl (omega arith)
