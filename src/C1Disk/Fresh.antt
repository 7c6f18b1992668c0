-- ===== src/C1Disk/Fresh.antt =====
-- The first batch that c1_batch_insert of c1.c stores, and c1_get of its keys.
use cse511_lab.Prelude.{
  ℕ, zero, suc, ◌+◌, ◌-◌, ◌*◌, ◌<◌, Bool, true, false, List, [], ◌∷◌, Option, none, some, ◌≡◌, refl,
  sym, ap, ◌∙◌, subst, arith, length, get_elem?, get_elem?_in, set, length-set, length-replicate,
  drop, drop-drop, All, Bool-cases, inl, inr, replicate, map,
}
use cse511_lab.Prelude.Signed.{pos}
use cse511_lab.CString.{CString}
use cse511_lab.C0Tree.{Entry}
use cse511_lab.C0Tree.Ascending.{IsAscending, find}
use cse511_lab.C1Disk.{Block, line_size, c1_search}
use cse511_lab.C1Disk.Appended.{all_open}
use cse511_lab.C1Disk.Index.{index_lines-Slot}
use cse511_lab.C1Disk.Line.{AllStorable, format_lines}
use cse511_lab.C1Disk.Lookup.{start_of, stop_of}
use cse511_lab.C1Disk.Merge.{length-format_lines}
use cse511_lab.C1Disk.Ranges.{
  key_idx, idx_of-format_line, AllOther, Place, Slot-Place, find-drop, find-take, AllOther-drop,
}
use cse511_lab.C1Disk.Search.{value_of, c1_search_lem}
use cse511_lab.C1Disk.Store.{
  Store, Metadata, index_size, index_lines, drop_zero, update_sstable, write_file, start_line,
  end_line, index_current, c1_batch_insert, c1_get,
}

-- the search between the lines that the index gives finds what a search of the file finds
pub search_indexed :
    (es : List Entry) (key : CString) (k : ℕ) (old old' new new' : Option ℕ)
    → AllStorable es
    → IsAscending es
    → key_idx key ≡ some k
    → drop_zero old ≡ none
    → drop_zero old' ≡ none
    → Place k es 0 old new
    → Place (suc k) es 0 old' new'
    → c1_search
        (length (format_lines es) + 1)
        (format_lines es)
        key
        (start_line (drop_zero new))
        (end_line (length (format_lines es)) (drop_zero new'))
      ≡ some (value_of (find key es))
search_indexed es key k old old' new new' a s h fresh fresh' low high =
    let start = start_line (drop_zero new) in
    let stop = end_line (length es) (drop_zero new') in
    let size = length-format_lines es in
    let before = start_of k es old new fresh low in
    let (bound, behind) = stop_of k es old' new' a s fresh' high in
    let rest : AllOther k (drop (stop - start) (drop start es)) =
      subst (AllOther k) (sym (drop-drop start (stop - start) es))
        (AllOther-drop k (start + (stop - start)) stop es (omega arith) behind) in
    ap (λ n. c1_search (n + 1) (format_lines es) key start (end_line n (drop_zero new'))) size
    ∙ c1_search_lem (length es + 1) es key start stop a s bound (omega arith)
    ∙ ap (λ o. some (value_of o))
        (find-take key k (stop - start) (drop start es) h rest ∙ find-drop key k start es h before)

-- entries whose keys start with a byte of the index
abbrev pub AllIndexed : List Entry → Type 0
AllIndexed = All (λ e. (i : ℕ) × (key_idx e.key ≡ some i) × (i < index_size))

-- an index without offsets
abbrev pub IsUnset : List (Option ℕ) → Type 0
IsUnset ss =
    (i : ℕ)
    → i < index_size
    → (old : Option ℕ) × (get_elem? ss i ≡ some old) × (drop_zero old ≡ none)

pub index_returns :
    (es : List Entry) (n : ℕ) (mask : List Bool) (ss : List (Option ℕ))
    → AllStorable es
    → AllIndexed es
    → length mask ≡ index_size
    → (end : List (Option ℕ)) × (index_lines (format_lines es) n mask ss ≡ some end)
unfolding index_lines
index_returns [] n mask ss a x size = (ss, refl)
index_returns (e ∷ es) n mask ss (v, a) ((i, p, less), x) size =
    let idx = idx_of-format_line e v ∙ p in
    let (seen, q) = get_elem?_in mask i (omega arith) in
    elim (Bool-cases seen) [
      | inl b ↦
          let (end, r) = index_returns es (n + 1) mask ss a x size in
          (end, rw (idx, index_lines) (rw (q, b) r))
      | inr b ↦
          let (end, r) =
            index_returns es (n + 1) (set mask i true) (set ss i (some (n * line_size))) a x
              (length-set mask i true ∙ size) in
          (end, rw (idx, index_lines) (rw (q, b) r))
    ]

pub get_elem?-map :
    (f : Option ℕ → Option ℕ) (xs : List (Option ℕ)) (i : ℕ) (x : Option ℕ)
    → get_elem? xs i ≡ some x
    → get_elem? (map f xs) i ≡ some (f x)
get_elem?-map f [] i x h = cc
get_elem?-map f (y ∷ xs) zero x h = let same : y ≡ x = cc in ap (λ z. some (f z)) same
get_elem?-map f (y ∷ xs) (suc i) x h = get_elem?-map f xs i x h

pub get_elem?-replicate : (n i : ℕ) → i < n → get_elem? (replicate n false) i ≡ some false
get_elem?-replicate zero i h = absurd (omega arith)
get_elem?-replicate (suc n) zero h = refl
get_elem?-replicate (suc n) (suc i) h = get_elem?-replicate n i (omega arith)

-- The first batch of a store without files and offsets: c1_batch_insert of storable entries in ascending
-- order, whose keys start with a byte of charset, returns 0, and c1_get then answers each key but those
-- of the last index with the value of its entry, and with NULL where the batch has no such entry.
pub c1_get-c1_batch_insert :
    (es : List Entry) (key : CString) (k : ℕ) (files : ℕ → Option (List Block)) (md : Metadata)
    → AllStorable es
    → IsAscending es
    → AllIndexed es
    → IsUnset md.ssindex
    → key_idx key ≡ some k
    → suc k < index_size
    → (st : Store) × (c1_batch_insert all_open es
          (record { files = files; file_counter = none; metadata = md })
        ≡ some (st, pos 0))
      × (c1_get true key st ≡ some (value_of (find key es)))
unfolding c1_batch_insert c1_get index_current update_sstable
c1_get-c1_batch_insert es key k files md a s x unset h last =
    let file = format_lines es in
    let mask = replicate index_size false in
    let (end, r) =
      index_returns es 0 mask md.ssindex a x (length-replicate {A = Bool} index_size false) in
    let (old, o, fresh) = unset k (omega arith) in
    let (old', o', fresh') = unset (suc k) last in
    let (new, e, slot) =
      index_lines-Slot file 0 k mask md.ssindex end old r
        (get_elem?-replicate index_size k (omega arith)) o in
    let (new', e', slot') =
      index_lines-Slot file 0 (suc k) mask md.ssindex end old' r
        (get_elem?-replicate index_size (suc k) last) o' in
    let found = get_elem?-map drop_zero end k new e in
    let next : get_elem? (map drop_zero end) (k + 1) ≡ some (drop_zero new') =
      let sum : k + 1 ≡ suc k = omega arith in
      ap (get_elem? (map drop_zero end)) sum ∙ get_elem?-map drop_zero end (suc k) new' e' in
    let search =
      search_indexed es key k old old' new new' a s h fresh fresh'
        (Slot-Place k es 0 old new a slot) (Slot-Place (suc k) es 0 old' new' a slot') in
    (
      record {
        files = write_file 0 file files;
        file_counter = some 0;
        metadata = record { counter_value = some 0; ssindex = map drop_zero end };
      },
      rw r refl,
      rw (h, found, next) search,
    )
