-- ===== src/C1Disk/Holds.antt =====
-- What a store of c1.c holds: the entries of its current file, and an index that fits them.
use cse511_lab.Prelude.{
  ℕ, zero, suc, ◌+◌, ◌<◌, true, false, Bool, List, [], ◌∷◌, Option, none, some, ◌≡◌, ◌≢◌, refl, ap,
  ◌∙◌, ◌>>=◌, arith, get_elem?, map, replicate, length-replicate,
}
use cse511_lab.Prelude.Signed.{pos}
use cse511_lab.CString.{CString}
use cse511_lab.C0Tree.{Entry}
use cse511_lab.C0Tree.Ascending.{IsAscending, find}
use cse511_lab.C1Disk.Appended.{all_open}
use cse511_lab.C1Disk.Fresh.{
  AllIndexed, search_indexed, index_returns, get_elem?-map, get_elem?-replicate,
}
use cse511_lab.C1Disk.Fused.{AllValid}
use cse511_lab.C1Disk.Index.{index_lines-Slot}
use cse511_lab.C1Disk.Line.{AllStorable, format_lines}
use cse511_lab.C1Disk.Ranges.{key_idx, AllOther, Place, nowhere, place, Slot-Place}
use cse511_lab.C1Disk.Search.{value_of}
use cse511_lab.C1Disk.Store.{
  Store, Metadata, index_size, drop_zero, index_current, update_sstable, c1_get,
}

-- entries that c1_batch_insert can store and find again
pub record IsBatch (es : List Entry) : Type 0 where
  pub nonempty : es ≢ []
  pub storable : AllStorable es
  pub ascending : IsAscending es
  pub indexed : AllIndexed es
  pub valid : AllValid es

-- an index whose slots say where the entries with a byte begin, or nothing where there is none
abbrev pub IsIndexOf : List Entry → List (Option ℕ) → Type 0
IsIndexOf es ss =
    (i : ℕ)
    → i < index_size
    → (new : Option ℕ) × (get_elem? ss i ≡ some (drop_zero new)) × Place i es 0 none new

pub record Holds (es : List Entry) (st : Store) : Type 0 where
  pub batch : IsBatch es
  pub number : ℕ
  pub current : st.file_counter ≡ some number
  pub file : st.files number ≡ some (format_lines es)
  pub index : IsIndexOf es st.metadata.ssindex

-- an index without an offset where there is no entry
abbrev pub IsUnsetOutside : List Entry → List (Option ℕ) → Type 0
IsUnsetOutside es ss =
    (i : ℕ)
    → i < index_size
    → (old : Option ℕ) × (get_elem? ss i ≡ some old) × (AllOther i es → drop_zero old ≡ none)

Place-forget :
    (i : ℕ) (es : List Entry) (old new : Option ℕ)
    → (AllOther i es → drop_zero old ≡ none)
    → Place i es 0 old new
    → (new' : Option ℕ) × (drop_zero new ≡ drop_zero new') × Place i es 0 none new'
Place-forget i es old new h (nowhere p a) = (none, ap drop_zero p ∙ h a, nowhere refl a)
Place-forget i es old new h (place m e p q r a) = (new, refl, place m e p q r a)

-- the loop of update_sstable makes an index of a file whatever offsets the entries had before
pub index_current-Holds :
    (es : List Entry) (n : ℕ) (st : Store)
    → IsBatch es
    → st.file_counter ≡ some n
    → st.files n ≡ some (format_lines es)
    → IsUnsetOutside es st.metadata.ssindex
    → (st' : Store) × (index_current all_open (st, pos 0) ≡ some (st', pos 0)) × Holds es st'
unfolding index_current update_sstable
index_current-Holds es n st b c f u =
    let mask = replicate index_size false in
    let (end, r) =
      index_returns es 0 mask st.metadata.ssindex b.storable b.indexed
        (length-replicate {A = Bool} index_size false) in
    let index : IsIndexOf es (map drop_zero end) = λ i less.
      (let (old, o, fresh) = u i less in
        let (new, e, slot) =
          index_lines-Slot (format_lines es) 0 i mask st.metadata.ssindex end old r
            (get_elem?-replicate index_size i less) o in
        let (new', q, place') =
          Place-forget i es old new fresh (Slot-Place i es 0 old new b.storable slot) in
        (new', get_elem?-map drop_zero end i new e ∙ ap some q, place')) in
    let md : Metadata = record { counter_value = st.file_counter; ssindex = map drop_zero end } in
    (
      record st { metadata = md },
      rw (c, f) (rw r refl),
      record { batch = b; number = n; current = c; file = f; index = index },
    )

-- from an entry with the index on, not all have another
found_other :
    (i m : ℕ) (es : List Entry) (e : Entry)
    → get_elem? es m ≡ some e
    → key_idx e.key ≡ some i
    → ¬ AllOther i es
found_other i m [] e h p a = cc
found_other i zero (f ∷ es) e h p (o, a) =
    let same : f ≡ e = cc in o (ap (λ x. key_idx x.key) same ∙ p)
found_other i (suc m) (f ∷ es) e h p (o, a) = found_other i m es e h p a

unset_twice :
    (i : ℕ) (es : List Entry) (new : Option ℕ)
    → Place i es 0 none new
    → AllOther i es
    → drop_zero (drop_zero new) ≡ none
unset_twice i es new (nowhere p a) b = ap (λ o. drop_zero (drop_zero o)) p
unset_twice i es new (place m e p q r a) b = absurd (found_other i m es e q r b)

-- the slots of the entries that a store holds are unset outside of any more entries
pub IsIndexOf-IsUnsetOutside :
    (es es' : List Entry) (ss : List (Option ℕ))
    → ((i : ℕ) → AllOther i es' → AllOther i es)
    → IsIndexOf es ss
    → IsUnsetOutside es' ss
IsIndexOf-IsUnsetOutside es es' ss more h i less =
    let (new, e, p) = h i less in (drop_zero new, e, λ a. unset_twice i es new p (more i a))

-- c1_get of a store answers each key but those of the last index with the value of its entry, and with
-- NULL where there is none.
pub c1_get-Holds :
    (es : List Entry) (st : Store) (key : CString) (k : ℕ)
    → Holds es st
    → key_idx key ≡ some k
    → suc k < index_size
    → c1_get true key st ≡ some (value_of (find key es))
unfolding c1_get
c1_get-Holds es st key k h p less =
    let (new, e, low) = h.index k (omega arith) in
    let (new', e', high) = h.index (suc k) less in
    let sum : k + 1 ≡ suc k = omega arith in
    let next : get_elem? st.metadata.ssindex (k + 1) ≡ some (drop_zero new') =
      ap (get_elem? st.metadata.ssindex) sum ∙ e' in
    let file : (st.file_counter >>= st.files) ≡ some (format_lines es) =
      ap (λ o. o >>= st.files) h.current ∙ h.file in
    rw (file, c1_get)
      (rw (p, e, next)
        (search_indexed es key k none none new new' h.batch.storable h.batch.ascending p refl refl
          low high))
