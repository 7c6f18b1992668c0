-- ===== src/C1Disk/Lookup.antt =====
-- c1_get of c1.c on a file and the index that update_sstable has made of it.
use Prim.Native.Nat.Ordering.{lt}
use cse511_lab.Prelude.{
  ℕ, zero, suc, ◌+◌, ◌*◌, ◌/◌, ◌<◌, ◌≤◌, false, List, [], ◌∷◌, Option, none, some, ◌≡◌, refl, sym,
  ap, ◌∙◌, subst, arith, length, get_elem?, take, drop, ◌==◌, ltb,
}
use cse511_lab.CString.{CString, strcmp}
use cse511_lab.CString.Scan.{IsWord}
use cse511_lab.C0Tree.{Entry}
use cse511_lab.C0Tree.Ascending.{IsAscending, Above}
use cse511_lab.C1Disk.{line_size}
use cse511_lab.C1Disk.Charset.{idx_mono}
use cse511_lab.C1Disk.Line.{AllStorable}
use cse511_lab.C1Disk.Ranges.{key_idx, AllOther, Place, nowhere, place}
use cse511_lab.C1Disk.Store.{drop_zero, start_line, end_line}

key_mono :
    (a b : CString) (i j : ℕ)
    → IsWord a
    → IsWord b
    → strcmp a b ≡ lt
    → key_idx a ≡ some i
    → key_idx b ≡ some j
    → i ≤ j
key_mono [] b i j v w h p q = absurd (v.nonempty refl)
key_mono (x ∷ s) [] i j v w h p q = absurd (w.nonempty refl)
key_mono (x ∷ s) (y ∷ t) i j v w h p q = idx_mono x y s t i j h v.bytes.0.1 p q

AllOther-Above :
    (k : ℕ) (key : CString) (es : List Entry)
    → IsWord key
    → AllStorable es
    → Above key es
    → key_idx key ≡ some (suc k)
    → AllOther k es
AllOther-Above k key [] w a h p = tt
AllOther-Above k key (e ∷ es) w (v, a) (o, h) p = (
  λ q. let bound = key_mono key e.key (suc k) k w v.key_word o p q in omega arith,
  AllOther-Above k key es w a h p,
)

-- from the first line of the next index on, no line has the index
AllOther-behind :
    (k p : ℕ) (e : Entry) (es : List Entry)
    → AllStorable es
    → IsAscending es
    → get_elem? es p ≡ some e
    → key_idx e.key ≡ some (suc k)
    → AllOther k (drop p es)
unfolding IsAscending
AllOther-behind k p e [] a s h q = cc
AllOther-behind k zero e (f ∷ es) (v, a) (up, s) h q =
    let same : f ≡ e = cc in
    let idx : key_idx f.key ≡ some (suc k) = ap (λ x. key_idx x.key) same ∙ q in
    (
      λ r. let both : some (suc k) ≡ some k = sym idx ∙ r in let eq : suc k ≡ k = cc in omega arith,
      AllOther-Above k f.key es v.key_word a up idx,
    )
AllOther-behind k (suc p) e (f ∷ es) (v, a) (up, s) h q = AllOther-behind k p e es a s h q

get_elem?_lt : (es : List Entry) (p : ℕ) (e : Entry) → get_elem? es p ≡ some e → p < length es
get_elem?_lt [] p e h = cc
get_elem?_lt (f ∷ es) zero e h = omega arith
get_elem?_lt (f ∷ es) (suc p) e h = let rest = get_elem?_lt es p e h in omega arith

AllOther-end : (k : ℕ) (es : List Entry) → AllOther k (drop (length es) es)
AllOther-end k [] = tt
AllOther-end k (e ∷ es) = AllOther-end k es

pub start_of :
    (k : ℕ) (es : List Entry) (old new : Option ℕ)
    → drop_zero old ≡ none
    → Place k es 0 old new
    → AllOther k (take (start_line (drop_zero new)) es)
start_of k es old new fresh (nowhere q rest) =
    let none_there : drop_zero new ≡ none = ap drop_zero q ∙ fresh in
    subst (λ o. AllOther k (take (start_line o) es)) (sym none_there) tt
start_of k es old new fresh (place zero e q found idx before) =
    let none_there : drop_zero new ≡ none = ap drop_zero q in
    subst (λ o. AllOther k (take (start_line o) es)) (sym none_there) tt
start_of k es old new fresh (place (suc p) e q found idx before) =
    let offset : drop_zero new ≡ some ((0 + suc p) * line_size) =
      ap drop_zero q
      ∙ (let more : ((0 + suc p) * line_size == 0) ≡ false = ground arith in rw more) in
    let line : start_line (drop_zero new) ≡ suc p = ap start_line offset ∙ omega arith in
    subst (λ m. AllOther k (take m es)) (sym line) before

pub stop_of :
    (k : ℕ) (es : List Entry) (old new : Option ℕ)
    → AllStorable es
    → IsAscending es
    → drop_zero old ≡ none
    → Place (suc k) es 0 old new
    → (end_line (length es) (drop_zero new) ≤ length es)
      × AllOther k (drop (end_line (length es) (drop_zero new)) es)
stop_of k es old new a s fresh (nowhere q rest) =
    let none_there : drop_zero new ≡ none = ap drop_zero q ∙ fresh in
    subst
      (λ o. (end_line (length es) o ≤ length es) × AllOther k (drop (end_line (length es) o) es))
      (sym none_there) (omega arith, AllOther-end k es)
stop_of k es old new a s fresh (place zero e q found idx before) =
    let none_there : drop_zero new ≡ none = ap drop_zero q in
    subst
      (λ o. (end_line (length es) o ≤ length es) × AllOther k (drop (end_line (length es) o) es))
      (sym none_there) (omega arith, AllOther-end k es)
stop_of k es old new a s fresh (place (suc p) e q found idx before) =
    let offset : drop_zero new ≡ some ((0 + suc p) * line_size) =
      ap drop_zero q
      ∙ (let more : ((0 + suc p) * line_size == 0) ≡ false = ground arith in rw more) in
    let less = get_elem?_lt es (suc p) e found in
    let line : (0 + suc p) * line_size / line_size ≡ suc p = omega arith in
    let inside : ltb (length es) ((0 + suc p) * line_size / line_size) ≡ false = ground arith in
    let stop : end_line (length es) (drop_zero new) ≡ suc p =
      ap (end_line (length es)) offset ∙ rw inside line in
    subst (λ m. (m ≤ length es) × AllOther k (drop m es)) (sym stop)
      (omega arith, AllOther-behind k (suc p) e es a s found idx)
