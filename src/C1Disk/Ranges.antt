-- ===== src/C1Disk/Ranges.antt =====
-- The lines of a sorted file that c1_get of c1.c searches, by the index of update_sstable.
use Prim.Native.Nat.Ordering.{eq}
use cse511_lab.Prelude.{
  ℕ, zero, suc, ◌+◌, ◌*◌, ◌≤◌, List, [], ◌∷◌, ◌++◌, Option, none, some, ◌≡◌, ◌≢◌, refl, sym, ap,
  ◌∙◌, arith, get_elem?, get_or, take, drop, All, Ordering-cases, inl, inr, append_assoc,
}
use cse511_lab.CString.{CString, strcmp}
use cse511_lab.CString.Order.{eq_of_strcmp}
use cse511_lab.C0Tree.{Entry}
use cse511_lab.C0Tree.Ascending.{find}
use cse511_lab.C1Disk.{line_size, format_line}
use cse511_lab.C1Disk.Index.{idx_of, Slot, absent, here, later}
use cse511_lab.C1Disk.Line.{IsStorable, AllStorable, format_lines, format_line_lem}
use cse511_lab.C1Disk.Store.{char_to_idx}

abbrev pub key_idx : CString → Option ℕ
key_idx key = char_to_idx (get_or key 0 0)

head_append : (k rest : CString) → k ≢ [] → get_or (k ++ rest) 0 0 ≡ get_or k 0 0
head_append [] rest h = absurd (h refl)
head_append (c ∷ k) rest h = refl

pub idx_of-format_line : (e : Entry) → IsStorable e → idx_of (format_line e) ≡ key_idx e.key
idx_of-format_line e h =
    ap idx_of (format_line_lem e h ∙ append_assoc e.key _ _)
    ∙ ap char_to_idx (head_append e.key _ h.key_word.nonempty)

-- a list of entries whose keys have another index
abbrev pub AllOther : ℕ → List Entry → Type 0
AllOther k = All (λ e. key_idx e.key ≢ some k)

-- What a slot of the index says of the entries: that it stands for none, or the place of the first one.
pub data Place (k : ℕ) (es : List Entry) (n : ℕ) (old new : Option ℕ) : Type 0 where
  nowhere : new ≡ old → AllOther k es → Place k es n old new
  place :
      (p : ℕ) (e : Entry)
      → new ≡ some ((n + p) * line_size)
      → get_elem? es p ≡ some e
      → key_idx e.key ≡ some k
      → AllOther k (take p es)
      → Place k es n old new

pub Slot-Place :
    (k : ℕ) (es : List Entry) (n : ℕ) (old new : Option ℕ)
    → AllStorable es
    → Slot k (format_lines es) n old new
    → Place k es n old new
Slot-Place k [] n old new a absent = nowhere refl tt
Slot-Place k (e ∷ es) n old new (h, a) (here p) =
    let zero_more : n ≡ n + 0 = omega arith in
    place 0 e (ap (λ m. some (m * line_size)) zero_more) refl (sym (idx_of-format_line e h) ∙ p) tt
Slot-Place k (e ∷ es) n old new (h, a) (later p s) =
    let other : key_idx e.key ≢ some k = λ q. p (idx_of-format_line e h ∙ q) in
    elim (Slot-Place k es (n + 1) old new a s) [
      | nowhere q rest ↦ nowhere q (other, rest)
      | place m f q found idx before ↦
          let sum : n + 1 + m ≡ n + suc m = omega arith in
          place (suc m) f (q ∙ ap (λ j. some (j * line_size)) sum) found idx (other, before)
    ]

-- entries with another index do not have the key
other_key :
    (key : CString) (k : ℕ) (e : Entry)
    → key_idx key ≡ some k
    → key_idx e.key ≢ some k
    → strcmp key e.key ≢ eq
other_key key k e h o q = o (ap key_idx (sym (eq_of_strcmp key e.key q)) ∙ h)

pub find_next :
    (key : CString) (e : Entry) (es : List Entry)
    → strcmp key e.key ≢ eq
    → find key (e ∷ es) ≡ find key es
unfolding find
find_next key e es h = elim (Ordering-cases (strcmp key e.key)) [
  | inl p ↦ rw (p, find)
  | inr (inl p) ↦ absurd (h p)
  | inr (inr p) ↦ rw (p, find)
]

pub find-drop :
    (key : CString) (k p : ℕ) (es : List Entry)
    → key_idx key ≡ some k
    → AllOther k (take p es)
    → find key (drop p es) ≡ find key es
find-drop key k zero es h a = refl
find-drop key k (suc p) [] h a = refl
find-drop key k (suc p) (e ∷ es) h (o, a) =
    find-drop key k p es h a ∙ sym (find_next key e es (other_key key k e h o))

find-none :
    (key : CString) (k : ℕ) (es : List Entry)
    → key_idx key ≡ some k
    → AllOther k es
    → find key es ≡ none
find-none key k [] h a = unfold find in refl
find-none key k (e ∷ es) h (o, a) =
    find_next key e es (other_key key k e h o) ∙ find-none key k es h a

find_nil : (key : CString) → find key [] ≡ none
unfolding find
find_nil key = refl

pub find-take :
    (key : CString) (k p : ℕ) (es : List Entry)
    → key_idx key ≡ some k
    → AllOther k (drop p es)
    → find key (take p es) ≡ find key es
unfolding find
find-take key k zero es h a = find_nil key ∙ sym (find-none key k es h a)
find-take key k (suc p) [] h a = refl
find-take key k (suc p) (e ∷ es) h a = elim (Ordering-cases (strcmp key e.key)) [
  | inl q ↦ rw (q, find) (find-take key k p es h a)
  | inr (inl q) ↦ rw (q, find)
  | inr (inr q) ↦ rw (q, find) (find-take key k p es h a)
]

pub AllOther-drop :
    (k m p : ℕ) (es : List Entry) → p ≤ m → AllOther k (drop p es) → AllOther k (drop m es)
AllOther-drop k zero zero es h a = a
AllOther-drop k zero (suc p) es h a = absurd (omega arith)
AllOther-drop k (suc m) zero [] h a = tt
AllOther-drop k (suc m) zero (e ∷ es) h (o, a) = AllOther-drop k m zero es (omega arith) a
AllOther-drop k (suc m) (suc p) [] h a = tt
AllOther-drop k (suc m) (suc p) (e ∷ es) h a = AllOther-drop k m p es (omega arith) a
