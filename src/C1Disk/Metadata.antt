-- ===== src/C1Disk/Metadata.antt =====
-- The bytes of the file sstable of c1.c, in which the index and the counter survive a restart.
use cse511_lab.Prelude.{
  ℕ, zero, suc, ◌+◌, ◌-◌, ◌*◌, ◌^◌, ◌<◌, List, [], ◌∷◌, ◌++◌, Option, none, some, ◌≡◌, refl, sym,
  ap, ap₂, ◌∙◌, arith, Bool, true, false, ltb, ◌==◌, if◌then◌else◌, length, take, drop, replicate,
  All, to_bytes, of_bytes, length-to_bytes, of_bytes-to_bytes, length-append, take_front,
  drop_front,
}
use cse511_lab.C1Disk.Store.{Metadata, index_size}

-- a signed integer of some bytes; of the negative ones only -1 occurs
unfoldable pub word_of : ℕ → Option ℕ → ℕ
word_of w none = 256 ^ w - 1
word_of w (some n) = n

unfoldable pub of_word : ℕ → ℕ → Option ℕ
of_word w n = if n == 256 ^ w - 1 then none else some n

-- `sizeof(int)` and `sizeof(long)`
abbrev pub int_size : ℕ
int_size = 4

abbrev pub long_size : ℕ
long_size = 8

-- `memcpy(…, md->ssindex, sizeof(md->ssindex))`
unfoldable pub long_bytes : List (Option ℕ) → List ℕ
unfolding word_of
long_bytes [] = []
long_bytes (o ∷ os) = to_bytes long_size (word_of long_size o) ++ long_bytes os

unfoldable pub read_longs : ℕ → List ℕ → List (Option ℕ)
unfolding of_word
read_longs zero bytes = []
read_longs (suc n) bytes =
    of_word long_size (of_bytes (take long_size bytes)) ∷ read_longs n (drop long_size bytes)

unfoldable pub marshall_metadata : Metadata → List ℕ
unfolding word_of long_bytes
marshall_metadata md =
    to_bytes int_size (word_of int_size md.counter_value) ++ long_bytes md.ssindex

unfoldable pub unmarshall_metadata : List ℕ → Metadata
unfolding of_word read_longs
unmarshall_metadata buffer = record {
  counter_value = of_word int_size (of_bytes (take int_size buffer));
  ssindex = read_longs index_size (drop int_size buffer);
}

-- `dump_metadata`: the file; none where it does not open, and fwrite gets NULL
unfoldable pub dump_metadata : Bool → Metadata → Option (List ℕ)
unfolding marshall_metadata
dump_metadata opens md = if opens then some (marshall_metadata md) else none

-- what calloc returns
abbrev pub zero_metadata : Metadata
zero_metadata = record { counter_value = some 0; ssindex = replicate index_size (some 0) }

-- `sizeof((*md)->ssindex) + sizeof(int)`
abbrev pub metadata_size : ℕ
metadata_size = index_size * long_size + int_size

-- `load_metadata` on a file, none where it does not open: the metadata and `file_counter`
unfoldable pub load_metadata : Option (List ℕ) → Option ℕ → Metadata × Option ℕ
unfolding unmarshall_metadata
load_metadata none file_counter = (zero_metadata, file_counter)
load_metadata (some bytes) file_counter =
    if ltb (length bytes) metadata_size
    then (zero_metadata, file_counter)
    else (unmarshall_metadata bytes, (unmarshall_metadata bytes).counter_value)

-- -1, or a number that the integer holds
abbrev pub Fits : ℕ → Option ℕ → Type 0
Fits w none = Unit
Fits w (some n) = suc n < 256 ^ w

of_word-word_of : (w : ℕ) (o : Option ℕ) → Fits w o → of_word w (word_of w o) ≡ o
unfolding of_word word_of
of_word-word_of w none h = let same : (256 ^ w - 1 == 256 ^ w - 1) ≡ true = ground arith in rw same
of_word-word_of w (some n) h = let other : (n == 256 ^ w - 1) ≡ false = ground arith in rw other

word_of_lt : (w : ℕ) (o : Option ℕ) → 0 < 256 ^ w → Fits w o → word_of w o < 256 ^ w
unfolding word_of
word_of_lt w none p h = omega arith
word_of_lt w (some n) p h = omega arith

read_word :
    (w : ℕ) (o : Option ℕ) (rest : List ℕ)
    → 0 < 256 ^ w
    → Fits w o
    → of_word w (of_bytes (take w (to_bytes w (word_of w o) ++ rest))) ≡ o
read_word w o rest p h =
    ap (λ l. of_word w (of_bytes l))
      (take_front w (to_bytes w (word_of w o)) rest (length-to_bytes w (word_of w o)))
    ∙ ap (of_word w) (of_bytes-to_bytes w (word_of w o) (word_of_lt w o p h))
    ∙ of_word-word_of w o h

read_longs-long_bytes :
    (os : List (Option ℕ)) (n : ℕ)
    → length os ≡ n
    → All (Fits long_size) os
    → read_longs n (long_bytes os) ≡ os
unfolding read_longs long_bytes
read_longs-long_bytes [] zero e h = refl
read_longs-long_bytes [] (suc n) e h = absurd (omega arith)
read_longs-long_bytes (o ∷ os) zero e h = absurd (omega arith)
read_longs-long_bytes (o ∷ os) (suc n) e (f, h) =
    let bytes = to_bytes long_size (word_of long_size o) in
    ap₂ (λ x l. x ∷ read_longs n l) (read_word long_size o (long_bytes os) (omega arith) f)
      (drop_front long_size bytes (long_bytes os) (length-to_bytes long_size (word_of long_size o)))
    ∙ ap (◌∷◌ o) (read_longs-long_bytes os n (omega arith) h)

length-long_bytes : (os : List (Option ℕ)) → length (long_bytes os) ≡ length os * long_size
unfolding long_bytes
length-long_bytes [] = refl
length-long_bytes (o ∷ os) =
    let bytes = to_bytes long_size (word_of long_size o) in
    omega (
      arith,
      length-append bytes (long_bytes os),
      length-to_bytes long_size (word_of long_size o),
      length-long_bytes os,
    )

length-marshall_metadata :
    (md : Metadata) → length md.ssindex ≡ index_size → length (marshall_metadata md) ≡ metadata_size
unfolding marshall_metadata
length-marshall_metadata md size =
    let counter = to_bytes int_size (word_of int_size md.counter_value) in
    omega (
      arith,
      length-append counter (long_bytes md.ssindex),
      length-to_bytes int_size (word_of int_size md.counter_value),
      length-long_bytes md.ssindex,
    )

unmarshall_metadata-marshall_metadata :
    (md : Metadata)
    → length md.ssindex ≡ index_size
    → Fits int_size md.counter_value
    → All (Fits long_size) md.ssindex
    → unmarshall_metadata (marshall_metadata md) ≡ md
unfolding unmarshall_metadata marshall_metadata
unmarshall_metadata-marshall_metadata md size f h =
    let counter = to_bytes int_size (word_of int_size md.counter_value) in
    ap₂ (λ c l. record { counter_value = c; ssindex = l })
      (read_word int_size md.counter_value (long_bytes md.ssindex) (omega arith) f)
      (ap (read_longs index_size) (
          drop_front int_size counter (long_bytes md.ssindex)
            (length-to_bytes int_size (word_of int_size md.counter_value)))
        ∙ read_longs-long_bytes md.ssindex index_size size h)

-- What dump_metadata writes, load_metadata reads back after a restart: the metadata, and file_counter
-- from them. The index has its 62 offsets, and every number is -1 or one that its integer holds.
pub load_metadata-dump_metadata :
    (md : Metadata) (file : List ℕ) (file_counter : Option ℕ)
    → length md.ssindex ≡ index_size
    → Fits int_size md.counter_value
    → All (Fits long_size) md.ssindex
    → dump_metadata true md ≡ some file
    → load_metadata (some file) file_counter ≡ (md, md.counter_value)
unfolding dump_metadata
load_metadata-dump_metadata md file file_counter size f h e =
    let same : marshall_metadata md ≡ file = cc in
    let bytes = length-marshall_metadata md size in
    let whole : ltb (length (marshall_metadata md)) metadata_size ≡ false = ground arith in
    ap (λ l. load_metadata (some l) file_counter) (sym same)
    ∙ (unfold load_metadata in
        rw whole
          (ap (λ m. (m, m.counter_value)) (unmarshall_metadata-marshall_metadata md size f h)))
