-- ===== src/Abd/Order.antt =====
-- `abd_tag_cmp` of abd.c against the lexicographic order of tags.
use cse511_lab.Prelude.{◌<◌, ◌≡◌, ◌≢◌, ◌⊎◌, ◌↔◌, arith}
use cse511_lab.Abd.{Tag, abd_tag_cmp}

-- the order that the ABD protocol puts on tags
pub data Newer (a b : Tag) : Type 0 where
  later : b.timestamp < a.timestamp → Newer a b
  tie : a.timestamp ≡ b.timestamp → b.client_id < a.client_id → Newer a b

Newer-of_cmp : (a b : Tag) → abd_tag_cmp a b ≡ 1 → Newer a b
unfolding abd_tag_cmp
Newer-of_cmp a b h = grind (arith, later, tie)

cmp_of_Newer : (a b : Tag) → Newer a b → abd_tag_cmp a b ≡ 1
unfolding abd_tag_cmp
cmp_of_Newer a b (later h) = ground arith
cmp_of_Newer a b (tie e h) = ground arith

-- abd_tag_cmp returns 1 exactly when the first tag is newer than the second, lexicographically by
-- timestamp and then by client id.
pub abd_tag_cmp-Newer_iff : (a b : Tag) → (abd_tag_cmp a b ≡ 1) ↔ Newer a b
abd_tag_cmp-Newer_iff a b = (Newer-of_cmp a b, cmp_of_Newer a b)

-- Of two different tags exactly one is newer: the comparisons both ways answer 1 and 0, or 0 and 1.
pub abd_tag_cmp_total :
    (a b : Tag)
    → a ≢ b
    → ((abd_tag_cmp a b ≡ 1) × (abd_tag_cmp b a ≡ 0))
      ⊎ ((abd_tag_cmp a b ≡ 0) × (abd_tag_cmp b a ≡ 1))
unfolding abd_tag_cmp
abd_tag_cmp_total a b ne = ground arith

-- abd_tag_cmp is transitive: a tag newer than one that is newer than a third is newer than it.
pub abd_tag_cmp_trans :
    (a b c : Tag) → abd_tag_cmp a b ≡ 1 → abd_tag_cmp b c ≡ 1 → abd_tag_cmp a c ≡ 1
unfolding abd_tag_cmp
abd_tag_cmp_trans a b c h k = ground arith
