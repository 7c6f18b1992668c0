-- ===== src/Abd.antt =====
-- abd.c and abd.h: the tags of the ABD protocol and their comparison.
pub mod Order
mod Tests
use cse511_lab.Prelude.{ℕ, ltb, ◌==◌, if◌then◌else◌, ◌&&◌}

-- `abd_tag_t`; both fields are `uint32_t`, and are only compared here.
pub record Tag : Type 0 where
  pub timestamp : ℕ
  pub client_id : ℕ

-- `one->timestamp > two->timestamp` reads `ltb two.timestamp one.timestamp`.
unfoldable pub abd_tag_cmp : Tag → Tag → ℕ
abd_tag_cmp one two =
    if ltb two.timestamp one.timestamp
    then 1
    else if one.timestamp == two.timestamp && ltb two.client_id one.client_id
    then 1
    else 0
