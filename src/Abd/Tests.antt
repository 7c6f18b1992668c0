-- ===== src/Abd/Tests.antt =====
-- Instances of the theorems about abd.c, and tests.
use cse511_lab.Prelude.{◌≡◌, refl}
use cse511_lab.Abd.{Tag, abd_tag_cmp}

abbrev old : Tag
old = record { timestamp = 3; client_id = 10 }

abbrev rival : Tag
rival = record { timestamp = 3; client_id = 11 }

abbrev newest : Tag
newest = record { timestamp = 4; client_id = 2 }

newest-rival : abd_tag_cmp newest rival ≡ 1
unfolding abd_tag_cmp
newest-rival = refl

rival-old : abd_tag_cmp rival old ≡ 1
unfolding abd_tag_cmp
rival-old = refl
