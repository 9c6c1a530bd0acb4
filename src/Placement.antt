-- ===== src/Placement.antt =====
-- What an insertion did with the key it was handed, `node_placement_t`, which the two search trees
-- declare alike.
use smash_table.Base.{Bool, true, false}

-- `node_placement_t`
pub data NodePlacement : Type 0 where
  refused matched made : NodePlacement

abbrev pub is_made : NodePlacement → Bool
is_made made = true
is_made refused = false
is_made matched = false

-- `failed`
abbrev pub is_refused : NodePlacement → Bool
is_refused refused = true
is_refused matched = false
is_refused made = false
