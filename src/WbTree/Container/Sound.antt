-- ===== src/WbTree/Container/Sound.antt =====
-- The invariant of the container, and its contents as a function of keys,
-- include/smashtable/basic_wb_tree.hpp.
use smash_table.Base.{◌≡◌, refl, sym, ◌∙◌, length}
use smash_table.Order.{Entry}
use smash_table.Sorted.{IsSorted}
use smash_table.WbTree.{to_list, get_size}
use smash_table.WbTree.Statistics.Counts.{length-to_list}
use smash_table.WbTree.Rotate.Update.{IsValid}
use smash_table.WbTree.Container.{Container, empty}

module _ {V : Type 0} ⦃e : Entry V⦄ where
  -- balanced, with right counts, in ascending order of keys, and as large as it says
  pub record IsSound (c : Container V) : Type 0 where
    pub valid : IsValid c.root
    pub sorted : IsSorted (to_list c.root)
    pub counted : c.size ≡ get_size c.root

  pub empty-IsSound : IsSound empty
  empty-IsSound = record {
    valid = record { counted = tt; balanced = tt };
    sorted = tt;
    counted = refl;
  }

  pub length-IsSound : {c : Container V} → IsSound c → length (to_list c.root) ≡ c.size
  length-IsSound {c} h = length-to_list c.root h.valid.counted ∙ sym h.counted
