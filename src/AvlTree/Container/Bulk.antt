-- ===== src/AvlTree/Container/Bulk.antt =====
-- Insertion, upsert and update of a range of entries, `insert_if_missing`, `upsert` and `update` of
-- `basic_avl_tree` in include/smashtable/basic_avl_tree.hpp, for a range that is not said to be sorted.
-- Each entry comes with what the allocator would answer for it.
pub mod Known
pub mod Staged
pub mod Starved
pub mod Whole
use smash_table.Base.{
  ℕ, Bool, true, false, Option, none, some, List, [], ◌∷◌, if◌then◌else◌, is_nil,
}
use smash_table.Order.{Entry}
use smash_table.Placement.{refused, matched, made}
use smash_table.AvlTree.Container.{
  Container, empty, insert_if_missing, merge_with_upsert, merge_unique,
}
use smash_table.AvlTree.Cursor.Keys.{has_any_key, has_all_keys}

pub data RangeStatus : Type 0 where
  success out_of_memory_heap key_already_exists key_not_found : RangeStatus

module _ {V : Type 0} ⦃e : Entry V⦄ where
  -- the loop that fills `temp_tree`; `none` where an insertion failed
  unfoldable pub stage_range : Container V → List (V × Bool) → Option (Container V)
  stage_range temp_tree [] = some temp_tree
  stage_range temp_tree ((w, can_allocate) ∷ rest) =
      let placed = insert_if_missing temp_tree w can_allocate in
      let onward = stage_range placed.0 rest in
      elim placed.1.placement [ refused ↦ none | matched ↦ onward | made ↦ onward ]

  -- `none` where the fuel of the merge ran out
  unfoldable pub insert_range :
      ℕ → Container V → List (V × Bool) → Option (Container V × RangeStatus)
  insert_range fuel c range =
      if is_nil range then some (c, success) else elim (stage_range empty range) [
        | none ↦ some (c, out_of_memory_heap)
        | some temp_tree ↦
            if has_any_key fuel c.root temp_tree.root
            then some (c, key_already_exists)
            else elim (merge_unique fuel c temp_tree) [
              | none ↦ none
              | some merged ↦ some (merged.0, success)
            ]
      ]

  unfoldable pub upsert_range : Container V → List (V × Bool) → Container V × RangeStatus
  upsert_range c range = if is_nil range then (c, success) else elim (stage_range empty range) [
    | none ↦ (c, out_of_memory_heap)
    | some temp_tree ↦ ((merge_with_upsert c temp_tree).0, success)
  ]

  unfoldable pub update_range : ℕ → Container V → List (V × Bool) → Container V × RangeStatus
  update_range fuel c range =
      if is_nil range then (c, success) else elim (stage_range empty range) [
        | none ↦ (c, out_of_memory_heap)
        | some temp_tree ↦
            if has_all_keys fuel c.root temp_tree.root
            then ((merge_with_upsert c temp_tree).0, success)
            else (c, key_not_found)
      ]
