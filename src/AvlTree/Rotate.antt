-- ===== src/AvlTree/Rotate.antt =====
-- Rotations and rebalancing of the AVL tree, "Rotations and Balancing", `rebalance_on_insert` and
-- `rebalance_after_extract` in include/smashtable/basic_avl_tree.hpp.
pub mod Heavy
pub mod Balance
use smash_table.Base.{ℕ, ◌&&◌, not, if◌then◌else◌}
use smash_table.Order.{Entry}
use smash_table.AvlTree.{
  Tree, null, node, left, right, set_left, set_right, update_height, balance_above, balance_below,
  fruit?,
}

module _ {V : Type 0} where
  unfoldable pub rotate_right : Tree V → Tree V
  rotate_right y =
      let x = left y in
      let z = right x in update_height (set_right x (update_height (set_left y z)))

  unfoldable pub rotate_left : Tree V → Tree V
  rotate_left x =
      let y = right x in
      let z = left y in update_height (set_left y (update_height (set_right x z)))

  unfoldable pub rebalance_after_extract : Tree V → Tree V
  unfolding rotate_left rotate_right
  rebalance_after_extract t =
      let t = update_height t in
      if balance_above 1 t && not (balance_below 0 (left t))
      then rotate_right t
      else (if balance_above 1 t && balance_below 0 (left t)
          then rotate_right (set_left t (rotate_left (left t)))
          else (if balance_below 1 t && not (balance_above 0 (right t))
              then rotate_left t
              else (if balance_below 1 t && balance_above 0 (right t)
                  then rotate_left (set_right t (rotate_right (right t)))
                  else t)))
