-- ===== src/WbTree/Rotate.antt =====
-- Rotations and rebalancing of the weight-balanced tree, "Rotations and Rebalancing" in
-- include/smashtable/basic_wb_tree.hpp.
pub mod Sequence
pub mod Balance
pub mod Update
use smash_table.Base.{ℕ, ◌*◌, ltb, if◌then◌else◌}
use smash_table.Order.{Entry}
use smash_table.WbTree.{
  Tree, null, node, left, right, set_left, set_right, get_weight, update_size, delta_k, gamma_k,
}

module _ {V : Type 0} ⦃e : Entry V⦄ where
  unfoldable pub rotate_right : Tree V → Tree V
  rotate_right y =
      let x = left y in let b = right x in update_size (set_right x (update_size (set_left y b)))

  unfoldable pub rotate_left : Tree V → Tree V
  rotate_left x =
      let y = right x in let b = left y in update_size (set_left y (update_size (set_right x b)))

  -- the two branches of `rebalance` that rotate, under the test that one side is too heavy
  unfoldable pub lighten_left : Tree V → Tree V
  unfolding rotate_left rotate_right
  lighten_left t =
      let l = left t in
      if ltb (get_weight (right l)) (gamma_k * get_weight (left l))
      then rotate_right t
      else rotate_right (set_left t (rotate_left l))

  unfoldable pub lighten_right : Tree V → Tree V
  unfolding rotate_left rotate_right
  lighten_right t =
      let r = right t in
      if ltb (get_weight (left r)) (gamma_k * get_weight (right r))
      then rotate_left t
      else rotate_left (set_right t (rotate_right r))

  unfoldable pub rebalance : Tree V → Tree V
  unfolding lighten_left lighten_right
  rebalance null = null
  rebalance (node l v s a r) =
      if ltb (delta_k * get_weight r) (get_weight l)
      then lighten_left (node l v s a r)
      else (if ltb (delta_k * get_weight l) (get_weight r)
          then lighten_right (node l v s a r)
          else node l v s a r)
