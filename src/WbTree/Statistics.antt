-- ===== src/WbTree/Statistics.antt =====
-- Order statistics of the weight-balanced tree, "Order Statistics" in
-- include/smashtable/basic_wb_tree.hpp: descents on the stored counts.
pub mod Counts
pub mod Refresh
use smash_table.Base.{ℕ, ◌+◌, ◌-◌, Bool, true, false, ◌&&◌, not, ltb, ◌==◌, if◌then◌else◌}
use smash_table.Order.{Entry}
use smash_table.WbTree.{Tree, null, node, get_size, get_augmented_size, update_augmented_size}

module _ {V : Type 0} where
  unfoldable pub select : Tree V → ℕ → Tree V
  select null k = null
  select (node l v s a r) k =
      let left_size = get_size l in
      if ltb k left_size
      then select l k
      else (if k == left_size then node l v s a r else select r (k - left_size - 1))

module _ {V : Type 0} ⦃e : Entry V⦄ where
  unfoldable pub rank : Tree V → e.Key → ℕ
  rank null q = 0
  rank (node l v _ _ r) q =
      if e.less q (e.key v)
      then rank l q
      else (if e.less (e.key v) q then get_size l + 1 + rank r q else get_size l)

  unfoldable pub select_augmented : Tree V → ℕ → Tree V
  select_augmented null k = null
  select_augmented (node l v s a r) k =
      let left_count = get_augmented_size l in
      let k' = k - left_count in
      let own_count = e.augmented_count v in
      if ltb k left_count
      then select_augmented l k
      else (if not (own_count == 0) && k' == 0
          then node l v s a r
          else select_augmented r (k' - own_count))

  unfoldable pub rank_augmented_loop : Tree V → e.Key → ℕ → ℕ
  rank_augmented_loop null q counted = counted
  rank_augmented_loop (node l v _ _ r) q counted =
      if e.less q (e.key v)
      then rank_augmented_loop l q counted
      else (if e.less (e.key v) q
          then rank_augmented_loop r q (counted + (get_augmented_size l + e.augmented_count v))
          else counted + get_augmented_size l)

  unfoldable pub rank_augmented : Tree V → e.Key → ℕ
  unfolding rank_augmented_loop
  rank_augmented t q = rank_augmented_loop t q 0

  -- the tree after the repair, and whether the entry was found
  unfoldable pub refresh_augmentation : Tree V → e.Key → Tree V × Bool
  refresh_augmentation null q = (null, false)
  refresh_augmentation (node l v s a r) q =
      let in_left = refresh_augmentation l q in
      let in_right = refresh_augmentation r q in
      let with_left = node in_left.0 v s a r in
      let with_right = node l v s a in_right.0 in
      if e.less q (e.key v)
      then (if in_left.1 then update_augmented_size with_left else with_left, in_left.1)
      else (if e.less (e.key v) q
          then (if in_right.1 then update_augmented_size with_right else with_right, in_right.1)
          else (update_augmented_size (node l v s a r), true))

  -- `upserted_node_t::operator=` through the node of key `q`: the entry changes, the counts do not
  unfoldable pub assign : Tree V → e.Key → V → Tree V
  assign null q w = null
  assign (node l v s a r) q w =
      if e.less q (e.key v)
      then node (assign l q w) v s a r
      else (if e.less (e.key v) q then node l v s a (assign r q w) else node l w s a r)
