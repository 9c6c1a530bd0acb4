-- ===== src/AvlTree/Search.antt =====
-- Searches of the AVL tree, "Traversal and Search" in include/smashtable/basic_avl_tree.hpp. A
-- returned node is the subtree that it roots.
pub mod Least
pub mod Sequence
use smash_table.Base.{◌&&◌, if◌then◌else◌}
use smash_table.Order.{Entry}
use smash_table.AvlTree.{Tree, null, node}

module _ {V : Type 0} where
  unfoldable pub find_min : Tree V → Tree V
  find_min null = null
  find_min (node null v h r) = node null v h r
  find_min (node (node ll lv lh lr) v h r) = find_min (node ll lv lh lr)

  unfoldable pub find_max : Tree V → Tree V
  find_max null = null
  find_max (node l v h null) = node l v h null
  find_max (node l v h (node rl rv rh rr)) = find_max (node rl rv rh rr)

module _ {V : Type 0} ⦃e : Entry V⦄ where
  unfoldable pub find : Tree V → e.Key → Tree V
  find null q = null
  find (node l v h r) q =
      if e.less q (e.key v)
      then find l q
      else (if e.less (e.key v) q then find r q else node l v h r)

  -- the loops keep the best candidate so far in `successor`
  unfoldable pub lower_bound_loop : Tree V → e.Key → Tree V → Tree V
  lower_bound_loop null q successor = successor
  lower_bound_loop (node l v h r) q successor =
      if e.less q (e.key v)
      then lower_bound_loop l q (node l v h r)
      else (if e.less (e.key v) q
          then lower_bound_loop r q successor
          else lower_bound_loop l q (node l v h r))

  unfoldable pub lower_bound : Tree V → e.Key → Tree V
  unfolding lower_bound_loop
  lower_bound t q = lower_bound_loop t q null

  unfoldable pub upper_bound_loop : Tree V → e.Key → Tree V → Tree V
  upper_bound_loop null q successor = successor
  upper_bound_loop (node l v h r) q successor =
      if e.less q (e.key v)
      then upper_bound_loop l q (node l v h r)
      else upper_bound_loop r q successor

  unfoldable pub upper_bound : Tree V → e.Key → Tree V
  unfolding upper_bound_loop
  upper_bound t q = upper_bound_loop t q null

  unfoldable pub lowest_common_ancestor : Tree V → e.Key → e.Key → Tree V
  lowest_common_ancestor null a b = null
  lowest_common_ancestor (node l v h r) a b =
      if e.less a (e.key v) && e.less b (e.key v)
      then lowest_common_ancestor l a b
      else (if e.less (e.key v) a && e.less (e.key v) b
          then lowest_common_ancestor r a b
          else node l v h r)
