-- ===== src/WbTree/Search.antt =====
-- Searches of the weight-balanced tree, "Traversal and Search" in
-- include/smashtable/basic_wb_tree.hpp. A returned node is the subtree that it roots.
pub mod Least
pub mod Sequence
use smash_table.Base.{if◌then◌else◌}
use smash_table.Order.{Entry}
use smash_table.WbTree.{Tree, null, node}

module _ {V : Type 0} where
  unfoldable pub find_min : Tree V → Tree V
  find_min null = null
  find_min (node null v s a r) = node null v s a r
  find_min (node (node ll lv ls la lr) v s a r) = find_min (node ll lv ls la lr)

  unfoldable pub find_max : Tree V → Tree V
  find_max null = null
  find_max (node l v s a null) = node l v s a null
  find_max (node l v s a (node rl rv rs ra rr)) = find_max (node rl rv rs ra rr)

module _ {V : Type 0} ⦃e : Entry V⦄ where
  unfoldable pub find : Tree V → e.Key → Tree V
  find null q = null
  find (node l v s a r) q =
      if e.less q (e.key v)
      then find l q
      else (if e.less (e.key v) q then find r q else node l v s a r)

  -- the loops keep the best candidate so far in `result`
  unfoldable pub lower_bound_loop : Tree V → e.Key → Tree V → Tree V
  lower_bound_loop null q result = result
  lower_bound_loop (node l v s a r) q result =
      if e.less (e.key v) q
      then lower_bound_loop r q result
      else lower_bound_loop l q (node l v s a r)

  unfoldable pub lower_bound : Tree V → e.Key → Tree V
  unfolding lower_bound_loop
  lower_bound t q = lower_bound_loop t q null

  unfoldable pub upper_bound_loop : Tree V → e.Key → Tree V → Tree V
  upper_bound_loop null q result = result
  upper_bound_loop (node l v s a r) q result =
      if e.less q (e.key v)
      then upper_bound_loop l q (node l v s a r)
      else upper_bound_loop r q result

  unfoldable pub upper_bound : Tree V → e.Key → Tree V
  unfolding upper_bound_loop
  upper_bound t q = upper_bound_loop t q null

  unfoldable pub find_successor : Tree V → Tree V → Tree V
  unfolding find_min upper_bound
  find_successor root null = find_min root
  find_successor root (node _ v _ _ _) = upper_bound root (e.key v)

  unfoldable pub predecessor_loop : Tree V → e.Key → Tree V → Tree V
  predecessor_loop null q predecessor = predecessor
  predecessor_loop (node l v s a r) q predecessor =
      if e.less (e.key v) q
      then predecessor_loop r q (node l v s a r)
      else predecessor_loop l q predecessor

  unfoldable pub find_predecessor : Tree V → Tree V → Tree V
  unfolding find_max predecessor_loop
  find_predecessor root null = find_max root
  find_predecessor root (node _ v _ _ _) = predecessor_loop root (e.key v) null
