-- ===== src/WbTree/Join.antt =====
-- Splitting, joining and filtering of the weight-balanced tree, "Split and Join Operations" and
-- `erase_if` in include/smashtable/basic_wb_tree.hpp.
pub mod Root
pub mod Cut
use smash_table.Base.{ℕ, ◌+◌, ◌*◌, ltb, Bool, true, false, if◌then◌else◌}
use smash_table.Order.{Entry}
use smash_table.WbTree.{
  Tree, null, node, set_left, set_right, get_weight, update_size, reset_to_leaf, delta_k,
}
use smash_table.WbTree.Rotate.{rebalance}
use smash_table.WbTree.Search.{find_min}
use smash_table.WbTree.Extract.{ExtractResult, extract}

-- `split_result_t` of a node
pub record SplitResult (V : Type 0) : Type 0 where
  pub left : Tree V
  pub right : Tree V

-- `erase_if_result_t`
pub record EraseIfResult (V : Type 0) : Type 0 where
  pub root : Tree V
  pub count : ℕ

module _ {V : Type 0} ⦃e : Entry V⦄ where
  -- the last lines of `join_with_root`: `root` takes both sides as its links
  abbrev pub link : Tree V → Tree V → Tree V → Tree V
  link l root r = update_size (set_right (set_left root l) r)

  abbrev pub outweighs : Tree V → Tree V → Bool
  outweighs a b = ltb (delta_k * get_weight b) (get_weight a)

  -- A null side is never the heavy one, as its weight is 1.
  unfoldable pub join_with_root : Tree V → Tree V → Tree V → Tree V
  join_with_root null root null = link null root null
  join_with_root null root (node rl rv rs ra rr) =
      let down_right = rebalance (update_size (node (join_with_root null root rl) rv rs ra rr)) in
      if outweighs (node rl rv rs ra rr) null
      then down_right
      else link null root (node rl rv rs ra rr)
  join_with_root (node ll lv ls la lr) root null =
      let down_left = rebalance (update_size (node ll lv ls la (join_with_root lr root null))) in
      if outweighs (node ll lv ls la lr) null
      then down_left
      else link (node ll lv ls la lr) root null
  join_with_root (node ll lv ls la lr) root (node rl rv rs ra rr) =
      let down_left =
        rebalance (update_size (node ll lv ls la (join_with_root lr root (node rl rv rs ra rr)))) in
      let down_right =
        rebalance (update_size (node (join_with_root (node ll lv ls la lr) root rl) rv rs ra rr)) in
      if outweighs (node ll lv ls la lr) (node rl rv rs ra rr)
      then down_left
      else (if outweighs (node rl rv rs ra rr) (node ll lv ls la lr)
          then down_right
          else link (node ll lv ls la lr) root (node rl rv rs ra rr))

  unfoldable pub join : Tree V → Tree V → Tree V
  unfolding join_with_root
  join null r = r
  join (node ll lv ls la lr) null = node ll lv ls la lr
  join (node ll lv ls la lr) (node rl rv rs ra rr) = elim (find_min (node rl rv rs ra rr)) [
    | null ↦ null
    | node _ least _ _ _ ↦
        let taken = extract (node rl rv rs ra rr) (e.key least) in
        join_with_root (node ll lv ls la lr) taken.extracted taken.root
  ]

  unfoldable pub split : Tree V → e.Key → SplitResult V
  unfolding join_with_root
  split null q = record { left = null; right = null }
  split (node l v s a r) q =
      let on_right = split r q in
      let on_left = split l q in
      if e.less (e.key v) q
      then record { left = join_with_root l (node l v s a r) on_right.left; right = on_right.right }
      else record { left = on_left.left; right = join_with_root on_left.right (node l v s a r) r }

  -- the deallocation of the dropped nodes is left out
  unfoldable pub erase_if : Tree V → (V → Bool) → EraseIfResult V
  unfolding join join_with_root
  erase_if null predicate = record { root = null; count = 0 }
  erase_if (node l v s a r) predicate =
      let left_result = erase_if l predicate in
      let right_result = erase_if r predicate in
      let root = reset_to_leaf (node null v s a null) in
      let surviving = left_result.count + right_result.count in
      if predicate v
      then record { root = join left_result.root right_result.root; count = surviving }
      else record {
        root = join_with_root left_result.root root right_result.root;
        count = surviving + 1;
      }
