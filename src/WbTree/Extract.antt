-- ===== src/WbTree/Extract.antt =====
-- Removal from the weight-balanced tree, "Removals" in include/smashtable/basic_wb_tree.hpp.
pub mod Taken
pub mod Correct
use smash_table.Base.{if◌then◌else◌}
use smash_table.Order.{Entry}
use smash_table.WbTree.{Tree, null, node, is_node, set_left, set_right, update_size, reset_to_leaf}
use smash_table.WbTree.Rotate.{rebalance}
use smash_table.WbTree.Search.{find_min}

-- `extract_result_t`; the node taken out is `null` where there was none.
pub record ExtractResult (V : Type 0) : Type 0 where
  pub root : Tree V
  pub extracted : Tree V

module _ {V : Type 0} ⦃e : Entry V⦄ where
  unfoldable pub rebalance_after_extract : Tree V → Tree V
  rebalance_after_extract t = rebalance (update_size t)

  -- `extract(node, comparator)`: pops the root. `from_right` is the call of the other overload on
  -- the right branch.
  unfoldable pub extract_root : Tree V → (e.Key → ExtractResult V) → ExtractResult V
  unfolding rebalance_after_extract
  extract_root null from_right = record { root = null; extracted = null }
  extract_root (node null v s a null) from_right = record {
    root = null;
    extracted = reset_to_leaf (node null v s a null);
  }
  extract_root (node (node ll lv ls la lr) v s a null) from_right = record {
    root = node ll lv ls la lr;
    extracted = reset_to_leaf (node null v s a null);
  }
  extract_root (node null v s a (node rl rv rs ra rr)) from_right = record {
    root = node rl rv rs ra rr;
    extracted = reset_to_leaf (node null v s a null);
  }
  extract_root (node (node ll lv ls la lr) v s a (node rl rv rs ra rr)) from_right =
      elim (find_min (node rl rv rs ra rr)) [
        | null ↦ record { root = null; extracted = null }
        | node _ least _ _ _ ↦
            let downstream = from_right (e.key least) in
            let midpoint = set_left downstream.extracted (node ll lv ls la lr) in
            record {
              root = rebalance_after_extract (set_right midpoint downstream.root);
              extracted = reset_to_leaf (node null v s a null);
            }
      ]

  -- `extract(node, comparable, comparator)`
  unfoldable pub extract : Tree V → e.Key → ExtractResult V
  unfolding extract_root rebalance_after_extract
  extract null q = record { root = null; extracted = null }
  extract (node l v s a r) q =
      let from_left = extract l q in
      let from_right = extract r q in
      let shrunk_left = node from_left.root v s a r in
      let shrunk_right = node l v s a from_right.root in
      if e.less q (e.key v)
      then record {
        root =
            if is_node from_left.extracted
            then rebalance_after_extract shrunk_left
            else shrunk_left;
        extracted = from_left.extracted;
      }
      else (if e.less (e.key v) q
          then record {
            root =
                if is_node from_right.extracted
                then rebalance_after_extract shrunk_right
                else shrunk_right;
            extracted = from_right.extracted;
          }
          else extract_root (node l v s a r) (extract r))
