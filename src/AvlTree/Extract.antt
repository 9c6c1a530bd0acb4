-- ===== src/AvlTree/Extract.antt =====
-- Removal from the AVL tree, "Removals" in include/smashtable/basic_avl_tree.hpp.
pub mod Taken
pub mod Correct
pub mod Heights
use smash_table.Base.{if◌then◌else◌}
use smash_table.Order.{Entry}
use smash_table.AvlTree.{Tree, null, node, is_node, set_left, set_right, update_height}
use smash_table.AvlTree.Rotate.{rebalance_after_extract}
use smash_table.AvlTree.Search.{find_min}

-- `extract_result_t`; the node taken out is `null` where there was none.
pub record ExtractResult (V : Type 0) : Type 0 where
  pub root : Tree V
  pub extracted : Tree V

module _ {V : Type 0} ⦃e : Entry V⦄ where
  -- `extract(node, comparator)`: pops the root. `from_right` is the call of the other overload on
  -- the right branch.
  unfoldable pub extract_root : Tree V → (e.Key → ExtractResult V) → ExtractResult V
  extract_root null from_right = record { root = null; extracted = null }
  extract_root (node null v h null) from_right = record {
    root = null;
    extracted = node null v 1 null;
  }
  extract_root (node (node ll lv lh lr) v h null) from_right = record {
    root = node ll lv lh lr;
    extracted = node null v 1 null;
  }
  extract_root (node null v h (node rl rv rh rr)) from_right = record {
    root = node rl rv rh rr;
    extracted = node null v 1 null;
  }
  extract_root (node (node ll lv lh lr) v h (node rl rv rh rr)) from_right =
      elim (find_min (node rl rv rh rr)) [
        | null ↦ record { root = null; extracted = null }
        | node _ least _ _ ↦
            let downstream = from_right (e.key least) in
            let successor = set_left downstream.extracted (node ll lv lh lr) in
            record {
              root = rebalance_after_extract (update_height (set_right successor downstream.root));
              extracted = node null v 1 null;
            }
      ]

  -- `extract(node, comparable, comparator)`
  unfoldable pub extract : Tree V → e.Key → ExtractResult V
  unfolding extract_root
  extract null q = record { root = null; extracted = null }
  extract (node l v h r) q =
      let from_left = extract l q in
      let from_right = extract r q in
      let shrunk_left = node from_left.root v h r in
      let shrunk_right = node l v h from_right.root in
      if e.less q (e.key v)
      then record {
        root =
            if is_node from_left.extracted
            then rebalance_after_extract shrunk_left
            else shrunk_left;
        extracted = from_left.extracted;
      }
      else (if e.less (e.key v) q
          then record {
            root =
                if is_node from_right.extracted
                then rebalance_after_extract shrunk_right
                else shrunk_right;
            extracted = from_right.extracted;
          }
          else extract_root (node l v h r) (extract r))
