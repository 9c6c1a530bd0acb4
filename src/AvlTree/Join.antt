-- ===== src/AvlTree/Join.antt =====
-- Splitting, joining and filtering of the AVL tree, "Split and Join" and `erase_if` in
-- include/smashtable/basic_avl_tree.hpp.
pub mod Around
pub mod Root
pub mod Cut
pub mod Filter
use smash_table.Base.{ℕ, ◌+◌, ltb, Bool, if◌then◌else◌}
use smash_table.Order.{Entry}
use smash_table.AvlTree.{
  Tree, null, node, set_left, set_right, get_height, larger_of, update_height,
}
use smash_table.AvlTree.Rotate.{rebalance_after_extract}
use smash_table.AvlTree.Search.{find_min}
use smash_table.AvlTree.Extract.{ExtractResult, extract_root, extract}

-- `split_result_t` of a node
pub record SplitResult (V : Type 0) : Type 0 where
  pub left : Tree V
  pub right : Tree V

-- `erase_if_result_t`
pub record EraseIfResult (V : Type 0) : Type 0 where
  pub root : Tree V
  pub count : ℕ

module _ {V : Type 0} where
  -- the last lines of `join_with_root_`: the root takes both sides as its links
  abbrev pub hang : Tree V → Tree V → Tree V → Tree V
  hang l root r = update_height (set_right (set_left root l) r)

  abbrev pub towers : Tree V → Tree V → Bool
  towers a b = ltb (get_height b + 1) (get_height a)

  -- `join_with_root_`. A null side is never the higher one.
  unfoldable pub join_around : Tree V → Tree V → Tree V → Tree V
  join_around null root null = hang null root null
  join_around null root (node rl rv rh rr) =
      let down_right =
        rebalance_after_extract (update_height (node (join_around null root rl) rv rh rr)) in
      if towers (node rl rv rh rr) null then down_right else hang null root (node rl rv rh rr)
  join_around (node ll lv lh lr) root null =
      let down_left =
        rebalance_after_extract (update_height (node ll lv lh (join_around lr root null))) in
      if towers (node ll lv lh lr) null then down_left else hang (node ll lv lh lr) root null
  join_around (node ll lv lh lr) root (node rl rv rh rr) =
      let down_left =
        rebalance_after_extract
          (update_height (node ll lv lh (join_around lr root (node rl rv rh rr)))) in
      let down_right =
        rebalance_after_extract
          (update_height (node (join_around (node ll lv lh lr) root rl) rv rh rr)) in
      if towers (node ll lv lh lr) (node rl rv rh rr)
      then down_left
      else (if towers (node rl rv rh rr) (node ll lv lh lr)
          then down_right
          else hang (node ll lv lh lr) root (node rl rv rh rr))

module _ {V : Type 0} ⦃e : Entry V⦄ where
  -- The root that `join` takes out of its right side is a node, so that the call of
  -- `join_with_root` there is one of `join_around`.
  unfoldable pub join : Tree V → Tree V → Tree V
  unfolding join_around
  join null r = r
  join (node ll lv lh lr) null = node ll lv lh lr
  join (node ll lv lh lr) (node rl rv rh rr) =
      let down_left =
        rebalance_after_extract (update_height (node ll lv lh (join lr (node rl rv rh rr)))) in
      let down_right =
        rebalance_after_extract (update_height (node (join (node ll lv lh lr) rl) rv rh rr)) in
      let even : Tree V = elim (find_min (node rl rv rh rr)) [
        | null ↦ null
        | node _ least _ _ ↦
            let taken = extract (node rl rv rh rr) (e.key least) in
            join_around (node ll lv lh lr) taken.extracted taken.root
      ] in
      if towers (node ll lv lh lr) (node rl rv rh rr)
      then down_left
      else (if towers (node rl rv rh rr) (node ll lv lh lr) then down_right else even)

  unfoldable pub join_with_root : Tree V → Tree V → Tree V → Tree V
  unfolding join_around join
  join_with_root l null r = join l r
  join_with_root l (node jl v h jr) r = join_around l (node jl v h jr) r

  unfoldable pub split : Tree V → e.Key → SplitResult V
  unfolding join_with_root
  split null q = record { left = null; right = null }
  split (node l v h r) q =
      let on_right = split r q in
      let on_left = split l q in
      if e.less (e.key v) q
      then record { left = join_with_root l (node l v h r) on_right.left; right = on_right.right }
      else record { left = on_left.left; right = join_with_root on_left.right (node l v h r) r }

  -- the deallocation of the dropped nodes is left out
  unfoldable pub erase_if : Tree V → (V → Bool) → EraseIfResult V
  unfolding extract_root
  erase_if null predicate = record { root = null; count = 0 }
  erase_if (node l v h r) predicate =
      let left_result = erase_if l predicate in
      let right_result = erase_if r predicate in
      let count = left_result.count + right_result.count in
      if predicate v
      then record {
        root =
            (extract_root (node left_result.root v h right_result.root)
              (extract right_result.root)).root;
        count = count;
      }
      else record {
        root = update_height (node left_result.root v h right_result.root);
        count = count + 1;
      }
