-- ===== src/WbTree/Insert.antt =====
-- Insertion into the weight-balanced tree, "Insertions" in
-- include/smashtable/basic_wb_tree.hpp. `matched` is the entry of the node that `match` names.
pub mod Validity
pub mod Sequence
use smash_table.Base.{Bool, true, false, Option, none, some, if◌then◌else◌}
pub use smash_table.Placement.{NodePlacement, refused, matched, made, is_made, is_refused}
use smash_table.Order.{Entry}
use smash_table.WbTree.{
  Tree, null, node, is_node, fruit?, update_size, update_augmented_size, reset_to_leaf,
}
use smash_table.WbTree.Rotate.{rebalance}

-- `find_or_make_result_t`
pub record FindOrMakeResult (V : Type 0) : Type 0 where
  pub root : Tree V
  pub match : Option V
  pub placement : NodePlacement

module _ {V : Type 0} ⦃e : Entry V⦄ where
  -- Where the tree has a node the code reads the entry of `new_child`, which no caller passes null.
  unfoldable pub insert : Tree V → Tree V → FindOrMakeResult V
  insert null new_child = record {
    root = new_child;
    match = fruit? new_child;
    placement = if is_node new_child then made else refused;
  }
  insert (node l v s a r) null = record { root = node l v s a r; match = none; placement = refused }
  insert (node l v s a r) (node cl c cs ca cr) =
      let in_left = insert l (node cl c cs ca cr) in
      let in_right = insert r (node cl c cs ca cr) in
      let grown_left = node in_left.root v s a r in
      let grown_right = node l v s a in_right.root in
      if e.less (e.key c) (e.key v)
      then record in_left {
        root = if is_made in_left.placement then rebalance (update_size grown_left) else grown_left;
      }
      else (if e.less (e.key v) (e.key c)
          then record in_right {
            root =
                if is_made in_right.placement
                then rebalance (update_size grown_right)
                else grown_right;
          }
          else record { root = node l v s a r; match = some v; placement = matched })

  -- `can_allocate` says whether the allocator has a node to give; it is asked once at most.
  unfoldable pub upsert : Tree V → V → Bool → FindOrMakeResult V
  upsert null w can_allocate =
      if can_allocate
      then record { root = reset_to_leaf (node null w 0 0 null); match = some w; placement = made }
      else record { root = null; match = none; placement = refused }
  upsert (node l v s a r) w can_allocate =
      let in_left = upsert l w can_allocate in
      let in_right = upsert r w can_allocate in
      let grown_left = node in_left.root v s a r in
      let grown_right = node l v s a in_right.root in
      if e.less (e.key w) (e.key v)
      then record in_left {
        root =
            if is_made in_left.placement
            then rebalance (update_size grown_left)
            else update_augmented_size grown_left;
      }
      else (if e.less (e.key v) (e.key w)
          then record in_right {
            root =
                if is_made in_right.placement
                then rebalance (update_size grown_right)
                else update_augmented_size grown_right;
          }
          else record {
            root = update_augmented_size (node l w s a r);
            match = some w;
            placement = matched;
          })
