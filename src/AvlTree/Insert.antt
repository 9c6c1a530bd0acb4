-- ===== src/AvlTree/Insert.antt =====
-- Insertion into the AVL tree, "Insertions" in include/smashtable/basic_avl_tree.hpp. `match` is the
-- entry of the node that the result names.
pub mod Turned
pub mod Turn
pub mod Correct
use smash_table.Base.{Bool, false, ◌&&◌, Option, none, some, if◌then◌else◌}
use smash_table.Order.{Entry}
use smash_table.Placement.{NodePlacement, refused, matched, made, is_made}
use smash_table.AvlTree.{
  Tree, null, node, is_node, fruit?, left, right, set_left, set_right, update_height, balance_above,
  balance_below,
}
use smash_table.AvlTree.Rotate.{rotate_left, rotate_right}

-- `find_or_make_result_t`
pub record FindOrMakeResult (V : Type 0) : Type 0 where
  pub root : Tree V
  pub match : Option V
  pub placement : NodePlacement

module _ {V : Type 0} where
  -- a new node with its links cleared
  abbrev pub as_leaf : Tree V → Tree V
  as_leaf null = null
  as_leaf (node _ v _ _) = node null v 1 null

module _ {V : Type 0} ⦃e : Entry V⦄ where
  -- the key on either side of the entry of a node
  abbrev pub precedes : e.Key → Tree V → Bool
  precedes q null = false
  precedes q (node _ v _ _) = e.less q (e.key v)

  abbrev pub follows : e.Key → Tree V → Bool
  follows q null = false
  follows q (node _ v _ _) = e.less (e.key v) q

  unfoldable pub rebalance_on_insert : Tree V → e.Key → Tree V
  unfolding rotate_left rotate_right
  rebalance_on_insert t q =
      let t = update_height t in
      if balance_above 1 t && precedes q (left t)
      then rotate_right t
      else (if balance_below 1 t && follows q (right t)
          then rotate_left t
          else (if balance_above 1 t && follows q (left t)
              then rotate_right (set_left t (rotate_left (left t)))
              else (if balance_below 1 t && precedes q (right t)
                  then rotate_left (set_right t (rotate_right (right t)))
                  else t)))

  -- the rebalancing by the key of `subtree_result.match`, which is never null where a node was made
  abbrev pub rebalance_by : Tree V → Option V → Tree V
  rebalance_by t none = t
  rebalance_by t (some w) = rebalance_on_insert t (e.key w)

  -- `insert` is the one caller, with a callback that does nothing
  unfoldable pub find_or_make : Tree V → e.Key → Tree V → FindOrMakeResult V
  find_or_make null q new_node = record {
    root = as_leaf new_node;
    match = fruit? new_node;
    placement = if is_node new_node then made else refused;
  }
  find_or_make (node l v h r) q new_node =
      let in_left = find_or_make l q new_node in
      let in_right = find_or_make r q new_node in
      let grown_left = node in_left.root v h r in
      let grown_right = node l v h in_right.root in
      if e.less q (e.key v)
      then record in_left {
        root =
            if is_made in_left.placement then rebalance_by grown_left in_left.match else grown_left;
      }
      else (if e.less (e.key v) q
          then record in_right {
            root =
                if is_made in_right.placement
                then rebalance_by grown_right in_right.match
                else grown_right;
          }
          else record { root = node l v h r; match = some v; placement = matched })

  unfoldable pub insert : Tree V → Tree V → FindOrMakeResult V
  unfolding find_or_make
  insert t null = record { root = t; match = none; placement = refused }
  insert t (node cl c ch cr) = find_or_make t (e.key c) (node cl c ch cr)
