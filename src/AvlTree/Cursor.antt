-- ===== src/AvlTree/Cursor.antt =====
-- Iterators of the AVL tree, include/smashtable/basic_avl_tree.hpp: a node with its links to the
-- parents. The parents of a node are the path from it to the root, and a node is where it stands in
-- the tree; `null` at any path is the end position.
pub mod Order
pub mod Steps
pub mod Keys
use smash_table.Base.{ℕ, zero, suc, Bool, true, false, Option, none, some, if◌then◌else◌}
use smash_table.Order.{Entry}
use smash_table.WbTree.Walk.{WalkControl, resume, unless_halted}
use smash_table.AvlTree.{Tree, null, node, fruit?}

-- `node->parent`: none, or the parent that has the node for its left or for its right child
pub data Parents (V : Type 0) : Type 0 where
  top : Parents V
  left_of : V → ℕ → Tree V → Parents V → Parents V
  right_of : Tree V → V → ℕ → Parents V → Parents V

pub record Cursor (V : Type 0) : Type 0 where
  pub at : Tree V
  pub parents : Parents V

module _ {V : Type 0} where
  abbrev pub end : Cursor V
  end = record { at = null; parents = top }

  unfoldable pub find_min_at : Tree V → Parents V → Cursor V
  find_min_at null up = end
  find_min_at (node null v h r) up = record { at = node null v h r; parents = up }
  find_min_at (node (node ll lv lh lr) v h r) up = find_min_at (node ll lv lh lr) (left_of v h r up)

  unfoldable pub find_max_at : Tree V → Parents V → Cursor V
  find_max_at null up = end
  find_max_at (node l v h null) up = record { at = node l v h null; parents = up }
  find_max_at (node l v h (node rl rv rh rr)) up =
      find_max_at (node rl rv rh rr) (right_of l v h up)

  -- the loops that go up until they come from the left, or from the right
  unfoldable pub climb_from_left : Tree V → Parents V → Cursor V
  climb_from_left t top = end
  climb_from_left t (left_of v h r up) = record { at = node t v h r; parents = up }
  climb_from_left t (right_of l v h up) = climb_from_left (node l v h t) up

  unfoldable pub climb_from_right : Tree V → Parents V → Cursor V
  climb_from_right t top = end
  climb_from_right t (right_of l v h up) = record { at = node l v h t; parents = up }
  climb_from_right t (left_of v h r up) = climb_from_right (node t v h r) up

  -- `find_successor(node)` and `find_predecessor(node)`
  unfoldable pub next_of : Tree V → Parents V → Cursor V
  unfolding find_min_at climb_from_left
  next_of null up = end
  next_of (node l v h null) up = climb_from_left (node l v h null) up
  next_of (node l v h (node rl rv rh rr)) up = find_min_at (node rl rv rh rr) (right_of l v h up)

  unfoldable pub previous_of : Tree V → Parents V → Cursor V
  unfolding find_max_at climb_from_right
  previous_of null up = end
  previous_of (node null v h r) up = climb_from_right (node null v h r) up
  previous_of (node (node ll lv lh lr) v h r) up = find_max_at (node ll lv lh lr) (left_of v h r up)

  -- `begin()`, `iterator::operator++` and `iterator::operator--` on an iterator of the tree `root`
  unfoldable pub begin : Tree V → Cursor V
  unfolding find_min_at
  begin root = find_min_at root top

  unfoldable pub increment : Cursor V → Cursor V
  unfolding next_of
  increment c = next_of c.at c.parents

  unfoldable pub decrement : Tree V → Cursor V → Cursor V
  unfolding previous_of find_max_at
  decrement root c = elim c.at [
    | null ↦ find_max_at root top
    | node l v h r ↦ previous_of (node l v h r) c.parents
  ]

module _ {V : Type 0} ⦃e : Entry V⦄ where
  -- `lower_bound`, with the links to the parents of the node that it returns
  unfoldable pub lower_bound_at : Tree V → Parents V → e.Key → Cursor V → Cursor V
  lower_bound_at null up q successor = successor
  lower_bound_at (node l v h r) up q successor =
      let here : Cursor V = record { at = node l v h r; parents = up } in
      if e.less q (e.key v)
      then lower_bound_at l (left_of v h r up) q here
      else (if e.less (e.key v) q
          then lower_bound_at r (right_of l v h up) q successor
          else lower_bound_at l (left_of v h r up) q here)

  module _ {S : Type 0} (callback : V → S → S × WalkControl) where
    -- the loop of `range`, on fuel; it stops where the fuel runs out
    unfoldable pub range_loop : ℕ → Cursor V → e.Key → S → S × WalkControl
    unfolding increment
    range_loop zero current high s = (s, resume)
    range_loop (suc fuel) current high s =
        let on = range_loop fuel (increment current) high in
        elim (fruit? current.at) [
          | none ↦ (s, resume)
          | some v ↦ if e.less (e.key v) high then unless_halted (callback v s) on else (s, resume)
        ]

    unfoldable pub range : ℕ → Tree V → e.Key → e.Key → S → S × WalkControl
    unfolding range_loop lower_bound_at
    range fuel root low high s = range_loop fuel (lower_bound_at root top low end) high s
