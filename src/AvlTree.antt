-- ===== src/AvlTree.antt =====
-- The node of the AVL tree, include/smashtable/basic_avl_tree.hpp: its links, the height that it
-- stores, and their repair. A node pointer is a tree, `null` the null pointer; the link to the parent
-- is the place of a tree in the one around it, which the module `Cursor` keeps. A read or write through
-- `null`, which the code's tests rule out, gives `null`. What the tree means is the sequence of its
-- entries in order, `to_list`.
pub mod Search
pub mod Rotate
pub mod Extract
pub mod Insert
pub mod Join
pub mod Merge
pub mod Cursor
pub mod Container
pub mod Height
use smash_table.Base.{
  ℕ, ◌+◌, ◌≤◌, ◌≡◌, Bool, true, false, List, [], ◌∷◌, ◌++◌, ltb, if◌then◌else◌, Option, none, some,
}

-- `basic_avl_node`: left, fruit, height, right.
pub data Tree (V : Type 0) : Type 0 where
  null : Tree V
  node : Tree V → V → ℕ → Tree V → Tree V

abbrev pub larger_of : ℕ → ℕ → ℕ
larger_of a b = if ltb a b then b else a

module _ {V : Type 0} where
  abbrev pub is_node : Tree V → Bool
  is_node null = false
  is_node (node _ _ _ _) = true

  -- the entry of a node that a search returns
  abbrev pub fruit? : Tree V → Option V
  fruit? null = none
  fruit? (node _ v _ _) = some v

  -- `node->left`, `node->right`, and the writes to them
  abbrev pub left : Tree V → Tree V
  left null = null
  left (node l _ _ _) = l

  abbrev pub right : Tree V → Tree V
  right null = null
  right (node _ _ _ r) = r

  abbrev pub set_left : Tree V → Tree V → Tree V
  set_left null l = null
  set_left (node _ v h r) l = node l v h r

  abbrev pub set_right : Tree V → Tree V → Tree V
  set_right null r = null
  set_right (node l v h _) r = node l v h r

  abbrev pub get_height : Tree V → ℕ
  get_height null = 0
  get_height (node _ _ h _) = h

  -- `get_balance(node) > n` and `get_balance(node) < -n`: the two heights compared, since a
  -- difference on ℕ stops at 0
  abbrev pub balance_above : ℕ → Tree V → Bool
  balance_above n null = false
  balance_above n (node l _ _ r) = ltb (get_height r + n) (get_height l)

  abbrev pub balance_below : ℕ → Tree V → Bool
  balance_below n null = false
  balance_below n (node l _ _ r) = ltb (get_height l + n) (get_height r)

  -- `node->height = larger_of(get_height(node->left), get_height(node->right)) + 1`
  abbrev pub update_height : Tree V → Tree V
  update_height null = null
  update_height (node l v _ r) = node l v (larger_of (get_height l) (get_height r) + 1) r

  -- the entries in order
  abbrev pub to_list : Tree V → List V
  to_list null = []
  to_list (node l v _ r) = to_list l ++ v ∷ to_list r

  -- the stored height is right at every node
  abbrev pub IsMeasured : Tree V → Type 0
  IsMeasured null = Unit
  IsMeasured (node l _ h r) =
      (h ≡ larger_of (get_height l) (get_height r) + 1) × IsMeasured l × IsMeasured r

  -- no stored height is more than one above its sibling's
  abbrev pub IsBalanced : Tree V → Type 0
  IsBalanced null = Unit
  IsBalanced (node l _ _ r) =
      (get_height l ≤ get_height r + 1)
      × (get_height r ≤ get_height l + 1)
      × IsBalanced l
      × IsBalanced r

  -- the invariant of a whole tree
  pub record IsValid (t : Tree V) : Type 0 where
    pub measured : IsMeasured t
    pub balanced : IsBalanced t
