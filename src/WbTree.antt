-- ===== src/WbTree.antt =====
-- The node of the weight-balanced tree, include/smashtable/basic_wb_tree.hpp: its links, the two
-- counts that it stores, and their repair. A node pointer is a tree, `null` the null pointer. A
-- read or write through `null`, which the code's tests rule out, gives `null`. What the tree means
-- is the sequence of its entries in order, `to_list`.
pub mod Search
pub mod Statistics
pub mod Walk
pub mod Rotate
pub mod Extract
pub mod Insert
pub mod Join
pub mod Container
use smash_table.Base.{
  ℕ, ◌+◌, ◌*◌, ◌≤◌, ◌≡◌, Bool, true, false, ◌&&◌, List, [], ◌∷◌, ◌++◌, leb, Option, none, some,
}
use smash_table.Order.{Entry}

-- `basic_wb_node`: left, fruit, size, augmented_size, right.
pub data Tree (V : Type 0) : Type 0 where
  null : Tree V
  node : Tree V → V → ℕ → ℕ → Tree V → Tree V

abbrev pub delta_k : ℕ
delta_k = 3

abbrev pub gamma_k : ℕ
gamma_k = 2

module _ {V : Type 0} where
  abbrev pub is_node : Tree V → Bool
  is_node null = false
  is_node (node _ _ _ _ _) = true

  -- the entry of a node that a search returns
  abbrev pub fruit? : Tree V → Option V
  fruit? null = none
  fruit? (node _ v _ _ _) = some v

  -- `node->left`, `node->right`, and the writes to them
  abbrev pub left : Tree V → Tree V
  left null = null
  left (node l _ _ _ _) = l

  abbrev pub right : Tree V → Tree V
  right null = null
  right (node _ _ _ _ r) = r

  abbrev pub set_left : Tree V → Tree V → Tree V
  set_left null l = null
  set_left (node _ v s a r) l = node l v s a r

  abbrev pub set_right : Tree V → Tree V → Tree V
  set_right null r = null
  set_right (node l v s a _) r = node l v s a r

  abbrev pub get_size : Tree V → ℕ
  get_size null = 0
  get_size (node _ _ s _ _) = s

  abbrev pub get_augmented_size : Tree V → ℕ
  get_augmented_size null = 0
  get_augmented_size (node _ _ _ a _) = a

  abbrev pub get_weight : Tree V → ℕ
  get_weight t = get_size t + 1

  unfoldable pub is_balanced : Tree V → Bool
  is_balanced null = true
  is_balanced (node l _ _ _ r) =
      leb (get_weight l) (delta_k * get_weight r) && leb (get_weight r) (delta_k * get_weight l)

  -- the entries in order
  abbrev pub to_list : Tree V → List V
  to_list null = []
  to_list (node l v _ _ r) = to_list l ++ v ∷ to_list r

  -- the weight invariant at every node
  abbrev pub IsBalanced : Tree V → Type 0
  IsBalanced null = Unit
  IsBalanced (node l _ _ _ r) =
      (get_weight l ≤ delta_k * get_weight r)
      × (get_weight r ≤ delta_k * get_weight l)
      × IsBalanced l
      × IsBalanced r

module _ {V : Type 0} ⦃e : Entry V⦄ where
  abbrev pub get_own_augmented_count : Tree V → ℕ
  get_own_augmented_count null = 0
  get_own_augmented_count (node _ v _ _ _) = e.augmented_count v

  abbrev pub update_augmented_size : Tree V → Tree V
  update_augmented_size null = null
  update_augmented_size (node l v s _ r) =
      node l v s (e.augmented_count v + get_augmented_size l + get_augmented_size r) r

  abbrev pub update_size : Tree V → Tree V
  update_size null = null
  update_size (node l v _ a r) = update_augmented_size (node l v (1 + get_size l + get_size r) a r)

  abbrev pub reset_to_leaf : Tree V → Tree V
  reset_to_leaf null = null
  reset_to_leaf (node l v _ a r) = update_augmented_size (node l v 1 a r)

  -- both stored counts are right at every node
  abbrev pub IsCounted : Tree V → Type 0
  IsCounted null = Unit
  IsCounted (node l v s a r) =
      (s ≡ 1 + get_size l + get_size r)
      × (a ≡ e.augmented_count v + get_augmented_size l + get_augmented_size r)
      × IsCounted l
      × IsCounted r
