-- ===== src/AvlTree/Merge.antt =====
-- The merge algorithms of the AVL tree, "Merge Algorithms" in
-- include/smashtable/basic_avl_tree.hpp. A spine, a chain of nodes along their right links whose
-- heights are stale, is the list of its entries.
pub mod Spine
pub mod Rebuild
pub mod Split
use smash_table.Base.{
  ℕ, zero, suc, ◌+◌, ◌-◌, ◌/◌, Option, none, some, List, [], ◌∷◌, ◌++◌, ◌==◌, if◌then◌else◌, length,
}
use smash_table.Order.{Entry}
use smash_table.AvlTree.{Tree, null, node, get_height, larger_of, to_list}
use smash_table.AvlTree.Join.{join_with_root, split}

module _ {V : Type 0} where
  -- The loop of `tree_to_spine`, which flattens a tree by right rotations; `none` if the fuel ran out.
  unfoldable pub flatten : ℕ → Tree V → List V → Option (List V)
  flatten zero root spine = none
  flatten (suc fuel) null spine = some spine
  flatten (suc fuel) (node null v h r) spine = flatten fuel r (spine ++ v ∷ [])
  flatten (suc fuel) (node (node ll lv lh lr) v h r) spine =
      flatten fuel (node ll lv lh (node lr v h r)) spine

  -- the spine and the number of its nodes
  unfoldable pub tree_to_spine : ℕ → Tree V → Option (List V × ℕ)
  unfolding flatten
  tree_to_spine fuel root = elim (flatten fuel root []) [
    | none ↦ none
    | some spine ↦ some (spine, length spine)
  ]

  -- `build_tree` of `spine_to_balanced`: a tree of the next `n` nodes and the nodes after them.
  unfoldable pub build_tree : ℕ → ℕ → List V → Tree V × List V
  build_tree zero n current = (null, current)
  build_tree (suc fuel) n current =
      let built_left = build_tree fuel (n / 2) current in
      let built : Tree V × List V = elim built_left.1 [
        | [] ↦ (null, [])
        | v ∷ next ↦
            let built_right = build_tree fuel (n - n / 2 - 1) next in
            (
              node built_left.0 v
                  (1 + larger_of (get_height built_left.0) (get_height built_right.0))
                  built_right.0,
              built_right.1,
            )
      ] in
      if n == 0 then (null, current) else built

  unfoldable pub spine_to_balanced : List V → ℕ → Tree V
  unfolding build_tree
  spine_to_balanced spine count = (build_tree count count spine).0

module _ {V : Type 0} ⦃e : Entry V⦄ where
  -- the rounds of `merge_spines` that take nodes of the second spine, until the next of the first
  unfoldable pub take_until : V → (List V → List V) → List V → List V
  take_until x after [] = x ∷ after []
  take_until x after (y ∷ ys) =
      let passed = y ∷ take_until x after ys in
      if e.less (e.key x) (e.key y) then x ∷ after (y ∷ ys) else passed

  unfoldable pub merge_spines : List V → List V → List V
  unfolding take_until
  merge_spines [] second_spine = second_spine
  merge_spines (x ∷ first_spine) second_spine = take_until x (merge_spines first_spine) second_spine

  -- the tree and its size; `none` if the fuel ran out
  unfoldable pub merge_dsw : ℕ → Tree V → Tree V → Option (Tree V × ℕ)
  unfolding tree_to_spine merge_spines spine_to_balanced
  merge_dsw fuel first_tree second_tree = elim (tree_to_spine fuel first_tree) [
    | none ↦ none
    | some (first_spine, first_count) ↦ elim (tree_to_spine fuel second_tree) [
      | none ↦ none
      | some (second_spine, second_count) ↦ some (
        spine_to_balanced (merge_spines first_spine second_spine) (first_count + second_count),
        first_count + second_count,
      )
    ]
  ]

  unfoldable pub merge_split_based : Tree V → Tree V → Tree V
  unfolding split join_with_root
  merge_split_based null large = large
  merge_split_based (node l v h r) null = node l v h r
  merge_split_based (node l v h r) (node ml mv mh mr) =
      let halves = split (node ml mv mh mr) (e.key v) in
      join_with_root (merge_split_based l halves.left) (node l v h r)
        (merge_split_based r halves.right)
