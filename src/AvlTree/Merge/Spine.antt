-- ===== src/AvlTree/Merge/Spine.antt =====
-- Flattening a tree into its spine, include/smashtable/basic_avl_tree.hpp `tree_to_spine`.
use smash_table.Base.{
  ℕ, zero, suc, ◌+◌, ◌*◌, ◌≤◌, ◌<◌, ◌≡◌, ◌∙◌, ap, some, List, [], ◌∷◌, ◌++◌, arith, append_assoc,
  append-nil, length, length-append,
}
use smash_table.AvlTree.{Tree, null, node, to_list}
use smash_table.AvlTree.Merge.{flatten, tree_to_spine}

module _ {V : Type 0} where
  -- the rounds of the loop: one to link each node, and one to turn each node that hangs to the left of
  -- the right spine
  abbrev rounds : Tree V → ℕ
  rounds null = 0
  rounds (node l _ _ r) = 1 + 2 * length (to_list l) + rounds r

  pub rounds_le : (t : Tree V) → rounds t ≤ 2 * length (to_list t)
  rounds_le null = omega arith
  rounds_le (node l v h r) = omega (arith, rounds_le r, length-append (to_list l) (v ∷ to_list r))

  flatten_lem :
      (fuel : ℕ) (t : Tree V) (spine : List V)
      → rounds t < fuel
      → flatten fuel t spine ≡ some (spine ++ to_list t)
  unfolding flatten
  flatten_lem zero t spine f = absurd (omega arith)
  flatten_lem (suc fuel) null spine f = ap some (simp append-nil)
  flatten_lem (suc fuel) (node null v h r) spine f =
      flatten_lem fuel r (spine ++ v ∷ []) (omega arith) ∙ ap some (simp append_assoc)
  flatten_lem (suc fuel) (node (node ll lv lh lr) v h r) spine f =
      flatten_lem fuel (node ll lv lh (node lr v h r)) spine
        (omega (arith, length-append (to_list ll) (lv ∷ to_list lr)))
      ∙ ap some (simp append_assoc)

  -- The loop that flattens a tree ends within two rounds for each node and one more, and its spine
  -- has the entries of the tree in order.
  pub tree_to_spine_lem :
      (fuel : ℕ) (t : Tree V)
      → 2 * length (to_list t) < fuel
      → tree_to_spine fuel t ≡ some (to_list t, length (to_list t))
  unfolding tree_to_spine
  tree_to_spine_lem fuel t f =
      let done = flatten_lem fuel t [] (omega (arith, rounds_le t)) in rw (done, tree_to_spine)
