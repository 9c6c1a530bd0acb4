-- ===== src/WbTree/Rotate/Sequence.antt =====
-- Rotations and the sequence of entries, include/smashtable/basic_wb_tree.hpp.
use smash_table.Base.{
  ℕ, ◌+◌, ◌*◌, ◌<◌, ◌≡◌, refl, append_assoc, arith, Bool-cases, inl, inr, ltb, true, false, Bool,
  ◌++◌, ◌∷◌, if◌then◌else◌,
}
use smash_table.Order.{Entry}
use smash_table.WbTree.{
  Tree, null, node, to_list, get_weight, delta_k, update_size, update_augmented_size,
}
use smash_table.WbTree.Rotate.{lighten_left, lighten_right, rebalance}

module _ {V : Type 0} ⦃e : Entry V⦄ where
  to_list-lighten_left :
      (l : Tree V) (v : V) (s a : ℕ) (r : Tree V)
      → delta_k * get_weight r < get_weight l
      → to_list (lighten_left (node l v s a r)) ≡ to_list (node l v s a r)
  unfolding lighten_left
  to_list-lighten_left null v s a r h = absurd (omega arith)
  to_list-lighten_left (node ll lv ls la null) v s a r h =
      let small : ltb 1 (2 * get_weight ll) ≡ true = ground arith in rw small (simp append_assoc)
  to_list-lighten_left (node ll lv ls la (node ml mv ms ma mr)) v s a r h =
      elim (Bool-cases (ltb (ms + 1) (2 * get_weight ll))) [
        | inl t ↦ rw t (simp append_assoc)
        | inr t ↦ rw t (simp append_assoc)
      ]

  to_list-lighten_right :
      (l : Tree V) (v : V) (s a : ℕ) (r : Tree V)
      → delta_k * get_weight l < get_weight r
      → to_list (lighten_right (node l v s a r)) ≡ to_list (node l v s a r)
  unfolding lighten_right
  to_list-lighten_right l v s a null h = absurd (omega arith)
  to_list-lighten_right l v s a (node null rv rs ra rr) h =
      let small : ltb 1 (2 * get_weight rr) ≡ true = ground arith in rw small (simp append_assoc)
  to_list-lighten_right l v s a (node (node ml mv ms ma mr) rv rs ra rr) h =
      elim (Bool-cases (ltb (ms + 1) (2 * get_weight rr))) [
        | inl t ↦ rw t (simp append_assoc)
        | inr t ↦ rw t (simp append_assoc)
      ]

  -- Rebalancing keeps the entries and their order, whatever counts are stored.
  pub to_list-rebalance : (t : Tree V) → to_list (rebalance t) ≡ to_list t
  unfolding rebalance
  to_list-rebalance null = refl
  to_list-rebalance (node l v s a r) =
      ground (arith, to_list-lighten_left l v s a r, to_list-lighten_right l v s a r)

  -- a node that is rebalanced or has its augmented count made right
  pub to_list-rebuilt :
      (b : Bool) (l : Tree V) (v : V) (s a : ℕ) (r : Tree V)
      → to_list (
          if b
          then rebalance (update_size (node l v s a r))
          else update_augmented_size (node l v s a r))
        ≡ to_list l ++ v ∷ to_list r
  to_list-rebuilt true l v s a r = to_list-rebalance (update_size (node l v s a r))
  to_list-rebuilt false l v s a r = refl
