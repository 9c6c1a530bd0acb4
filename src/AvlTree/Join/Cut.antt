-- ===== src/AvlTree/Join/Cut.antt =====
-- `split`, include/smashtable/basic_avl_tree.hpp.
use smash_table.Base.{ℕ, ◌≡◌, refl, sym, ◌∙◌, ap, Bool-cases, inl, inr, ◌∷◌, ◌++◌, keep}
use smash_table.Order.{Entry}
use smash_table.Sorted.{
  IsSorted, IsSorted-split, below, not_below, keep-below_left, keep-below_right,
  keep-not_below_left, keep-not_below_right,
}
use smash_table.AvlTree.{Tree, null, node, to_list, IsValid}
use smash_table.AvlTree.Rotate.Heavy.{IsValid-left, IsValid-right}
use smash_table.AvlTree.Join.{SplitResult, join_with_root, split}
use smash_table.AvlTree.Join.Around.{Joins, join_around_lem}

module _ {V : Type 0} ⦃e : Entry V⦄ where
  pub join_with_root_lem :
      (l jl : Tree V) (v : V) (h : ℕ) (jr r : Tree V)
      → IsValid l
      → IsValid r
      → Joins l v r (join_with_root l (node jl v h jr) r)
  unfolding join_with_root
  join_with_root_lem l jl v h jr r wl wr = join_around_lem l jl v h jr r wl wr

  -- The halves of a split: valid trees of the keys below the cut, and of the others.
  pub record Splits (t : Tree V) (q : e.Key) (halves : SplitResult V) : Type 0 where
    pub left_valid : IsValid halves.left
    pub right_valid : IsValid halves.right
    pub left_sequence : to_list halves.left ≡ keep (below q) (to_list t)
    pub right_sequence : to_list halves.right ≡ keep (not_below q) (to_list t)

  pub split_lem :
      (t : Tree V) (q : e.Key) → IsValid t → IsSorted (to_list t) → Splits t q (split t q)
  unfolding split
  split_lem null q w o = record {
    left_valid = w;
    right_valid = w;
    left_sequence = refl;
    right_sequence = refl;
  }
  split_lem (node l v h r) q w o =
      let p = IsSorted-split (to_list l) v (to_list r) o in
      let on_left = split_lem l q (IsValid-left w) p.left_sorted in
      let on_right = split_lem r q (IsValid-right w) p.right_sorted in
      elim (Bool-cases (e.less (e.key v) q)) [
        | inl t ↦
            let j =
              join_around_lem l l v h r (split r q).left (IsValid-left w) on_right.left_valid in
            rw t (record {
              left_valid = j.top.valid;
              right_valid = on_right.right_valid;
              left_sequence =
                  j.sequence
                  ∙ ap (λ xs. to_list l ++ v ∷ xs) on_right.left_sequence
                  ∙ sym (keep-below_right q (to_list l) v (to_list r) p t);
              right_sequence =
                  on_right.right_sequence
                  ∙ sym (keep-not_below_right q (to_list l) v (to_list r) p t);
            })
        | inr t ↦
            let j =
              join_around_lem (split l q).right l v h r r on_left.right_valid (IsValid-right w) in
            rw t (record {
              left_valid = on_left.left_valid;
              right_valid = j.top.valid;
              left_sequence =
                  on_left.left_sequence ∙ sym (keep-below_left q (to_list l) v (to_list r) p t);
              right_sequence =
                  j.sequence
                  ∙ ap (λ xs. xs ++ v ∷ to_list r) on_left.right_sequence
                  ∙ sym (keep-not_below_left q (to_list l) v (to_list r) p t);
            })
      ]
