-- ===== src/WbTree/Join/Cut.antt =====
-- `split` and `erase_if`, include/smashtable/basic_wb_tree.hpp.
use smash_table.Base.{
  ◌+◌, ◌≡◌, refl, sym, ◌∙◌, ap, arith, Bool, Bool-cases, inl, inr, ◌∷◌, ◌++◌, not, keep,
  keep-append,
}
use smash_table.Order.{Entry}
use smash_table.Sorted.{
  IsSorted, IsSorted-split, keep-IsSorted, below, not_below, keep-below_left, keep-below_right,
  keep-not_below_left, keep-not_below_right,
}
use smash_table.WbTree.{Tree, null, node, get_size, to_list, reset_to_leaf}
use smash_table.WbTree.Rotate.Update.{IsValid, IsValid-left, IsValid-right}
use smash_table.WbTree.Join.{SplitResult, EraseIfResult, split, erase_if}
use smash_table.WbTree.Join.Root.{join_lem, join_with_root_lem, to_list-join_with_root}

module _ {V : Type 0} ⦃e : Entry V⦄ where
  -- The halves of a split: valid trees of the keys below the cut, and of the others.
  pub record Splits (t : Tree V) (q : e.Key) (halves : SplitResult V) : Type 0 where
    pub left_valid : IsValid halves.left
    pub right_valid : IsValid halves.right
    pub size : get_size halves.left + get_size halves.right ≡ get_size t
    pub left_sequence : to_list halves.left ≡ keep (below q) (to_list t)
    pub right_sequence : to_list halves.right ≡ keep (not_below q) (to_list t)

  pub split_lem :
      (t : Tree V) (q : e.Key) → IsValid t → IsSorted (to_list t) → Splits t q (split t q)
  unfolding split
  split_lem null q h o = record {
    left_valid = h;
    right_valid = h;
    size = refl;
    left_sequence = refl;
    right_sequence = refl;
  }
  split_lem (node l v s a r) q h o =
      let p = IsSorted-split (to_list l) v (to_list r) o in
      let on_left = split_lem l q (IsValid-left h) p.left_sorted in
      let on_right = split_lem r q (IsValid-right h) p.right_sorted in
      elim (Bool-cases (e.less (e.key v) q)) [
        | inl t ↦
            let built =
              join_with_root_lem l l v s a r (split r q).left (IsValid-left h)
                on_right.left_valid in
            rw t (record {
              left_valid = built.0;
              right_valid = on_right.right_valid;
              size = omega (arith, built.1, on_right.size, h.counted.0);
              left_sequence =
                  to_list-join_with_root l l v s a r (split r q).left
                  ∙ ap (λ xs. to_list l ++ v ∷ xs) on_right.left_sequence
                  ∙ sym (keep-below_right q (to_list l) v (to_list r) p t);
              right_sequence =
                  on_right.right_sequence
                  ∙ sym (keep-not_below_right q (to_list l) v (to_list r) p t);
            })
        | inr t ↦
            let built =
              join_with_root_lem (split l q).right l v s a r r on_left.right_valid
                (IsValid-right h) in
            rw t (record {
              left_valid = on_left.left_valid;
              right_valid = built.0;
              size = omega (arith, built.1, on_left.size, h.counted.0);
              left_sequence =
                  on_left.left_sequence ∙ sym (keep-below_left q (to_list l) v (to_list r) p t);
              right_sequence =
                  to_list-join_with_root (split l q).right l v s a r r
                  ∙ ap (λ xs. xs ++ v ∷ to_list r) on_left.right_sequence
                  ∙ sym (keep-not_below_left q (to_list l) v (to_list r) p t);
            })
      ]

  -- What `erase_if` leaves: a valid tree of the entries that fail the predicate, and their number.
  pub record Filters (t : Tree V) (predicate : V → Bool) (result : EraseIfResult V) : Type 0 where
    pub valid : IsValid result.root
    pub counted : result.count ≡ get_size result.root
    pub sequence : to_list result.root ≡ keep (λ x. not (predicate x)) (to_list t)

  pub erase_if_lem :
      (t : Tree V) (predicate : V → Bool)
      → IsSorted (to_list t)
      → Filters t predicate (erase_if t predicate)
  unfolding erase_if
  erase_if_lem null predicate o = record {
    valid = record { counted = tt; balanced = tt };
    counted = refl;
    sequence = refl;
  }
  erase_if_lem (node l v s a r) predicate o =
      let p = IsSorted-split (to_list l) v (to_list r) o in
      let in_left = erase_if_lem l predicate p.left_sorted in
      let in_right = erase_if_lem r predicate p.right_sorted in
      let root = reset_to_leaf (node null v s a null) in
      let l' = (erase_if l predicate).root in
      let r' = (erase_if r predicate).root in
      let sorted : IsSorted (to_list r') =
        rw in_right.sequence (keep-IsSorted (λ x. not (predicate x)) (to_list r) p.right_sorted) in
      elim (Bool-cases (predicate v)) [
        | inl t ↦
            let joined = join_lem l' r' in_left.valid in_right.valid sorted in
            rw t (record {
              valid = joined.valid;
              counted = omega (arith, joined.size, in_left.counted, in_right.counted);
              sequence = joined.sequence ∙ rw (keep-append, t, in_left.sequence, in_right.sequence);
            })
        | inr t ↦
            let joined =
              join_with_root_lem l' null v 1 (e.augmented_count v + 0 + 0) null r' in_left.valid
                in_right.valid in
            rw t (record {
              valid = joined.0;
              counted = omega (arith, joined.1, in_left.counted, in_right.counted);
              sequence =
                  to_list-join_with_root l' null v 1 (e.augmented_count v + 0 + 0) null r'
                  ∙ rw (keep-append, t, in_left.sequence, in_right.sequence);
            })
      ]
