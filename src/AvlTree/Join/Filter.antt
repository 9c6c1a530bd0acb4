-- ===== src/AvlTree/Join/Filter.antt =====
-- `erase_if`, include/smashtable/basic_avl_tree.hpp, which does not rebalance above what it removes.
use smash_table.Sorted.Place.{without_here}
use smash_table.Base.{
  Bool, ◌≡◌, refl, ◌∙◌, ap, arith, Bool-cases, inl, inr, ◌∷◌, ◌++◌, not, keep, keep-append,
  All-keep, length, length-append,
}
use smash_table.Order.{Entry}
use smash_table.Sorted.{IsSorted, IsSorted-split, IsSorted-join, Pivot, keep-IsSorted}
use smash_table.AvlTree.{Tree, null, node, to_list, IsMeasured}
use smash_table.AvlTree.Extract.Correct.{extract_lem, extract_root_lem}
use smash_table.AvlTree.Join.{EraseIfResult, erase_if}

module _ {V : Type 0} ⦃e : Entry V⦄ where
  -- What `erase_if` leaves: the entries that fail the predicate, their number, and right heights.
  pub record Filters (t : Tree V) (predicate : V → Bool) (result : EraseIfResult V) : Type 0 where
    pub measured : IsMeasured result.root
    pub counted : result.count ≡ length (to_list result.root)
    pub sequence : to_list result.root ≡ keep (λ x. not (predicate x)) (to_list t)

  pub erase_if_lem :
      (t : Tree V) (predicate : V → Bool)
      → IsSorted (to_list t)
      → Filters t predicate (erase_if t predicate)
  unfolding erase_if
  erase_if_lem null predicate o = record { measured = tt; counted = refl; sequence = refl }
  erase_if_lem (node l v h r) predicate o =
      let p = IsSorted-split (to_list l) v (to_list r) o in
      let in_left = erase_if_lem l predicate p.left_sorted in
      let in_right = erase_if_lem r predicate p.right_sorted in
      let l' = (erase_if l predicate).root in
      let r' = (erase_if r predicate).root in
      let stays : V → Bool = λ x. not (predicate x) in
      let kept : Pivot (keep stays (to_list l)) v (keep stays (to_list r)) = record {
        left_sorted = keep-IsSorted stays (to_list l) p.left_sorted;
        right_sorted = keep-IsSorted stays (to_list r) p.right_sorted;
        left_below = All-keep _ stays (to_list l) p.left_below;
        right_above = All-keep _ stays (to_list r) p.right_above;
      } in
      let sorted : IsSorted (to_list l' ++ v ∷ to_list r') =
        rw (in_left.sequence, in_right.sequence) (IsSorted-join _ v _ kept) in
      let right_sorted : IsSorted (to_list r') = rw in_right.sequence kept.right_sorted in
      elim (Bool-cases (predicate v)) [
        | inl t ↦
            let x =
              extract_root_lem l' v h r' (e.key v) in_left.measured in_right.measured sorted
                (e.order.less_irrefl (e.key v)) (e.order.less_irrefl (e.key v))
                (λ k. extract_lem r' k in_right.measured right_sorted) in
            let cut =
              x.sequence
              ∙ without_here (e.key v) (to_list l') v (to_list r')
                  (IsSorted-split (to_list l') v (to_list r') sorted)
                  (e.order.less_irrefl (e.key v)) (e.order.less_irrefl (e.key v)) in
            rw t (record {
              measured = x.measured;
              counted = omega (
                arith,
                in_left.counted,
                in_right.counted,
                ap length cut,
                length-append (to_list l') (to_list r'),
              );
              sequence = cut ∙ rw (keep-append, t, in_left.sequence, in_right.sequence);
            })
        | inr t ↦ rw t (record {
          measured = (refl, in_left.measured, in_right.measured);
          counted = omega (
            arith,
            in_left.counted,
            in_right.counted,
            length-append (to_list l') (v ∷ to_list r'),
          );
          sequence = rw (keep-append, t, in_left.sequence, in_right.sequence);
        })
      ]
