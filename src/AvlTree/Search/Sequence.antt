-- ===== src/AvlTree/Search/Sequence.antt =====
-- What the searches of the AVL tree return, by the sequence of its entries,
-- include/smashtable/basic_avl_tree.hpp.
use smash_table.Base.{
  ◌≡◌, refl, ◌∙◌, Bool-cases, inl, inr, none, keep, first_or, last_or, first_or-append,
  last_or-append,
}
use smash_table.Order.{Entry, less_asymm}
use smash_table.Sorted.{
  IsSorted, IsSorted-split, above, not_below, matches, keep-above_left, keep-above_right,
  keep-not_below_left, keep-not_below_right, keep-matches_left, keep-matches_right,
  keep-matches_here,
}
use smash_table.AvlTree.{Tree, null, node, fruit?, to_list}
use smash_table.AvlTree.Search.{
  find_min, find_max, find, lower_bound, lower_bound_loop, upper_bound, upper_bound_loop,
}
use smash_table.AvlTree.Search.Least.{least_of}

module _ {V : Type 0} where
  pub find_min_lem : (t : Tree V) → fruit? (find_min t) ≡ first_or (to_list t) none
  unfolding find_min
  find_min_lem null = refl
  find_min_lem (node l v h r) = let m = least_of l v h r in rw (m.found, m.first)

  pub find_max_lem : (t : Tree V) → fruit? (find_max t) ≡ last_or (to_list t) none
  unfolding find_max
  find_max_lem null = refl
  find_max_lem (node l v h null) = rw last_or-append
  find_max_lem (node l v h (node rl rv rh rr)) =
      find_max_lem (node rl rv rh rr) ∙ simp last_or-append

module _ {V : Type 0} ⦃e : Entry V⦄ where
  -- In a sorted tree `find` returns the first entry of an equivalent key, and null where there is none.
  pub find_lem :
      (t : Tree V) (q : e.Key)
      → IsSorted (to_list t)
      → fruit? (find t q) ≡ first_or (keep (matches q) (to_list t)) none
  unfolding find
  find_lem null q o = refl
  find_lem (node l v h r) q o =
      let p = IsSorted-split (to_list l) v (to_list r) o in
      elim (Bool-cases (e.less q (e.key v))) [
        | inl t ↦
            rw (t, keep-matches_left q (to_list l) v (to_list r) p t) (find_lem l q p.left_sorted)
        | inr t ↦ elim (Bool-cases (e.less (e.key v) q)) [
          | inl u ↦
              rw (t, u, keep-matches_right q (to_list l) v (to_list r) p u)
                (find_lem r q p.right_sorted)
          | inr u ↦ rw (t, u, keep-matches_here q (to_list l) v (to_list r) p t u)
        ]
      ]

  lower_bound_loop_lem :
      (t : Tree V) (q : e.Key) (successor : Tree V)
      → IsSorted (to_list t)
      → fruit? (lower_bound_loop t q successor)
        ≡ first_or (keep (not_below q) (to_list t)) (fruit? successor)
  unfolding lower_bound_loop
  lower_bound_loop_lem null q successor o = refl
  lower_bound_loop_lem (node l v h r) q successor o =
      let p = IsSorted-split (to_list l) v (to_list r) o in
      elim (Bool-cases (e.less q (e.key v))) [
        | inl t ↦
            rw
              (
                t,
                keep-not_below_left q (to_list l) v (to_list r) p (less_asymm e.order _ _ t),
                first_or-append,
              )
              (lower_bound_loop_lem l q (node l v h r) p.left_sorted)
        | inr t ↦ elim (Bool-cases (e.less (e.key v) q)) [
          | inl u ↦
              rw (t, u, keep-not_below_right q (to_list l) v (to_list r) p u)
                (lower_bound_loop_lem r q successor p.right_sorted)
          | inr u ↦
              rw (t, u, keep-not_below_left q (to_list l) v (to_list r) p u, first_or-append)
                (lower_bound_loop_lem l q (node l v h r) p.left_sorted)
        ]
      ]

  -- In a sorted tree `lower_bound` returns the first entry whose key is not below the given one.
  pub lower_bound_lem :
      (t : Tree V) (q : e.Key)
      → IsSorted (to_list t)
      → fruit? (lower_bound t q) ≡ first_or (keep (not_below q) (to_list t)) none
  unfolding lower_bound
  lower_bound_lem t q o = lower_bound_loop_lem t q null o

  upper_bound_loop_lem :
      (t : Tree V) (q : e.Key) (result : Tree V)
      → IsSorted (to_list t)
      → fruit? (upper_bound_loop t q result) ≡ first_or (keep (above q) (to_list t)) (fruit? result)
  unfolding upper_bound_loop
  upper_bound_loop_lem null q result o = refl
  upper_bound_loop_lem (node l v h r) q result o =
      let p = IsSorted-split (to_list l) v (to_list r) o in
      elim (Bool-cases (e.less q (e.key v))) [
        | inl t ↦
            rw (t, keep-above_left q (to_list l) v (to_list r) p t, first_or-append)
              (upper_bound_loop_lem l q (node l v h r) p.left_sorted)
        | inr t ↦
            rw (t, keep-above_right q (to_list l) v (to_list r) p t)
              (upper_bound_loop_lem r q result p.right_sorted)
      ]

  -- In a sorted tree `upper_bound` returns the first entry whose key is above the given one.
  pub upper_bound_lem :
      (t : Tree V) (q : e.Key)
      → IsSorted (to_list t)
      → fruit? (upper_bound t q) ≡ first_or (keep (above q) (to_list t)) none
  unfolding upper_bound
  upper_bound_lem t q o = upper_bound_loop_lem t q null o
