-- ===== src/AvlTree/Cursor/Steps.antt =====
-- Steps of the iterators of the AVL tree and the walk over a range,
-- include/smashtable/basic_avl_tree.hpp.
use mathlib.Core.Path.{fun_ext}
use smash_table.Base.{
  ℕ, zero, suc, ◌<◌, ◌≡◌, refl, ◌∙◌, ap, arith, inl, inr, ◌++◌, append-nil, length, keep, keep-keep,
  length-keep, keep_none, ◌&&◌, All-imp, Bool-cases,
}
use smash_table.Order.{Entry, less_asymm, le_lt_trans}
use smash_table.Sorted.{IsSorted, below, not_below, keep-IsSorted}
use smash_table.WbTree.Walk.{WalkControl, walk}
use smash_table.AvlTree.{Tree, null, node, to_list}
use smash_table.AvlTree.Cursor.{
  Parents, top, left_of, right_of, end, find_min_at, find_max_at, climb_from_left, climb_from_right,
  next_of, previous_of, increment, decrement, lower_bound_at, range, range_loop,
}
use smash_table.AvlTree.Cursor.Order.{after, ahead_at, whole, ahead-next_of, ahead-lower_bound_at}

module _ {V : Type 0} where
  -- back from the least node of a subtree
  previous-find_min_at :
      (root l : Tree V) (v : V) (h : ℕ) (r : Tree V) (up : Parents V)
      → decrement root (find_min_at (node l v h r) up) ≡ climb_from_right (node l v h r) up
  unfolding decrement find_min_at previous_of climb_from_right
  previous-find_min_at root null v h r up = refl
  previous-find_min_at root (node ll lv lh lr) v h r up =
      previous-find_min_at root ll lv lh lr (left_of v h r up)

  -- back from the node that a climb ends at, or from the end
  previous-climb_from_left :
      (l : Tree V) (v : V) (h : ℕ) (r : Tree V) (up : Parents V)
      → decrement (whole (node l v h r) up) (climb_from_left (node l v h r) up)
        ≡ find_max_at (node l v h r) up
  unfolding decrement climb_from_left previous_of find_max_at
  previous-climb_from_left l v h r top = refl
  previous-climb_from_left l v h r (left_of pv ph pr up) = refl
  previous-climb_from_left l v h r (right_of pl pv ph up) =
      previous-climb_from_left pl pv ph (node l v h r) up

  -- A decrement after an increment is back where it was, also where the increment reached the end.
  pub decrement-increment :
      (l : Tree V) (v : V) (h : ℕ) (r : Tree V) (up : Parents V)
      → decrement (whole (node l v h r) up) (increment (record { at = node l v h r; parents = up }))
        ≡ record { at = node l v h r; parents = up }
  unfolding increment next_of find_max_at climb_from_right
  decrement-increment l v h null up = previous-climb_from_left l v h null up
  decrement-increment l v h (node rl rv rh rr) up =
      previous-find_min_at (whole (node l v h (node rl rv rh rr)) up) rl rv rh rr
        (right_of l v h up)

module _ {V : Type 0} {S : Type 0} ⦃e : Entry V⦄ (callback : V → S → S × WalkControl) where
  range_loop_lem :
      (fuel : ℕ) (t : Tree V) (up : Parents V) (high : e.Key) (s : S)
      → IsSorted (ahead_at t up)
      → length (ahead_at t up) < fuel
      → range_loop callback fuel (record { at = t; parents = up }) high s
        ≡ walk (keep (below high) (ahead_at t up)) callback s
  unfolding range_loop walk increment
  range_loop_lem zero t up high s o f = absurd (omega arith)
  range_loop_lem (suc fuel) null up high s o f = refl
  range_loop_lem (suc fuel) (node l v h r) up high s o f =
      let c = next_of (node l v h r) up in
      let next = ahead-next_of l v h r up in
      elim (Bool-cases (e.less (e.key v) high)) [
        | inl t ↦
            let shorter = ap length next in
            let rest : (s : S)
                → range_loop callback fuel c high s
                  ≡ walk (keep (below high) (to_list r ++ after up)) callback s =
              λ s.
                range_loop_lem fuel c.at c.parents high s (rw next o.1) (omega arith)
                ∙ ap (λ xs. walk (keep (below high) xs) callback s) next in
            rw (t, fun_ext rest) refl
        | inr t ↦
            rw
              (
                t,
                keep_none (below high) (to_list r ++ after up) (
                    All-imp (λ x a. less_asymm e.order _ _ (le_lt_trans e.order _ _ _ t a))
                      (to_list r ++ after up) o.0),
              )
              refl
      ]

  -- In a sorted tree `range`, its loop having a round for each entry and one more, halted or not, is the
  -- walk along the entries of [low, high), in order.
  pub range-walk :
      (fuel : ℕ) (t : Tree V) (low high : e.Key) (s : S)
      → IsSorted (to_list t)
      → length (to_list t) < fuel
      → range callback fuel t low high s
        ≡ walk (keep (λ x. below high x && not_below low x) (to_list t)) callback s
  unfolding range
  range-walk fuel t low high s o f =
      let c = lower_bound_at t top low end in
      let from = ahead-lower_bound_at t top low end o refl ∙ append-nil _ in
      let fewer = length-keep (not_below low) (to_list t) in
      let number = ap length from in
      range_loop_lem fuel c.at c.parents high s
        (rw from (keep-IsSorted (not_below low) (to_list t) o)) (omega arith)
      ∙ ap (λ xs. walk xs callback s)
          (ap (keep (below high)) from ∙ keep-keep (below high) (not_below low) (to_list t))
