-- ===== src/WbTree/Walk/Order.antt =====
-- The walks visit the entries in order, include/smashtable/basic_wb_tree.hpp.
use mathlib.Core.Path.{fun_ext}
use smash_table.Base.{
  ◌≡◌, refl, sym, arith, Bool, false, Bool-cases, inl, inr, not, ◌&&◌, keep, keep-append, keep_none,
  All-imp, append-nil, ◌++◌, ◌∷◌, [], List,
}
use smash_table.Order.{Entry, less_asymm, le_lt_trans}
use smash_table.Sorted.{IsSorted, IsSorted-split}
use smash_table.WbTree.{Tree, null, node, to_list}
use smash_table.WbTree.Walk.{
  WalkControl, resume, halt, unless_halted, for_each_left_right, range, walk,
}

unless_halted_assoc :
    {S : Type 0} (r : S × WalkControl) (f g : S → S × WalkControl)
    → unless_halted (unless_halted r f) g ≡ unless_halted r (λ s. unless_halted (f s) g)
unless_halted_assoc (s, resume) f g = refl
unless_halted_assoc (s, halt) f g = refl

module _ {V S : Type 0} (callback : V → S → S × WalkControl) where
  walk-append :
      (xs ys : List V) (s : S)
      → walk (xs ++ ys) callback s ≡ unless_halted (walk xs callback s) (walk ys callback)
  unfolding walk
  walk-append [] ys s = refl
  walk-append (x ∷ xs) ys s =
      rw (fun_ext (walk-append xs ys))
        (sym (unless_halted_assoc (callback x s) (walk xs callback) (walk ys callback)))

  -- A walk of the tree, halted or not, is the walk along its sequence.
  pub for_each_left_right_lem :
      (t : Tree V) (s : S) → for_each_left_right t callback s ≡ walk (to_list t) callback s
  unfolding for_each_left_right walk
  for_each_left_right_lem null s = refl
  for_each_left_right_lem (node l v _ _ r) s = rw (
    walk-append (to_list l) (v ∷ to_list r) s,
    fun_ext (for_each_left_right_lem r),
    for_each_left_right_lem l s,
  )

module _ {V S : Type 0} ⦃e : Entry V⦄ (callback : V → S → S × WalkControl) (low high : e.Key) where
  -- the half-open interval of a range
  abbrev pub inside : V → Bool
  inside x = e.less (e.key x) high && not (e.less (e.key x) low)

  -- In a sorted tree `range`, halted or not, is the walk along the entries of [low, high), in order.
  pub range_lem :
      (t : Tree V) (s : S)
      → IsSorted (to_list t)
      → range t low high callback s ≡ walk (keep inside (to_list t)) callback s
  unfolding range walk
  range_lem null s o = refl
  range_lem (node l v _ _ r) s o =
      let p = IsSorted-split (to_list l) v (to_list r) o in
      elim (Bool-cases (inside v)) [
        | inl t ↦ rw (
          t,
          keep-append,
          t,
          walk-append callback (keep inside (to_list l)) (v ∷ keep inside (to_list r)) s,
          range_lem l s p.left_sorted,
          fun_ext (λ s. range_lem r s p.right_sorted),
        )
        | inr t ↦ elim (Bool-cases (e.less (e.key v) low)) [
          | inl u ↦
              let outside = keep_none inside (to_list l) (
                All-imp (λ x a. let far = e.order.less_trans _ _ _ a u in ground arith) (to_list l)
                  p.left_below) in
              rw (t, u, keep-append, outside, t) (range_lem r s p.right_sorted)
          | inr u ↦
              let beyond : e.less (e.key v) high ≡ false = ground arith in
              let outside = keep_none inside (to_list r) (
                All-imp
                  (λ x a.
                    let far = less_asymm e.order _ _ (le_lt_trans e.order _ _ _ beyond a) in
                    ground arith)
                  (to_list r) p.right_above) in
              rw (t, u, keep-append, t, outside, append-nil) (range_lem l s p.left_sorted)
        ]
      ]
