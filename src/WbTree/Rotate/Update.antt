-- ===== src/WbTree/Rotate/Update.antt =====
-- The invariant of the weight-balanced tree, and the rebuilding of a node over a side that
-- changed by one entry, include/smashtable/basic_wb_tree.hpp.
use smash_table.Base.{ℕ, ◌+◌, ◌≤◌, ◌≡◌, refl, arith}
use smash_table.Order.{Entry}
use smash_table.WbTree.{
  Tree, node, get_size, get_weight, update_size, update_augmented_size, IsCounted, IsBalanced,
}
use smash_table.WbTree.Rotate.{rebalance}
use smash_table.WbTree.Rotate.Balance.{Outgrown, rebalance-IsCounted, rebalance-IsBalanced}

module _ {V : Type 0} ⦃e : Entry V⦄ where
  -- the invariant of a whole tree: right counts and balanced weights
  pub record IsValid (t : Tree V) : Type 0 where
    pub counted : IsCounted t
    pub balanced : IsBalanced t

  -- two valid sides under a new node, with its counts made right
  pub rebuild-IsValid :
      (l : Tree V) (v : V) (s a : ℕ) (r : Tree V)
      → IsValid l
      → IsValid r
      → Outgrown (get_weight l) (get_weight r)
      → Outgrown (get_weight r) (get_weight l)
      → IsValid (rebalance (update_size (node l v s a r)))
        × (get_size (rebalance (update_size (node l v s a r))) ≡ 1 + get_size l + get_size r)
  rebuild-IsValid l v s a r hl hr ol or =
      let c : IsCounted (update_size (node l v s a r)) = (refl, refl, hl.counted, hr.counted) in
      let (counted, size) = rebalance-IsCounted l v _ _ r c in
      (
        record {
          counted = counted;
          balanced = rebalance-IsBalanced l v _ _ r c hl.balanced hr.balanced ol or;
        },
        size,
      )

  -- the sides of a valid tree
  pub IsValid-left :
      {l : Tree V} {v : V} {s a : ℕ} {r : Tree V} → IsValid (node l v s a r) → IsValid l
  IsValid-left h = record { counted = h.counted.2; balanced = h.balanced.2 }

  pub IsValid-right :
      {l : Tree V} {v : V} {s a : ℕ} {r : Tree V} → IsValid (node l v s a r) → IsValid r
  IsValid-right h = record { counted = h.counted.3; balanced = h.balanced.3 }

  -- the rebuilding after one side grew or shrank by one entry at most
  module _ {l : Tree V} {v : V} {s a : ℕ} {r : Tree V} (h : IsValid (node l v s a r))
      (t : Tree V) where
    pub rebuild_left :
        IsValid t
        → get_size t ≤ get_size l + 1
        → get_size l ≤ get_size t + 1
        → IsValid (rebalance (update_size (node t v s a r)))
          × (get_size (rebalance (update_size (node t v s a r))) + get_size l ≡ s + get_size t)
    rebuild_left ht up down =
        let b = h.balanced in
        let (valid, size) =
          rebuild-IsValid t v s a r ht (IsValid-right h) (omega (arith, b.0, b.1))
            (omega (arith, b.0, b.1)) in
        (valid, omega (arith, h.counted.0))

    pub rebuild_right :
        IsValid t
        → get_size t ≤ get_size r + 1
        → get_size r ≤ get_size t + 1
        → IsValid (rebalance (update_size (node l v s a t)))
          × (get_size (rebalance (update_size (node l v s a t))) + get_size r ≡ s + get_size t)
    rebuild_right ht up down =
        let b = h.balanced in
        let (valid, size) =
          rebuild-IsValid l v s a t (IsValid-left h) ht (omega (arith, b.0, b.1))
            (omega (arith, b.0, b.1)) in
        (valid, omega (arith, h.counted.0))

    -- a side replaced by one of the same size, with the augmented count made right
    pub recount_left :
        IsValid t → get_size t ≡ get_size l → IsValid (update_augmented_size (node t v s a r))
    recount_left ht same =
        let b = h.balanced in
        record {
          counted = (omega (arith, h.counted.0), refl, ht.counted, h.counted.3);
          balanced = (omega arith, omega arith, ht.balanced, b.3);
        }

    pub recount_right :
        IsValid t → get_size t ≡ get_size r → IsValid (update_augmented_size (node l v s a t))
    recount_right ht same =
        let b = h.balanced in
        record {
          counted = (omega (arith, h.counted.0), refl, h.counted.2, ht.counted);
          balanced = (omega arith, omega arith, b.2, ht.balanced);
        }
