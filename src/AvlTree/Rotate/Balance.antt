-- ===== src/AvlTree/Rotate/Balance.antt =====
-- What one rebalancing of an AVL node does, include/smashtable/basic_avl_tree.hpp.
use smash_table.Base.{
  ℕ, ◌+◌, ◌≤◌, ◌≡◌, ◌⊎◌, refl, arith, Bool-cases, inl, inr, ltb, ltb→lt, ltb-eq-false, ltb_of_le,
  true, false,
}
use smash_table.AvlTree.{Tree, null, node, get_height, larger_of, IsBalanced, IsValid}
use smash_table.AvlTree.Rotate.{rebalance_after_extract}
use smash_table.AvlTree.Rotate.Heavy.{larger_of_lem, rebalance_lem}

module _ {V : Type 0} where
  -- over balanced sides whose heights differ by two at most
  pub record Rebalanced (l r t : Tree V) : Type 0 where
    pub balanced : IsBalanced t
    pub height_least : larger_of (get_height l) (get_height r) ≤ get_height t
    pub height_most : get_height t ≤ larger_of (get_height l) (get_height r) + 1
    -- no rotation without an imbalance
    pub height_even :
        (get_height t ≡ larger_of (get_height l) (get_height r) + 1)
        ⊎ ((get_height r + 2 ≤ get_height l) ⊎ (get_height l + 2 ≤ get_height r))

  light_left :
      (l : Tree V) (v : V) (h : ℕ) (r : Tree V)
      → IsValid l
      → IsValid r
      → ltb (get_height r + 1) (get_height l) ≡ true
      → get_height l ≤ get_height r + 2
      → Rebalanced l r (rebalance_after_extract (node l v h r))
  unfolding rebalance_after_extract
  light_left null v h r vl vr t b = absurd (omega (arith, ltb→lt _ _ t))
  light_left (node ll lv lh null) v h r vl vr t b =
      let m = vl.measured in
      let c = vl.balanced in
      let tall = ltb→lt _ _ t in
      let l_height = larger_of_lem (get_height ll) 0 in
      let inner = larger_of_lem 0 (get_height r) in
      let outer = larger_of_lem (get_height ll) (larger_of 0 (get_height r) + 1) in
      let whole = larger_of_lem lh (get_height r) in
      rw (t, ltb_of_le (get_height ll + 0) 0 (omega arith))
        (record {
          balanced = (omega arith, omega arith, c.2, (omega arith, omega arith, tt, vr.balanced));
          height_least = omega arith;
          height_most = omega arith;
          height_even = inr (inl (omega arith));
        })
  light_left (node ll lv lh (node nl nv nh nr)) v h r vl vr t b =
      let m = vl.measured in
      let c = vl.balanced in
      let tall = ltb→lt _ _ t in
      let l_height = larger_of_lem (get_height ll) nh in
      let whole = larger_of_lem lh (get_height r) in
      elim (Bool-cases (ltb (get_height ll + 0) nh)) [
        | inr u ↦
            let low = ltb-eq-false _ _ u in
            let inner = larger_of_lem nh (get_height r) in
            let outer = larger_of_lem (get_height ll) (larger_of nh (get_height r) + 1) in
            rw (t, u)
              (record {
                balanced =
                    (omega arith, omega arith, c.2, (omega arith, omega arith, c.3, vr.balanced));
                height_least = omega arith;
                height_most = omega arith;
                height_even = inr (inl (omega arith));
              })
        | inl u ↦
            let high = ltb→lt _ _ u in
            let n_height = larger_of_lem (get_height nl) (get_height nr) in
            let low = larger_of_lem (get_height ll) (get_height nl) in
            let inner = larger_of_lem (get_height nr) (get_height r) in
            let outer =
              larger_of_lem (larger_of (get_height ll) (get_height nl) + 1)
                (larger_of (get_height nr) (get_height r) + 1) in
            rw (t, u)
              (record {
                balanced = (
                  omega arith,
                  omega arith,
                  (omega arith, omega arith, c.2, c.3.2),
                  (omega arith, omega arith, c.3.3, vr.balanced),
                );
                height_least = omega arith;
                height_most = omega arith;
                height_even = inr (inl (omega arith));
              })
      ]

  light_right :
      (l : Tree V) (v : V) (h : ℕ) (r : Tree V)
      → IsValid l
      → IsValid r
      → ltb (get_height r + 1) (get_height l) ≡ false
      → ltb (get_height l + 1) (get_height r) ≡ true
      → get_height r ≤ get_height l + 2
      → Rebalanced l r (rebalance_after_extract (node l v h r))
  unfolding rebalance_after_extract
  light_right l v h null vl vr n t b = absurd (omega (arith, ltb→lt _ _ t))
  light_right l v h (node null rv rh rr) vl vr n t b =
      let m = vr.measured in
      let c = vr.balanced in
      let tall = ltb→lt _ _ t in
      let r_height = larger_of_lem 0 (get_height rr) in
      let inner = larger_of_lem (get_height l) 0 in
      let outer = larger_of_lem (larger_of (get_height l) 0 + 1) (get_height rr) in
      let whole = larger_of_lem (get_height l) rh in
      rw (n, t, ltb_of_le (get_height rr + 0) 0 (omega arith))
        (record {
          balanced = (omega arith, omega arith, (omega arith, omega arith, vl.balanced, tt), c.3);
          height_least = omega arith;
          height_most = omega arith;
          height_even = inr (inr (omega arith));
        })
  light_right l v h (node (node nl nv nh nr) rv rh rr) vl vr n t b =
      let m = vr.measured in
      let c = vr.balanced in
      let tall = ltb→lt _ _ t in
      let r_height = larger_of_lem nh (get_height rr) in
      let whole = larger_of_lem (get_height l) rh in
      elim (Bool-cases (ltb (get_height rr + 0) nh)) [
        | inr u ↦
            let low = ltb-eq-false _ _ u in
            let inner = larger_of_lem (get_height l) nh in
            let outer = larger_of_lem (larger_of (get_height l) nh + 1) (get_height rr) in
            rw (n, t, u)
              (record {
                balanced =
                    (omega arith, omega arith, (omega arith, omega arith, vl.balanced, c.2), c.3);
                height_least = omega arith;
                height_most = omega arith;
                height_even = inr (inr (omega arith));
              })
        | inl u ↦
            let high = ltb→lt _ _ u in
            let n_height = larger_of_lem (get_height nl) (get_height nr) in
            let low = larger_of_lem (get_height l) (get_height nl) in
            let inner = larger_of_lem (get_height nr) (get_height rr) in
            let outer =
              larger_of_lem (larger_of (get_height l) (get_height nl) + 1)
                (larger_of (get_height nr) (get_height rr) + 1) in
            rw (n, t, u)
              (record {
                balanced = (
                  omega arith,
                  omega arith,
                  (omega arith, omega arith, vl.balanced, c.2.2),
                  (omega arith, omega arith, c.2.3, c.3),
                );
                height_least = omega arith;
                height_most = omega arith;
                height_even = inr (inr (omega arith));
              })
      ]

  rebalanced :
      (l : Tree V) (v : V) (h : ℕ) (r : Tree V)
      → IsValid l
      → IsValid r
      → get_height l ≤ get_height r + 2
      → get_height r ≤ get_height l + 2
      → Rebalanced l r (rebalance_after_extract (node l v h r))
  unfolding rebalance_after_extract
  rebalanced l v h r vl vr b c = elim (Bool-cases (ltb (get_height r + 1) (get_height l))) [
    | inl t ↦ light_left l v h r vl vr t b
    | inr n ↦ elim (Bool-cases (ltb (get_height l + 1) (get_height r))) [
      | inl t ↦ light_right l v h r vl vr n t c
      | inr u ↦
          rw (n, u)
            (record {
              balanced = (
                omega (ltb-eq-false, arith),
                omega (ltb-eq-false, arith),
                vl.balanced,
                vr.balanced,
              );
              height_least = omega arith;
              height_most = omega arith;
              height_even = inl refl;
            })
    ]
  ]

  -- where the heights differ by one at most nothing turns
  pub rebalance_even :
      (l : Tree V) (v : V) (h : ℕ) (r : Tree V)
      → get_height l ≤ get_height r + 1
      → get_height r ≤ get_height l + 1
      → rebalance_after_extract (node l v h r)
        ≡ node l v (larger_of (get_height l) (get_height r) + 1) r
  unfolding rebalance_after_extract
  rebalance_even l v h r b c = rw (ltb_of_le _ _ b, ltb_of_le _ _ c)

  -- Two valid sides whose heights differ by two at most make a valid tree, as high as the higher side
  -- or one higher, and one higher where nothing has to turn.
  pub rebalance-IsValid :
      (l : Tree V) (v : V) (h : ℕ) (r : Tree V)
      → IsValid l
      → IsValid r
      → get_height l ≤ get_height r + 2
      → get_height r ≤ get_height l + 2
      → IsValid (rebalance_after_extract (node l v h r))
        × (larger_of (get_height l) (get_height r)
            ≤ get_height (rebalance_after_extract (node l v h r)))
        × (get_height (rebalance_after_extract (node l v h r))
            ≤ larger_of (get_height l) (get_height r) + 1)
        × ((get_height (rebalance_after_extract (node l v h r))
              ≡ larger_of (get_height l) (get_height r) + 1)
            ⊎ ((get_height r + 2 ≤ get_height l) ⊎ (get_height l + 2 ≤ get_height r)))
  rebalance-IsValid l v h r vl vr b c =
      let d = rebalanced l v h r vl vr b c in
      (
        record {
          measured = (rebalance_lem l v h r vl.measured vr.measured).measured;
          balanced = d.balanced;
        },
        d.height_least,
        d.height_most,
        d.height_even,
      )
