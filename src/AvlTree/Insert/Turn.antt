-- ===== src/AvlTree/Insert/Turn.antt =====
-- The rotations after an insertion, include/smashtable/basic_avl_tree.hpp: where the new key made a
-- side too high, `rebalance_on_insert` picks the rotation by the key that `rebalance_after_extract`
-- picks by the heights.
use smash_table.Base.{
  ℕ, ◌+◌, ◌≤◌, ◌≡◌, ◌⊎◌, refl, arith, Bool-cases, inl, inr, ltb, ltb→lt, ltb-eq-false,
}
use smash_table.Order.{Entry, ◌≺◌}
use smash_table.AvlTree.{Tree, node, get_height, larger_of, IsValid}
use smash_table.AvlTree.Rotate.Balance.{rebalance-IsValid}
use smash_table.AvlTree.Rotate.Heavy.{
  larger_of_lem, Rebuilt, rebalance_lem, IsValid-left, IsValid-right,
}
use smash_table.AvlTree.Insert.{rebalance_on_insert}
use smash_table.AvlTree.Insert.Turned.{
  Leans, turn_left, turn_right, turned_left, turned_right, turn_even,
}

module _ {V : Type 0} ⦃e : Entry V⦄ where
  -- `t'` is `t` with the new entry `c`: one higher at most, and then higher on the side of `c`
  pub record Grown (t : Tree V) (c : V) (t' : Tree V) : Type 0 where
    pub valid : IsValid t'
    pub height_least : get_height t ≤ get_height t'
    pub leans :
        (get_height t' ≡ get_height t)
        ⊎ ((get_height t' ≡ get_height t + 1) × ((get_height t' ≡ 1) ⊎ Leans c t'))

  pub Grown-left :
      (l : Tree V) (v : V) (h : ℕ) (r l' : Tree V) (c : V)
      → IsValid (node l v h r)
      → c ≺ v
      → Grown l c l'
      → Grown (node l v h r) c (rebalance_on_insert (node l' v h r) (e.key c))
        × Rebuilt l' v r (rebalance_on_insert (node l' v h r) (e.key c))
  Grown-left l v h r l' c w a g =
      let b = w.balanced in
      let vr = IsValid-right w in
      let old = larger_of_lem (get_height l) (get_height r) in
      let new = larger_of_lem (get_height l') (get_height r) in
      elim (Bool-cases (ltb (get_height r + 1) (get_height l'))) [
        | inl t ↦
            let high = ltb→lt _ _ t in
            elim g.leans [
              | inl same ↦ absurd (omega (arith, b.0))
              | inr (grew, inl one) ↦ absurd (omega arith)
              | inr (grew, inr s) ↦
                  let built =
                    rebalance-IsValid l' v h r g.valid vr (omega (arith, b.0))
                      (omega (arith, b.1)) in
                  let height = turned_left l' v h r c g.valid.measured s (omega (arith, b.0)) in
                  rw (turn_left l' v h r c s t) (
                    record {
                      valid = built.0;
                      height_least = omega (arith, w.measured.0, b.0);
                      leans = inl (omega (arith, w.measured.0, b.0));
                    },
                    rebalance_lem l' v h r g.valid.measured vr.measured,
                  )
            ]
        | inr n ↦
            let low = ltb-eq-false _ _ n in
            let even : get_height r ≤ get_height l' + 1 = omega (arith, b.1, g.height_least) in
            let valid : IsValid (node l' v (larger_of (get_height l') (get_height r) + 1) r) =
              record {
                measured = (refl, g.valid.measured, vr.measured);
                balanced = (low, even, g.valid.balanced, vr.balanced);
              } in
            rw (turn_even l' v h r (e.key c) low even) (
              record {
                valid = valid;
                height_least = omega (arith, w.measured.0, g.height_least);
                leans = elim g.leans [
                  | inl same ↦ inl (omega (arith, w.measured.0))
                  | inr (grew, _) ↦ elim (Bool-cases (ltb (get_height r) (get_height l'))) [
                    | inl x ↦ inr (
                      omega (arith, w.measured.0, ltb→lt _ _ x),
                      inr (inl (a, omega (arith, ltb→lt _ _ x))),
                    )
                    | inr x ↦ inl (omega (arith, w.measured.0, ltb-eq-false _ _ x))
                  ]
                ];
              },
              record { sequence = refl; measured = valid.measured },
            )
      ]

  pub Grown-right :
      (l : Tree V) (v : V) (h : ℕ) (r r' : Tree V) (c : V)
      → IsValid (node l v h r)
      → v ≺ c
      → Grown r c r'
      → Grown (node l v h r) c (rebalance_on_insert (node l v h r') (e.key c))
        × Rebuilt l v r' (rebalance_on_insert (node l v h r') (e.key c))
  Grown-right l v h r r' c w a g =
      let b = w.balanced in
      let vl = IsValid-left w in
      let old = larger_of_lem (get_height l) (get_height r) in
      let new = larger_of_lem (get_height l) (get_height r') in
      elim (Bool-cases (ltb (get_height l + 1) (get_height r'))) [
        | inl t ↦
            let high = ltb→lt _ _ t in
            elim g.leans [
              | inl same ↦ absurd (omega (arith, b.1))
              | inr (grew, inl one) ↦ absurd (omega arith)
              | inr (grew, inr s) ↦
                  let built =
                    rebalance-IsValid l v h r' vl g.valid (omega (arith, b.0))
                      (omega (arith, b.1)) in
                  let height = turned_right l v h r' c g.valid.measured s (omega (arith, b.1)) in
                  rw (turn_right l v h r' c s t) (
                    record {
                      valid = built.0;
                      height_least = omega (arith, w.measured.0, b.1);
                      leans = inl (omega (arith, w.measured.0, b.1));
                    },
                    rebalance_lem l v h r' vl.measured g.valid.measured,
                  )
            ]
        | inr n ↦
            let low = ltb-eq-false _ _ n in
            let even : get_height l ≤ get_height r' + 1 = omega (arith, b.0, g.height_least) in
            let valid : IsValid (node l v (larger_of (get_height l) (get_height r') + 1) r') =
              record {
                measured = (refl, vl.measured, g.valid.measured);
                balanced = (even, low, vl.balanced, g.valid.balanced);
              } in
            rw (turn_even l v h r' (e.key c) even low) (
              record {
                valid = valid;
                height_least = omega (arith, w.measured.0, g.height_least);
                leans = elim g.leans [
                  | inl same ↦ inl (omega (arith, w.measured.0))
                  | inr (grew, _) ↦ elim (Bool-cases (ltb (get_height l) (get_height r'))) [
                    | inl x ↦ inr (
                      omega (arith, w.measured.0, ltb→lt _ _ x),
                      inr (inr (a, omega (arith, ltb→lt _ _ x))),
                    )
                    | inr x ↦ inl (omega (arith, w.measured.0, ltb-eq-false _ _ x))
                  ]
                ];
              },
              record { sequence = refl; measured = valid.measured },
            )
      ]
