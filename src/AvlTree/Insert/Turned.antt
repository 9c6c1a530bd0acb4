-- ===== src/AvlTree/Insert/Turned.antt =====
-- The rotations of `rebalance_on_insert` in include/smashtable/basic_avl_tree.hpp.
use smash_table.Base.{
  ℕ, ◌+◌, ◌≤◌, ◌≡◌, ◌⊎◌, refl, arith, inl, inr, ltb, ltb→lt, lt→ltb, ltb_of_le, true, false,
}
use smash_table.Order.{Entry, ◌≺◌, less_asymm}
use smash_table.AvlTree.{Tree, null, node, get_height, larger_of, IsMeasured}
use smash_table.AvlTree.Rotate.{rebalance_after_extract}
use smash_table.AvlTree.Rotate.Heavy.{larger_of_lem}
use smash_table.AvlTree.Insert.{rebalance_on_insert}

module _ {V : Type 0} ⦃e : Entry V⦄ where
  -- the higher side of the root is the side of `c`
  abbrev pub Leans : V → Tree V → Type 0
  Leans c null = ⊥
  Leans c (node l v _ r) =
      ((c ≺ v) × (get_height l ≡ get_height r + 1)) ⊎ ((v ≺ c) × (get_height r ≡ get_height l + 1))

  pub turn_left :
      (l : Tree V) (v : V) (h : ℕ) (r : Tree V) (c : V)
      → Leans c l
      → ltb (get_height r + 1) (get_height l) ≡ true
      → rebalance_on_insert (node l v h r) (e.key c) ≡ rebalance_after_extract (node l v h r)
  unfolding rebalance_on_insert rebalance_after_extract
  turn_left null v h r c s t = absurd s
  turn_left (node ll lv lh lr) v h r c s t =
      let n : ltb (lh + 1) (get_height r) ≡ false = ltb_of_le _ _ (omega (arith, ltb→lt _ _ t)) in
      elim s [
        | inl a ↦ rw (t, a.0, ltb_of_le (get_height ll + 0) (get_height lr) (omega (arith, a.1)))
        | inr a ↦
            rw
              (
                t,
                n,
                less_asymm e.order _ _ a.0,
                a.0,
                lt→ltb (get_height ll + 0) (get_height lr) (omega (arith, a.1)),
              )
              refl
      ]

  pub turn_right :
      (l : Tree V) (v : V) (h : ℕ) (r : Tree V) (c : V)
      → Leans c r
      → ltb (get_height l + 1) (get_height r) ≡ true
      → rebalance_on_insert (node l v h r) (e.key c) ≡ rebalance_after_extract (node l v h r)
  unfolding rebalance_on_insert rebalance_after_extract
  turn_right l v h null c s t = absurd s
  turn_right l v h (node rl rv rh rr) c s t =
      let n : ltb (rh + 1) (get_height l) ≡ false = ltb_of_le _ _ (omega (arith, ltb→lt _ _ t)) in
      elim s [
        | inr a ↦
            rw (t, n, a.0, ltb_of_le (get_height rr + 0) (get_height rl) (omega (arith, a.1))) refl
        | inl a ↦
            rw
              (
                t,
                n,
                less_asymm e.order _ _ a.0,
                a.0,
                lt→ltb (get_height rr + 0) (get_height rl) (omega (arith, a.1)),
              )
              refl
      ]

  -- the height after such a rotation is the height before the insertion
  pub turned_left :
      (l : Tree V) (v : V) (h : ℕ) (r : Tree V) (c : V)
      → IsMeasured l
      → Leans c l
      → get_height l ≡ get_height r + 2
      → get_height (rebalance_after_extract (node l v h r)) ≡ get_height l
  unfolding rebalance_after_extract
  turned_left null v h r c m s b = absurd s
  turned_left (node ll lv lh null) v h r c m s b =
      let t : ltb (get_height r + 1) lh ≡ true = lt→ltb _ _ (omega arith) in
      let top = larger_of_lem (get_height ll) 0 in
      let inner = larger_of_lem 0 (get_height r) in
      let outer = larger_of_lem (get_height ll) (larger_of 0 (get_height r) + 1) in
      elim s [
        | inl a ↦
            rw (t, ltb_of_le (get_height ll + 0) 0 (omega (arith, a.1))) (omega (arith, m.0, a.1))
        | inr a ↦ absurd (omega (arith, a.1))
      ]
  turned_left (node ll lv lh (node nl nv nh nr)) v h r c m s b =
      let t : ltb (get_height r + 1) lh ≡ true = lt→ltb _ _ (omega arith) in
      let top = larger_of_lem (get_height ll) nh in
      elim s [
        | inl a ↦
            let inner = larger_of_lem nh (get_height r) in
            let outer = larger_of_lem (get_height ll) (larger_of nh (get_height r) + 1) in
            rw (t, ltb_of_le (get_height ll + 0) nh (omega (arith, a.1))) (omega (arith, m.0, a.1))
        | inr a ↦
            let n = larger_of_lem (get_height nl) (get_height nr) in
            let low = larger_of_lem (get_height ll) (get_height nl) in
            let inner = larger_of_lem (get_height nr) (get_height r) in
            let outer =
              larger_of_lem (larger_of (get_height ll) (get_height nl) + 1)
                (larger_of (get_height nr) (get_height r) + 1) in
            rw (t, lt→ltb (get_height ll + 0) nh (omega (arith, a.1)))
              (omega (arith, m.0, m.2.0, a.1))
      ]

  pub turned_right :
      (l : Tree V) (v : V) (h : ℕ) (r : Tree V) (c : V)
      → IsMeasured r
      → Leans c r
      → get_height r ≡ get_height l + 2
      → get_height (rebalance_after_extract (node l v h r)) ≡ get_height r
  unfolding rebalance_after_extract
  turned_right l v h null c m s b = absurd s
  turned_right l v h (node null rv rh rr) c m s b =
      let n : ltb (rh + 1) (get_height l) ≡ false = ltb_of_le _ _ (omega arith) in
      let t : ltb (get_height l + 1) rh ≡ true = lt→ltb _ _ (omega arith) in
      let top = larger_of_lem 0 (get_height rr) in
      let inner = larger_of_lem (get_height l) 0 in
      let outer = larger_of_lem (larger_of (get_height l) 0 + 1) (get_height rr) in
      elim s [
        | inl a ↦ absurd (omega (arith, a.1))
        | inr a ↦
            rw (n, t, ltb_of_le (get_height rr + 0) 0 (omega (arith, a.1)))
              (omega (arith, m.0, a.1))
      ]
  turned_right l v h (node (node nl nv nh nr) rv rh rr) c m s b =
      let n : ltb (rh + 1) (get_height l) ≡ false = ltb_of_le _ _ (omega arith) in
      let t : ltb (get_height l + 1) rh ≡ true = lt→ltb _ _ (omega arith) in
      let top = larger_of_lem nh (get_height rr) in
      elim s [
        | inr a ↦
            let inner = larger_of_lem (get_height l) nh in
            let outer = larger_of_lem (larger_of (get_height l) nh + 1) (get_height rr) in
            rw (n, t, ltb_of_le (get_height rr + 0) nh (omega (arith, a.1)))
              (omega (arith, m.0, a.1))
        | inl a ↦
            let high = larger_of_lem (get_height nl) (get_height nr) in
            let low = larger_of_lem (get_height l) (get_height nl) in
            let inner = larger_of_lem (get_height nr) (get_height rr) in
            let outer =
              larger_of_lem (larger_of (get_height l) (get_height nl) + 1)
                (larger_of (get_height nr) (get_height rr) + 1) in
            rw (n, t, lt→ltb (get_height rr + 0) nh (omega (arith, a.1)))
              (omega (arith, m.0, m.1.0, a.1))
      ]

  -- where the heights differ by one at most neither turns
  pub turn_even :
      (l : Tree V) (v : V) (h : ℕ) (r : Tree V) (q : e.Key)
      → get_height l ≤ get_height r + 1
      → get_height r ≤ get_height l + 1
      → rebalance_on_insert (node l v h r) q
        ≡ node l v (larger_of (get_height l) (get_height r) + 1) r
  unfolding rebalance_on_insert
  turn_even l v h r q b c = rw (ltb_of_le _ _ b, ltb_of_le _ _ c)
