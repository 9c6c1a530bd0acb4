-- ===== src/WbTree/Rotate/Balance.antt =====
-- Rotations and the stored counts, include/smashtable/basic_wb_tree.hpp: with Δ = 3 and Γ = 2 one
-- call of `rebalance` restores the weight invariant.
use smash_table.Base.{
  ℕ, ◌+◌, ◌*◌, ◌≤◌, ◌<◌, ◌≡◌, ◌⊎◌, refl, arith, Bool-cases, inl, inr, ltb, ltb→lt, ltb-eq-false,
  true,
}
use smash_table.Order.{Entry}
use smash_table.WbTree.{Tree, null, node, get_size, get_weight, delta_k, IsCounted, IsBalanced}
use smash_table.WbTree.Rotate.{lighten_left, lighten_right, rebalance}

-- how far the weight of one side may have outgrown that of the other
abbrev pub Outgrown : ℕ → ℕ → Type 0
Outgrown heavy light = (3 * heavy ≤ 13 * light) ⊎ (heavy ≤ 3 * light + 3)

-- The weights of the heavy side's outer and inner subtrees and of the light side, all positive.
module _ (outer inner light : ℕ) (positive : 0 < light) where
  single_weights :
      outer ≤ 3 * inner
      → inner ≤ 3 * outer
      → inner < 2 * outer
      → 3 * light < outer + inner
      → Outgrown (outer + inner) light
      → (inner ≤ 3 * light)
        × (light ≤ 3 * inner)
        × (outer ≤ 3 * (inner + light))
        × (inner + light ≤ 3 * outer)
  single_weights h₁ h₂ t h o = omega arith

  -- `near` and `far` are the parts of the inner subtree
  double_weights :
      (near far : ℕ)
      → inner ≡ near + far
      → inner ≤ 3 * outer
      → near ≤ 3 * far
      → far ≤ 3 * near
      → 2 * outer ≤ inner
      → 3 * light < outer + inner
      → Outgrown (outer + inner) light
      → 0 < outer
      → 0 < near
      → 0 < far
      → (outer ≤ 3 * near)
        × (near ≤ 3 * outer)
        × (far ≤ 3 * light)
        × (light ≤ 3 * far)
        × (outer + near ≤ 3 * (far + light))
        × (far + light ≤ 3 * (outer + near))
  double_weights near far e h₂ n f t h o po pn pf = omega arith

module _ {V : Type 0} ⦃e : Entry V⦄ where
  lighten_left-IsCounted :
      (l : Tree V) (v : V) (s a : ℕ) (r : Tree V)
      → IsCounted l
      → IsCounted r
      → delta_k * get_weight r < get_weight l
      → IsCounted (lighten_left (node l v s a r))
        × (get_size (lighten_left (node l v s a r)) ≡ 1 + get_size l + get_size r)
  unfolding lighten_left
  lighten_left-IsCounted null v s a r cl cr h = absurd (omega arith)
  lighten_left-IsCounted (node ll lv ls la null) v s a r cl cr h =
      let small : ltb 1 (2 * get_weight ll) ≡ true = ground arith in
      rw small ((refl, refl, cl.2, (refl, refl, tt, cr)), omega arith)
  lighten_left-IsCounted (node ll lv ls la (node ml mv ms ma mr)) v s a r cl cr h =
      elim (Bool-cases (ltb (ms + 1) (2 * get_weight ll))) [
        | inl t ↦ rw t ((refl, refl, cl.2, (refl, refl, cl.3, cr)), omega arith)
        | inr t ↦
            rw t ((refl, refl, (refl, refl, cl.2, cl.3.2), (refl, refl, cl.3.3, cr)), omega arith)
      ]

  lighten_left-IsBalanced :
      (l : Tree V) (v : V) (s a : ℕ) (r : Tree V)
      → IsCounted l
      → IsBalanced l
      → IsBalanced r
      → delta_k * get_weight r < get_weight l
      → Outgrown (get_weight l) (get_weight r)
      → IsBalanced (lighten_left (node l v s a r))
  unfolding lighten_left
  lighten_left-IsBalanced null v s a r cl bl br h o = absurd (omega arith)
  lighten_left-IsBalanced (node ll lv ls la null) v s a r cl bl br h o =
      let small : ltb 1 (2 * get_weight ll) ≡ true = ground arith in
      let fits =
        single_weights (get_weight ll) 1 (get_weight r) (omega arith) bl.0 bl.1 (omega arith)
          (omega arith) (omega arith) in
      rw small (omega arith, omega arith, bl.2, (omega arith, omega arith, tt, br))
  lighten_left-IsBalanced (node ll lv ls la (node ml mv ms ma mr)) v s a r cl bl br h o =
      elim (Bool-cases (ltb (ms + 1) (2 * get_weight ll))) [
        | inl t ↦
            let fits =
              single_weights (get_weight ll) (ms + 1) (get_weight r) (omega arith) bl.0 bl.1
                (ltb→lt _ _ t) (omega arith) (omega arith) in
            rw t (omega arith, omega arith, bl.2, (omega arith, omega arith, bl.3, br))
        | inr t ↦
            let fits =
              double_weights (get_weight ll) (ms + 1) (get_weight r) (omega arith) (get_weight ml)
                (get_weight mr) (omega arith) bl.1 bl.3.0 bl.3.1 (ltb-eq-false _ _ t) (omega arith)
                (omega arith) (omega arith) (omega arith) (omega arith) in
            rw t (
              omega arith,
              omega arith,
              (omega arith, omega arith, bl.2, bl.3.2),
              (omega arith, omega arith, bl.3.3, br),
            )
      ]

  lighten_right-IsCounted :
      (l : Tree V) (v : V) (s a : ℕ) (r : Tree V)
      → IsCounted l
      → IsCounted r
      → delta_k * get_weight l < get_weight r
      → IsCounted (lighten_right (node l v s a r))
        × (get_size (lighten_right (node l v s a r)) ≡ 1 + get_size l + get_size r)
  unfolding lighten_right
  lighten_right-IsCounted l v s a null cl cr h = absurd (omega arith)
  lighten_right-IsCounted l v s a (node null rv rs ra rr) cl cr h =
      let small : ltb 1 (2 * get_weight rr) ≡ true = ground arith in
      rw small ((refl, refl, (refl, refl, cl, tt), cr.3), omega arith)
  lighten_right-IsCounted l v s a (node (node ml mv ms ma mr) rv rs ra rr) cl cr h =
      elim (Bool-cases (ltb (ms + 1) (2 * get_weight rr))) [
        | inl t ↦ rw t ((refl, refl, (refl, refl, cl, cr.2), cr.3), omega arith)
        | inr t ↦
            rw t ((refl, refl, (refl, refl, cl, cr.2.2), (refl, refl, cr.2.3, cr.3)), omega arith)
      ]

  lighten_right-IsBalanced :
      (l : Tree V) (v : V) (s a : ℕ) (r : Tree V)
      → IsCounted r
      → IsBalanced l
      → IsBalanced r
      → delta_k * get_weight l < get_weight r
      → Outgrown (get_weight r) (get_weight l)
      → IsBalanced (lighten_right (node l v s a r))
  unfolding lighten_right
  lighten_right-IsBalanced l v s a null cr bl br h o = absurd (omega arith)
  lighten_right-IsBalanced l v s a (node null rv rs ra rr) cr bl br h o =
      let small : ltb 1 (2 * get_weight rr) ≡ true = ground arith in
      let fits =
        single_weights (get_weight rr) 1 (get_weight l) (omega arith) br.1 br.0 (omega arith)
          (omega arith) (omega arith) in
      rw small (omega arith, omega arith, (omega arith, omega arith, bl, tt), br.3)
  lighten_right-IsBalanced l v s a (node (node ml mv ms ma mr) rv rs ra rr) cr bl br h o =
      elim (Bool-cases (ltb (ms + 1) (2 * get_weight rr))) [
        | inl t ↦
            let fits =
              single_weights (get_weight rr) (ms + 1) (get_weight l) (omega arith) br.1 br.0
                (ltb→lt _ _ t) (omega arith) (omega arith) in
            rw t (omega arith, omega arith, (omega arith, omega arith, bl, br.2), br.3)
        | inr t ↦
            let fits =
              double_weights (get_weight rr) (ms + 1) (get_weight l) (omega arith) (get_weight mr)
                (get_weight ml) (omega arith) br.0 br.2.1 br.2.0 (ltb-eq-false _ _ t) (omega arith)
                (omega arith) (omega arith) (omega arith) (omega arith) in
            rw t (
              omega arith,
              omega arith,
              (omega arith, omega arith, bl, br.2.2),
              (omega arith, omega arith, br.2.3, br.3),
            )
      ]

  -- The counts of a rebalanced node are right, whatever the weights of its sides.
  pub rebalance-IsCounted :
      (l : Tree V) (v : V) (s a : ℕ) (r : Tree V)
      → IsCounted (node l v s a r)
      → IsCounted (rebalance (node l v s a r))
        × (get_size (rebalance (node l v s a r)) ≡ 1 + get_size l + get_size r)
  unfolding rebalance
  rebalance-IsCounted l v s a r c =
      elim (Bool-cases (ltb (delta_k * get_weight r) (get_weight l))) [
        | inl t ↦ rw t (lighten_left-IsCounted l v s a r c.2 c.3 (ltb→lt _ _ t))
        | inr f ↦ elim (Bool-cases (ltb (delta_k * get_weight l) (get_weight r))) [
          | inl t ↦ rw (f, t) (lighten_right-IsCounted l v s a r c.2 c.3 (ltb→lt _ _ t))
          | inr t ↦ rw (f, t) (c, c.0)
        ]
      ]

  -- For a node with right counts and two balanced sides, each of a weight of at most 13/3 of the
  -- other's or of at most three more than thrice the other's, one `rebalance` gives a balanced tree.
  pub rebalance-IsBalanced :
      (l : Tree V) (v : V) (s a : ℕ) (r : Tree V)
      → IsCounted (node l v s a r)
      → IsBalanced l
      → IsBalanced r
      → Outgrown (get_weight l) (get_weight r)
      → Outgrown (get_weight r) (get_weight l)
      → IsBalanced (rebalance (node l v s a r))
  unfolding rebalance
  rebalance-IsBalanced l v s a r c bl br ol or =
      elim (Bool-cases (ltb (delta_k * get_weight r) (get_weight l))) [
        | inl t ↦ rw t (lighten_left-IsBalanced l v s a r c.2 bl br (ltb→lt _ _ t) ol)
        | inr f ↦ elim (Bool-cases (ltb (delta_k * get_weight l) (get_weight r))) [
          | inl t ↦ rw (f, t) (lighten_right-IsBalanced l v s a r c.3 bl br (ltb→lt _ _ t) or)
          | inr t ↦ rw (f, t) (ltb-eq-false _ _ f, ltb-eq-false _ _ t, bl, br)
        ]
      ]
