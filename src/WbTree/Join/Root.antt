-- ===== src/WbTree/Join/Root.antt =====
-- `join_with_root` and `join`, include/smashtable/basic_wb_tree.hpp: two valid trees of any weights
-- join into a valid tree of both sequences.
use smash_table.Sorted.Place.{without, without_here}
use smash_table.Base.{
  ℕ, ◌+◌, ◌*◌, ◌≤◌, ◌<◌, ◌≡◌, refl, sym, ◌∙◌, ap, arith, append_assoc, append-nil, Bool-cases, inl,
  inr, ltb→lt, ltb-eq-false, [], ◌∷◌, ◌++◌,
}
use smash_table.Order.{Entry}
use smash_table.Sorted.{IsSorted, IsSorted-split}
use smash_table.WbTree.{Tree, null, node, get_size, get_weight, delta_k, to_list, update_size}
use smash_table.WbTree.Search.Least.{least_of, find-find_min}
use smash_table.WbTree.Rotate.{rebalance}
use smash_table.WbTree.Rotate.Sequence.{to_list-rebalance}
use smash_table.WbTree.Rotate.Update.{IsValid, IsValid-left, IsValid-right, rebuild-IsValid}
use smash_table.WbTree.Extract.{extract}
use smash_table.WbTree.Extract.Taken.{detached, extracted-extract}
use smash_table.WbTree.Extract.Correct.{extract_lem}
use smash_table.WbTree.Join.{join_with_root, join, link, outweighs}

module _ {V : Type 0} ⦃e : Entry V⦄ where
  -- Joining keeps both sequences in order around the root's entry, whatever counts are stored.
  pub to_list-join_with_root :
      (l : Tree V) (jl : Tree V) (v : V) (s a : ℕ) (jr : Tree V) (r : Tree V)
      → to_list (join_with_root l (node jl v s a jr) r) ≡ to_list l ++ v ∷ to_list r
  unfolding join_with_root
  to_list-join_with_root null jl v s a jr null = refl
  to_list-join_with_root null jl v s a jr (node rl rv rs ra rr) =
      elim (Bool-cases (outweighs (node rl rv rs ra rr) null)) [
        | inl t ↦ rw t (
            to_list-rebalance _
            ∙ ap (λ xs. xs ++ rv ∷ to_list rr) (to_list-join_with_root null jl v s a jr rl))
        | inr t ↦ rw t
      ]
  to_list-join_with_root (node ll lv ls la lr) jl v s a jr null =
      elim (Bool-cases (outweighs (node ll lv ls la lr) null)) [
        | inl t ↦ rw t (
            to_list-rebalance _
            ∙ ap (λ xs. to_list ll ++ lv ∷ xs) (to_list-join_with_root lr jl v s a jr null)
            ∙ simp append_assoc)
        | inr t ↦ rw t
      ]
  to_list-join_with_root (node ll lv ls la lr) jl v s a jr (node rl rv rs ra rr) =
      elim (Bool-cases (outweighs (node ll lv ls la lr) (node rl rv rs ra rr))) [
        | inl t ↦ rw t (
            to_list-rebalance _
            ∙ ap (λ xs. to_list ll ++ lv ∷ xs)
                (to_list-join_with_root lr jl v s a jr (node rl rv rs ra rr))
            ∙ simp append_assoc)
        | inr t ↦ elim (Bool-cases (outweighs (node rl rv rs ra rr) (node ll lv ls la lr))) [
          | inl u ↦
              rw (t, u)
                (to_list-rebalance _
                  ∙ ap (λ xs. xs ++ rv ∷ to_list rr)
                      (to_list-join_with_root (node ll lv ls la lr) jl v s a jr rl)
                  ∙ simp append_assoc)
          | inr u ↦ rw (t, u)
        ]
      ]

  -- the tree has every entry of both sides and one more
  abbrev Joins : Tree V → Tree V → Tree V → Type 0
  Joins l r t = IsValid t × (get_size t ≡ 1 + get_size l + get_size r)

  descend_left :
      (ll : Tree V) (lv : V) (ls la : ℕ) (lr r t : Tree V)
      → IsValid (node ll lv ls la lr)
      → delta_k * get_weight r < get_weight (node ll lv ls la lr)
      → Joins lr r t
      → Joins (node ll lv ls la lr) r (rebalance (update_size (node ll lv ls la t)))
  descend_left ll lv ls la lr r t h heavy j =
      let b = h.balanced in
      let c = h.counted in
      let built =
        rebuild-IsValid ll lv ls la t (IsValid-left h) j.0 (omega (arith, b.0, c.0, j.1))
          (omega (arith, b.1, c.0, j.1)) in
      (built.0, omega (arith, built.1, j.1, c.0))

  descend_right :
      (l rl : Tree V) (rv : V) (rs ra : ℕ) (rr t : Tree V)
      → IsValid (node rl rv rs ra rr)
      → delta_k * get_weight l < get_weight (node rl rv rs ra rr)
      → Joins l rl t
      → Joins l (node rl rv rs ra rr) (rebalance (update_size (node t rv rs ra rr)))
  descend_right l rl rv rs ra rr t h heavy j =
      let b = h.balanced in
      let c = h.counted in
      let built =
        rebuild-IsValid t rv rs ra rr j.0 (IsValid-right h) (omega (arith, b.0, c.0, j.1))
          (omega (arith, b.1, c.0, j.1)) in
      (built.0, omega (arith, built.1, j.1, c.0))

  -- neither side outweighs the other
  link_lem :
      (l jl : Tree V) (v : V) (s a : ℕ) (jr r : Tree V)
      → IsValid l
      → IsValid r
      → get_weight l ≤ delta_k * get_weight r
      → get_weight r ≤ delta_k * get_weight l
      → Joins l r (link l (node jl v s a jr) r)
  link_lem l jl v s a jr r hl hr x y = (
    record {
      counted = (refl, refl, hl.counted, hr.counted);
      balanced = (x, y, hl.balanced, hr.balanced);
    },
    refl,
  )

  -- Joining two valid trees of whatever sizes around a root gives a valid tree of all the nodes.
  pub join_with_root_lem :
      (l : Tree V) (jl : Tree V) (v : V) (s a : ℕ) (jr : Tree V) (r : Tree V)
      → IsValid l
      → IsValid r
      → IsValid (join_with_root l (node jl v s a jr) r)
        × (get_size (join_with_root l (node jl v s a jr) r) ≡ 1 + get_size l + get_size r)
  unfolding join_with_root
  join_with_root_lem null jl v s a jr null hl hr =
      link_lem null jl v s a jr null hl hr (omega arith) (omega arith)
  join_with_root_lem null jl v s a jr (node rl rv rs ra rr) hl hr =
      elim (Bool-cases (outweighs (node rl rv rs ra rr) null)) [
        | inl t ↦ rw t (
            descend_right null rl rv rs ra rr _ hr (ltb→lt _ _ t)
              (join_with_root_lem null jl v s a jr rl hl (IsValid-left hr)))
        | inr t ↦ rw t (
            link_lem null jl v s a jr (node rl rv rs ra rr) hl hr (omega arith)
              (ltb-eq-false _ _ t))
      ]
  join_with_root_lem (node ll lv ls la lr) jl v s a jr null hl hr =
      elim (Bool-cases (outweighs (node ll lv ls la lr) null)) [
        | inl t ↦ rw t (
            descend_left ll lv ls la lr null _ hl (ltb→lt _ _ t)
              (join_with_root_lem lr jl v s a jr null (IsValid-right hl) hr))
        | inr t ↦ rw t (
            link_lem (node ll lv ls la lr) jl v s a jr null hl hr (ltb-eq-false _ _ t)
              (omega arith))
      ]
  join_with_root_lem (node ll lv ls la lr) jl v s a jr (node rl rv rs ra rr) hl hr =
      let l = node ll lv ls la lr in
      let r = node rl rv rs ra rr in
      elim (Bool-cases (outweighs l r)) [
        | inl t ↦ rw t (
            descend_left ll lv ls la lr r _ hl (ltb→lt _ _ t)
              (join_with_root_lem lr jl v s a jr (node rl rv rs ra rr) (IsValid-right hl) hr))
        | inr t ↦ elim (Bool-cases (outweighs r l)) [
          | inl u ↦
              rw (t, u)
                (descend_right l rl rv rs ra rr _ hr (ltb→lt _ _ u)
                  (join_with_root_lem (node ll lv ls la lr) jl v s a jr rl hl (IsValid-left hr)))
          | inr u ↦
              rw (t, u) (link_lem l jl v s a jr r hl hr (ltb-eq-false _ _ t) (ltb-eq-false _ _ u))
        ]
      ]

  -- `join` takes its root from the right side.
  pub record Appends (l r t : Tree V) : Type 0 where
    pub valid : IsValid t
    pub size : get_size t ≡ get_size l + get_size r
    pub sequence : to_list t ≡ to_list l ++ to_list r

  pub join_lem :
      (l r : Tree V) → IsValid l → IsValid r → IsSorted (to_list r) → Appends l r (join l r)
  unfolding join
  join_lem null r hl hr o = record { valid = hr; size = omega arith; sequence = refl }
  join_lem (node ll lv ls la lr) null hl hr o = record {
    valid = hl;
    size = omega arith;
    sequence = sym (append-nil _);
  }
  join_lem (node ll lv ls la lr) (node rl rv rs ra rr) hl hr o =
      let l = node ll lv ls la lr in
      let r = node rl rv rs ra rr in
      let m = least_of rl rv rs ra rr in
      let out = extract_lem r (e.key m.fruit) hr o in
      let taken =
        extracted-extract r (e.key m.fruit)
        ∙ ap detached (find-find_min rl rv rs ra rr o ∙ m.found) in
      let size : get_size (extract r (e.key m.fruit)).root + 1 ≡ rs = rw taken at out.size in
      let kept : to_list (extract r (e.key m.fruit)).root ≡ m.rest =
        out.sequence
        ∙ ap (without (e.key m.fruit)) m.first
        ∙ without_here (e.key m.fruit) [] m.fruit m.rest
            (IsSorted-split [] m.fruit m.rest (rw m.first at o))
            (e.order.less_irrefl (e.key m.fruit)) (e.order.less_irrefl (e.key m.fruit)) in
      let built =
        join_with_root_lem l null m.fruit 1 (e.augmented_count m.fruit + 0 + 0) null
          (extract r (e.key m.fruit)).root hl out.valid in
      rw (m.found, join, taken)
        (record {
          valid = built.0;
          size = omega (arith, built.1);
          sequence =
              to_list-join_with_root l null m.fruit 1 (e.augmented_count m.fruit + 0 + 0) null
                (extract r (e.key m.fruit)).root
              ∙ ap (λ xs. to_list l ++ m.fruit ∷ xs) kept
              ∙ ap (λ xs. to_list l ++ xs) (sym m.first);
        })
