-- ===== src/AvlTree/Join/Around.antt =====
-- A root is joined with both its sides, `join_with_root_` in include/smashtable/basic_avl_tree.hpp.
use smash_table.Base.{
  ℕ, ◌+◌, ◌≤◌, ◌<◌, ◌≡◌, ◌⊎◌, refl, sym, ◌∙◌, ap, arith, append_assoc, Bool-cases, inl, inr, ltb→lt,
  ltb-eq-false, ◌∷◌, ◌++◌,
}
use smash_table.AvlTree.{Tree, null, node, get_height, larger_of, to_list, IsValid}
use smash_table.AvlTree.Rotate.{rebalance_after_extract}
use smash_table.AvlTree.Rotate.Balance.{rebalance-IsValid}
use smash_table.AvlTree.Rotate.Heavy.{larger_of_lem, rebalance_lem, IsValid-left, IsValid-right}
use smash_table.AvlTree.Join.{hang, towers, join_around}

module _ {V : Type 0} where
  -- `t` is as high as the higher of two sides, or one higher
  pub record Tops (a b : ℕ) (t : Tree V) : Type 0 where
    pub valid : IsValid t
    pub height_least : larger_of a b ≤ get_height t
    pub height_most : get_height t ≤ larger_of a b + 1

  -- the higher side, its inner branch replaced by a tree at most one higher
  pub descend_left :
      (ll : Tree V) (lv : V) (lh : ℕ) (lr r t : Tree V)
      → IsValid (node ll lv lh lr)
      → get_height r + 1 < lh
      → Tops (get_height lr) (get_height r) t
      → Tops lh
          (get_height r)
          (rebalance_after_extract (node ll lv (larger_of (get_height ll) (get_height t) + 1) t))
  descend_left ll lv lh lr r t w high j =
      let b = w.balanced in
      let old = larger_of_lem (get_height ll) (get_height lr) in
      let sub = larger_of_lem (get_height lr) (get_height r) in
      let new = larger_of_lem (get_height ll) (get_height t) in
      let whole = larger_of_lem lh (get_height r) in
      let built =
        rebalance-IsValid ll lv (larger_of (get_height ll) (get_height t) + 1) t (IsValid-left w)
          j.valid (omega (arith, b.0, b.1, w.measured.0, j.height_least))
          (omega (arith, b.0, b.1, w.measured.0, j.height_most)) in
      record {
        valid = built.0;
        height_least =
            omega (arith, b.0, b.1, w.measured.0, j.height_least, j.height_most, built.1, built.3);
        height_most = omega (arith, b.0, b.1, w.measured.0, j.height_least, j.height_most, built.2);
      }

  pub descend_right :
      (l rl : Tree V) (rv : V) (rh : ℕ) (rr t : Tree V)
      → IsValid (node rl rv rh rr)
      → get_height l + 1 < rh
      → Tops (get_height l) (get_height rl) t
      → Tops
          (get_height l)
          rh
          (rebalance_after_extract (node t rv (larger_of (get_height t) (get_height rr) + 1) rr))
  descend_right l rl rv rh rr t w high j =
      let b = w.balanced in
      let old = larger_of_lem (get_height rl) (get_height rr) in
      let sub = larger_of_lem (get_height l) (get_height rl) in
      let new = larger_of_lem (get_height t) (get_height rr) in
      let whole = larger_of_lem (get_height l) rh in
      let built =
        rebalance-IsValid t rv (larger_of (get_height t) (get_height rr) + 1) rr j.valid
          (IsValid-right w) (omega (arith, b.0, b.1, w.measured.0, j.height_most))
          (omega (arith, b.0, b.1, w.measured.0, j.height_least)) in
      record {
        valid = built.0;
        height_least =
            omega (arith, b.0, b.1, w.measured.0, j.height_least, j.height_most, built.1, built.3);
        height_most = omega (arith, b.0, b.1, w.measured.0, j.height_least, j.height_most, built.2);
      }

  -- neither side is more than one higher than the other
  pub hang_lem :
      (l jl : Tree V) (v : V) (h : ℕ) (jr r : Tree V)
      → IsValid l
      → IsValid r
      → get_height l ≤ get_height r + 1
      → get_height r ≤ get_height l + 1
      → Tops (get_height l) (get_height r) (hang l (node jl v h jr) r)
  hang_lem l jl v h jr r wl wr x y =
      let top = larger_of_lem (get_height l) (get_height r) in
      record {
        valid = record {
          measured = (refl, wl.measured, wr.measured);
          balanced = (x, y, wl.balanced, wr.balanced);
        };
        height_least = omega arith;
        height_most = omega arith;
      }

  -- both sides around the entry of the root
  pub record Joins (l : Tree V) (v : V) (r t : Tree V) : Type 0 where
    pub top : Tops (get_height l) (get_height r) t
    pub even :
        (get_height t ≡ larger_of (get_height l) (get_height r) + 1)
        ⊎ ((get_height r + 2 ≤ get_height l) ⊎ (get_height l + 2 ≤ get_height r))
    pub sequence : to_list t ≡ to_list l ++ v ∷ to_list r

  pub around_left :
      (ll : Tree V) (lv : V) (lh : ℕ) (lr : Tree V) (v : V) (r t : Tree V)
      → IsValid (node ll lv lh lr)
      → get_height r + 1 < lh
      → Joins lr v r t
      → Joins
          (node ll lv lh lr)
          v
          r
          (rebalance_after_extract (node ll lv (larger_of (get_height ll) (get_height t) + 1) t))
  around_left ll lv lh lr v r t w high j =
      let built =
        rebalance_lem ll lv (larger_of (get_height ll) (get_height t) + 1) t w.measured.1
          j.top.valid.measured in
      record {
        top = descend_left ll lv lh lr r t w high j.top;
        even = inr (inl (omega arith));
        sequence =
            built.sequence
            ∙ ap (λ xs. to_list ll ++ lv ∷ xs) j.sequence
            ∙ sym (append_assoc (to_list ll) (lv ∷ to_list lr) (v ∷ to_list r));
      }

  pub around_right :
      (l : Tree V) (v : V) (rl : Tree V) (rv : V) (rh : ℕ) (rr t : Tree V)
      → IsValid (node rl rv rh rr)
      → get_height l + 1 < rh
      → Joins l v rl t
      → Joins l v
          (node rl rv rh rr)
          (rebalance_after_extract (node t rv (larger_of (get_height t) (get_height rr) + 1) rr))
  around_right l v rl rv rh rr t w high j =
      let built =
        rebalance_lem t rv (larger_of (get_height t) (get_height rr) + 1) rr j.top.valid.measured
          w.measured.2 in
      record {
        top = descend_right l rl rv rh rr t w high j.top;
        even = inr (inr (omega arith));
        sequence =
            built.sequence
            ∙ ap (λ xs. xs ++ rv ∷ to_list rr) j.sequence
            ∙ append_assoc (to_list l) (v ∷ to_list rl) (rv ∷ to_list rr);
      }

  -- Two valid trees of whatever heights join around a root into a valid tree of all the entries in
  -- order, as high as the higher one or one higher.
  pub join_around_lem :
      (l jl : Tree V) (v : V) (h : ℕ) (jr r : Tree V)
      → IsValid l
      → IsValid r
      → Joins l v r (join_around l (node jl v h jr) r)
  unfolding join_around
  join_around_lem null jl v h jr null wl wr = record {
    top = hang_lem null jl v h jr null wl wr (omega arith) (omega arith);
    even = inl refl;
    sequence = refl;
  }
  join_around_lem null jl v h jr (node rl rv rh rr) wl wr =
      let r = node rl rv rh rr in
      elim (Bool-cases (towers r null)) [
        | inl t ↦ rw t (
            around_right null v rl rv rh rr _ wr (ltb→lt _ _ t)
              (join_around_lem null jl v h jr rl wl (IsValid-left wr)))
        | inr t ↦ rw t (record {
          top = hang_lem null jl v h jr r wl wr (omega arith) (ltb-eq-false _ _ t);
          even = inl refl;
          sequence = refl;
        })
      ]
  join_around_lem (node ll lv lh lr) jl v h jr null wl wr =
      let l = node ll lv lh lr in
      elim (Bool-cases (towers l null)) [
        | inl t ↦ rw t (
            around_left ll lv lh lr v null _ wl (ltb→lt _ _ t)
              (join_around_lem lr jl v h jr null (IsValid-right wl) wr))
        | inr t ↦ rw t (record {
          top = hang_lem l jl v h jr null wl wr (ltb-eq-false _ _ t) (omega arith);
          even = inl refl;
          sequence = refl;
        })
      ]
  join_around_lem (node ll lv lh lr) jl v h jr (node rl rv rh rr) wl wr =
      let l = node ll lv lh lr in
      let r = node rl rv rh rr in
      elim (Bool-cases (towers l r)) [
        | inl t ↦ rw t (
            around_left ll lv lh lr v r _ wl (ltb→lt _ _ t)
              (join_around_lem lr jl v h jr (node rl rv rh rr) (IsValid-right wl) wr))
        | inr t ↦ elim (Bool-cases (towers r l)) [
          | inl u ↦
              rw (t, u)
                (around_right l v rl rv rh rr _ wr (ltb→lt _ _ u)
                  (join_around_lem (node ll lv lh lr) jl v h jr rl wl (IsValid-left wr)))
          | inr u ↦
              rw (t, u)
                (record {
                  top = hang_lem l jl v h jr r wl wr (ltb-eq-false _ _ t) (ltb-eq-false _ _ u);
                  even = inl refl;
                  sequence = refl;
                })
        ]
      ]
