-- ===== src/AvlTree/Merge/Split.antt =====
-- Two merges of trees without a common key, include/smashtable/basic_avl_tree.hpp: by splitting,
-- and by flattening, which leave the same entries.
use smash_table.Base.{
  ℕ, Bool, ◌+◌, ◌*◌, ◌<◌, ◌≡◌, refl, sym, ◌∙◌, ap, some, inl, inr, List, [], ◌∷◌, arith, All,
  All-imp, All-split, Bool-cases, keep, append-nil, length,
}
use smash_table.Order.{Entry, ◌≺◌}
use smash_table.Sorted.{IsSorted, IsSorted-split, below, above, matches, keep-IsSorted}
use smash_table.Sorted.Union.{
  Apart, Unites, Apart-keep, Apart-cases, Unites-around, not_below-above,
}
use smash_table.AvlTree.{Tree, null, node, to_list, IsValid}
use smash_table.AvlTree.Rotate.Heavy.{IsValid-left, IsValid-right}
use smash_table.AvlTree.Join.{split}
use smash_table.AvlTree.Join.Cut.{join_with_root_lem, split_lem}
use smash_table.AvlTree.Merge.{
  merge_split_based, merge_spines, take_until, merge_dsw, spine_to_balanced,
}
use smash_table.AvlTree.Merge.Spine.{tree_to_spine_lem}
use smash_table.AvlTree.Merge.Rebuild.{spine_to_balanced_lem}

module _ {V : Type 0} ⦃e : Entry V⦄ where
  pub Unites-nil_left : (ys : List V) → IsSorted ys → Unites [] ys ys
  Unites-nil_left ys o = record {
    sorted = o;
    number = omega arith;
    from_both = λ P hx hy. hy;
    finds = λ q. refl;
  }

  pub Unites-nil_right : (xs : List V) → IsSorted xs → Unites xs [] xs
  Unites-nil_right xs o = record {
    sorted = o;
    number = omega arith;
    from_both = λ P hx hy. hx;
    finds = λ q. sym (append-nil _);
  }

  -- The merge by splitting gives a valid tree of all the entries.
  pub merge_split_based_lem :
      (small large : Tree V)
      → IsValid small
      → IsValid large
      → IsSorted (to_list small)
      → IsSorted (to_list large)
      → Apart (to_list small) (to_list large)
      → IsValid (merge_split_based small large)
        × Unites (to_list small) (to_list large) (to_list (merge_split_based small large))
  unfolding merge_split_based
  merge_split_based_lem null large ws wl os ol a = (wl, Unites-nil_left (to_list large) ol)
  merge_split_based_lem (node l v h r) null ws wl os ol a =
      (ws, Unites-nil_right (to_list (node l v h r)) os)
  merge_split_based_lem (node l v h r) (node ml mv mh mr) ws wl os ol a =
      let large = node ml mv mh mr in
      let ys = to_list large in
      let k = e.key v in
      let halves = split large k in
      let cut = split_lem large k wl ol in
      let p = IsSorted-split (to_list l) v (to_list r) os in
      let parts = All-split _ (to_list l) (v ∷ to_list r) a in
      let right_sequence = cut.right_sequence ∙ not_below-above k ys parts.1.0 in
      let on_left =
        merge_split_based_lem l halves.left (IsValid-left ws) cut.left_valid p.left_sorted
          (rw cut.left_sequence (keep-IsSorted (below k) ys ol))
          (rw cut.left_sequence (Apart-keep (below k) (to_list l) ys parts.0)) in
      let on_right =
        merge_split_based_lem r halves.right (IsValid-right ws) cut.right_valid p.right_sorted
          (rw right_sequence (keep-IsSorted (above k) ys ol))
          (rw right_sequence (Apart-keep (above k) (to_list r) ys parts.1.1)) in
      let j =
        join_with_root_lem (merge_split_based l halves.left) l v h r
          (merge_split_based r halves.right) on_left.0 on_right.0 in
      (
        j.top.valid,
        rw j.sequence (
            Unites-around (to_list l) v (to_list r) ys (to_list (merge_split_based l halves.left))
              (to_list (merge_split_based r halves.right)) os ol parts.1.0
              (rw cut.left_sequence at on_left.1) (rw right_sequence at on_right.1)),
      )

  keep_tail : (p : V → Bool) (y : V) (ys : List V) → keep p (y ∷ ys) ≡ [] → keep p ys ≡ []
  keep_tail p y ys h = ground arith

  take_until_lem :
      (x : V) (xs : List V) (after : List V → List V) (ys : List V)
      → ((ys : List V) → IsSorted ys → Apart xs ys → Unites xs ys (after ys))
      → IsSorted (x ∷ xs)
      → IsSorted ys
      → Apart (x ∷ xs) ys
      → Unites (x ∷ xs) ys (take_until x after ys)
  unfolding take_until
  take_until_lem x xs after [] ih ox oy a =
      let u = ih [] tt a.1 in
      record {
        sorted = (u.from_both (λ z. x ≺ z) ox.0 tt, u.sorted);
        number = omega (arith, u.number);
        from_both = λ P hx hy. (hx.0, u.from_both P hx.1 tt);
        finds = λ q. ground (arith, u.finds q);
      }
  take_until_lem x xs after (y ∷ ys) ih ox oy a = elim (Bool-cases (e.less (e.key x) (e.key y))) [
    | inl t ↦
        let u = ih (y ∷ ys) oy a.1 in
        let above_y : All (λ z. x ≺ z) (y ∷ ys) =
          (t, All-imp (λ z b. e.order.less_trans _ _ _ t b) ys oy.0) in
        rw t (record {
          sorted = (u.from_both (λ z. x ≺ z) ox.0 above_y, u.sorted);
          number = omega (arith, u.number);
          from_both = λ P hx hy. (hx.0, u.from_both P hx.1 hy);
          finds = λ q. elim (Bool-cases (matches q x)) [
            | inl m ↦ rw m (ap (λ zs. x ∷ zs) (u.finds q))
            | inr m ↦ rw m (u.finds q)
          ];
        })
    | inr t ↦
        let tail : Apart (x ∷ xs) ys =
          All-imp (λ z b. keep_tail (matches (e.key z)) y ys b) (x ∷ xs) a in
        let u = take_until_lem x xs after ys ih ox oy.1 tail in
        elim (Bool-cases (e.less (e.key y) (e.key x))) [
          | inl t' ↦
              let above_y : All (λ z. y ≺ z) (x ∷ xs) =
                (t', All-imp (λ z b. e.order.less_trans _ _ _ t' b) xs ox.0) in
              rw t (record {
                sorted = (u.from_both (λ z. y ≺ z) above_y oy.0, u.sorted);
                number = omega (arith, u.number);
                from_both = λ P hx hy. (hy.0, u.from_both P hx hy.1);
                finds = λ q. elim (Bool-cases (matches q y)) [
                  | inr m ↦ rw m (u.finds q)
                  | inl m ↦ elim (Apart-cases q (x ∷ xs) (y ∷ ys) a) [
                    | inl n ↦ rw (n, m, u.finds q, n) refl
                    | inr n ↦ let never = rw m at n in absurd (ground (arith, never))
                  ]
                ];
              })
          | inr t' ↦ let never = rw (t, t') at a.0 in absurd (ground (arith, never))
        ]
  ]

  merge_spines_lem :
      (xs ys : List V) → IsSorted xs → IsSorted ys → Apart xs ys → Unites xs ys (merge_spines xs ys)
  unfolding merge_spines
  merge_spines_lem [] ys ox oy a = Unites-nil_left ys oy
  merge_spines_lem (x ∷ xs) ys ox oy a =
      take_until_lem x xs (merge_spines xs) ys (λ zs oz b. merge_spines_lem xs zs ox.1 oz b) ox oy a

  -- The merge by flattening ends, within two rounds for each node of either tree and one more, with a
  -- valid tree of all the entries and their number.
  pub record Rebuilds (s t : Tree V) (result : Tree V × ℕ) : Type 1 where
    pub valid : IsValid result.0
    pub union : Unites (to_list s) (to_list t) (to_list result.0)
    pub size : result.1 ≡ length (to_list s) + length (to_list t)

  pub merge_dsw_lem :
      (fuel : ℕ) (s t : Tree V)
      → 2 * length (to_list s) < fuel
      → 2 * length (to_list t) < fuel
      → IsSorted (to_list s)
      → IsSorted (to_list t)
      → Apart (to_list s) (to_list t)
      → (result : Tree V × ℕ) × (merge_dsw fuel s t ≡ some result) × Rebuilds s t result
  unfolding merge_dsw
  merge_dsw_lem fuel s t fs ft os ot a =
      let xs = to_list s in
      let ys = to_list t in
      let spine = merge_spines xs ys in
      let u = merge_spines_lem xs ys os ot a in
      let built = spine_to_balanced_lem spine in
      let size : length spine ≡ length xs + length ys = u.number in
      (
        (spine_to_balanced spine (length xs + length ys), length xs + length ys),
        rw (tree_to_spine_lem fuel s fs, merge_dsw, tree_to_spine_lem fuel t ft, merge_dsw),
        record { valid = rw (← size) built.0; union = rw (← size, built.1) u; size = refl },
      )
