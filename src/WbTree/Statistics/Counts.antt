-- ===== src/WbTree/Statistics/Counts.antt =====
-- Order statistics against the sequence of entries, include/smashtable/basic_wb_tree.hpp.
use smash_table.Sorted.Place.{keep-below_here}
use smash_table.Base.{
  ℕ, suc, ◌+◌, ◌-◌, ◌≡◌, refl, sym, ◌∙◌, arith, Bool-cases, inl, inr, Bool, not, keep, length,
  total, get_elem?, length-append, total-append, keep-append, get_elem?-append_left,
  get_elem?-append_right, ltb, ltb→lt, ltb-eq-false, ◌==◌, ◌∷◌, [], List,
}
use smash_table.Order.{Entry}
use smash_table.Sorted.{IsSorted, IsSorted-split, below, keep-below_left, keep-below_right}
use smash_table.Order.{less_asymm}
use smash_table.WbTree.{Tree, null, node, fruit?, to_list, get_size, get_augmented_size, IsCounted}
use smash_table.WbTree.Statistics.{
  select, rank, select_augmented, rank_augmented, rank_augmented_loop,
}

module _ {V : Type 0} ⦃e : Entry V⦄ where
  -- The stored counts are those of the sequence.
  pub length-to_list : (t : Tree V) → IsCounted t → length (to_list t) ≡ get_size t
  length-to_list null c = refl
  length-to_list (node l v s a r) c =
      length-append (to_list l) (v ∷ to_list r)
      ∙ omega (arith, c.0, length-to_list l c.2, length-to_list r c.3)

  pub total-to_list :
      (t : Tree V) → IsCounted t → total e.augmented_count (to_list t) ≡ get_augmented_size t
  total-to_list null c = refl
  total-to_list (node l v s a r) c =
      total-append e.augmented_count (to_list l) (v ∷ to_list r)
      ∙ omega (arith, c.1, total-to_list l c.2, total-to_list r c.3)

  -- In a tree with right counts `select` returns the k-th entry from 0, and null from the end on.
  pub select_lem :
      (t : Tree V) (k : ℕ) → IsCounted t → fruit? (select t k) ≡ get_elem? (to_list t) k
  unfolding select
  select_lem null k c = refl
  select_lem (node l v s a r) k c =
      let size = length-to_list l c.2 in
      elim (Bool-cases (ltb k (get_size l))) [
        | inl t ↦
            rw
              (t, get_elem?-append_left (to_list l) (v ∷ to_list r) k (omega (arith, ltb→lt _ _ t)))
              (select_lem l k c.2)
        | inr t ↦
            let high = ltb-eq-false _ _ t in
            let here = get_elem?-append_right (to_list l) (v ∷ to_list r) k (omega arith) in
            elim (Bool-cases (k == get_size l)) [
              | inl u ↦
                  let none_left : k - length (to_list l) ≡ 0 = ground arith in
                  rw (t, u, here, none_left)
              | inr u ↦
                  let more : k - length (to_list l) ≡ suc (k - get_size l - 1) = ground arith in
                  rw (t, u, here, more) (select_lem r (k - get_size l - 1) c.3)
            ]
      ]

  -- In a sorted tree with right counts `rank` is the number of entries below the key.
  pub rank_lem :
      (t : Tree V) (q : e.Key)
      → IsCounted t
      → IsSorted (to_list t)
      → rank t q ≡ length (keep (below q) (to_list t))
  unfolding rank
  rank_lem null q c o = refl
  rank_lem (node l v s a r) q c o =
      let p = IsSorted-split (to_list l) v (to_list r) o in
      let size = length-to_list l c.2 in
      elim (Bool-cases (e.less q (e.key v))) [
        | inl t ↦
            rw (t, keep-below_left q (to_list l) v (to_list r) p (less_asymm e.order _ _ t))
              (rank_lem l q c.2 p.left_sorted)
        | inr t ↦ elim (Bool-cases (e.less (e.key v) q)) [
          | inl u ↦
              rw (t, u, keep-below_right q (to_list l) v (to_list r) p u, length-append)
                (omega (arith, rank_lem r q c.3 p.right_sorted))
          | inr u ↦ rw (t, u, keep-below_here q (to_list l) v (to_list r) p t u) (sym size)
        ]
      ]

  -- the entries that the augmentation policy counts
  abbrev pub counted : V → Bool
  counted v = not (e.augmented_count v == 0)

  length-keep_counted : (xs : List V) → length (keep counted xs) ≡ total e.augmented_count xs
  length-keep_counted [] = refl
  length-keep_counted (x ∷ xs) = ground (arith, length-keep_counted xs, e.augmented_count-le_one x)

  -- In a tree with right counts `select_augmented` returns the k-th entry from 0 among those that
  -- the policy counts, and null where it counts no more than k.
  pub select_augmented_lem :
      (t : Tree V) (k : ℕ)
      → IsCounted t
      → fruit? (select_augmented t k) ≡ get_elem? (keep counted (to_list t)) k
  unfolding select_augmented
  select_augmented_lem null k c = refl
  select_augmented_lem (node l v s a r) k c =
      let size : length (keep counted (to_list l)) ≡ get_augmented_size l =
        length-keep_counted (to_list l) ∙ total-to_list l c.2 in
      let one = e.augmented_count-le_one v in
      elim (Bool-cases (ltb k (get_augmented_size l))) [
        | inl t ↦
            rw
              (
                t,
                keep-append,
                get_elem?-append_left (keep counted (to_list l)) (keep counted (v ∷ to_list r)) k
                    (omega (arith, ltb→lt _ _ t)),
              )
              (select_augmented_lem l k c.2)
        | inr t ↦
            let high = ltb-eq-false _ _ t in
            let at =
              get_elem?-append_right (keep counted (to_list l)) (keep counted (v ∷ to_list r)) k
                (omega arith) in
            elim (Bool-cases (e.augmented_count v == 0)) [
              | inl u ↦
                  let next : k - get_augmented_size l - e.augmented_count v
                      ≡ k - length (keep counted (to_list l)) =
                    ground arith in
                  rw (t, keep-append, at, u, next)
                    (select_augmented_lem r (k - length (keep counted (to_list l))) c.3)
              | inr u ↦ elim (Bool-cases (k - get_augmented_size l == 0)) [
                | inl w ↦
                    let first : k - length (keep counted (to_list l)) ≡ 0 = ground arith in
                    rw (t, keep-append, at, u, w, first)
                | inr w ↦
                    let later : k - length (keep counted (to_list l))
                        ≡ suc (k - get_augmented_size l - e.augmented_count v) =
                      ground arith in
                    rw (t, keep-append, at, u, w, later)
                      (select_augmented_lem r (k - get_augmented_size l - e.augmented_count v) c.3)
              ]
            ]
      ]

  rank_augmented_loop_lem :
      (t : Tree V) (q : e.Key) (n : ℕ)
      → IsCounted t
      → IsSorted (to_list t)
      → rank_augmented_loop t q n ≡ n + total e.augmented_count (keep (below q) (to_list t))
  unfolding rank_augmented_loop
  rank_augmented_loop_lem null q n c o = omega arith
  rank_augmented_loop_lem (node l v s a r) q n c o =
      let p = IsSorted-split (to_list l) v (to_list r) o in
      let size = total-to_list l c.2 in
      elim (Bool-cases (e.less q (e.key v))) [
        | inl t ↦
            rw (t, keep-below_left q (to_list l) v (to_list r) p (less_asymm e.order _ _ t))
              (rank_augmented_loop_lem l q n c.2 p.left_sorted)
        | inr t ↦ elim (Bool-cases (e.less (e.key v) q)) [
          | inl u ↦
              rw (t, u, keep-below_right q (to_list l) v (to_list r) p u, total-append)
                (omega (
                  arith,
                  rank_augmented_loop_lem r q (n + (get_augmented_size l + e.augmented_count v)) c.3
                      p.right_sorted,
                ))
          | inr u ↦ rw (t, u, keep-below_here q (to_list l) v (to_list r) p t u) (omega arith)
        ]
      ]

  -- In a sorted tree with right counts `rank_augmented` is the number of the entries below the key
  -- that the policy counts.
  pub rank_augmented_lem :
      (t : Tree V) (q : e.Key)
      → IsCounted t
      → IsSorted (to_list t)
      → rank_augmented t q ≡ total e.augmented_count (keep (below q) (to_list t))
  unfolding rank_augmented
  rank_augmented_lem t q c o = rank_augmented_loop_lem t q 0 c o ∙ omega arith
