-- ===== src/AvlTree/Extract/Correct.antt =====
-- What an extraction leaves, include/smashtable/basic_avl_tree.hpp: the other entries in order
-- under right heights, whatever the balance was. `erase_if` extracts from trees that are off balance.
use smash_table.Sorted.Place.{without, without_left, without_right, without_here}
use smash_table.Base.{
  ℕ, ◌+◌, ◌≡◌, refl, sym, ◌∙◌, ap, Bool-cases, inl, inr, false, [], ◌∷◌, ◌++◌, append-nil,
}
use smash_table.Order.{Entry}
use smash_table.Sorted.{IsSorted, IsSorted-split}
use smash_table.AvlTree.{Tree, null, node, is_node, get_height, larger_of, to_list, IsMeasured}
use smash_table.AvlTree.Search.Least.{least_of}
use smash_table.AvlTree.Rotate.Heavy.{rebalance_lem}
use smash_table.AvlTree.Extract.{ExtractResult, extract_root, extract}
use smash_table.AvlTree.Extract.Taken.{extract-missing, extracted_least}

module _ {V : Type 0} ⦃e : Entry V⦄ where
  -- `result` is what the extraction of `q` from `t` should give
  pub record Extracts (t : Tree V) (q : e.Key) (result : ExtractResult V) : Type 0 where
    pub measured : IsMeasured result.root
    pub sequence : to_list result.root ≡ without q (to_list t)

  -- the rest of a sorted tree after its least entry
  pub without_least :
      (l : Tree V) (v : V) (h : ℕ) (r : Tree V)
      → IsSorted (to_list (node l v h r))
      → without (e.key (least_of l v h r).fruit) (to_list (node l v h r)) ≡ (least_of l v h r).rest
  without_least l v h r o =
      let m = least_of l v h r in
      ap (without (e.key m.fruit)) m.first
      ∙ without_here (e.key m.fruit) [] m.fruit m.rest
          (IsSorted-split [] m.fruit m.rest (rw m.first at o)) (e.order.less_irrefl (e.key m.fruit))
          (e.order.less_irrefl (e.key m.fruit))

  -- the least entry of the right branch takes the place of the root
  promote :
      (ll : Tree V) (lv : V) (lh : ℕ) (lr : Tree V) (v : V) (h : ℕ) (rl : Tree V) (rv : V) (rh : ℕ)
      (rr : Tree V) (q : e.Key)
      → IsMeasured (node ll lv lh lr)
      → IsSorted (to_list (node (node ll lv lh lr) v h (node rl rv rh rr)))
      → e.less q (e.key v) ≡ false
      → e.less (e.key v) q ≡ false
      → Extracts
          (node rl rv rh rr)
          (e.key (least_of rl rv rh rr).fruit)
          (extract (node rl rv rh rr) (e.key (least_of rl rv rh rr).fruit))
      → Extracts (node (node ll lv lh lr) v h (node rl rv rh rr)) q (
          extract_root
            (node (node ll lv lh lr) v h (node rl rv rh rr))
            (extract (node rl rv rh rr)))
  unfolding extract_root
  promote ll lv lh lr v h rl rv rh rr q ml o low high ih =
      let l = node ll lv lh lr in
      let r = node rl rv rh rr in
      let m = least_of rl rv rh rr in
      let p = IsSorted-split (to_list l) v (to_list r) o in
      let rest = (extract r (e.key m.fruit)).root in
      let built =
        rebalance_lem l m.fruit (larger_of lh (get_height rest) + 1) rest ml ih.measured in
      rw (m.found, extract_root, extracted_least rl rv rh rr p.right_sorted)
        (record {
          measured = built.measured;
          sequence =
              built.sequence
              ∙ ap (λ xs. to_list l ++ m.fruit ∷ xs)
                  (ih.sequence ∙ without_least rl rv rh rr p.right_sorted)
              ∙ ap (λ xs. to_list l ++ xs) (sym m.first)
              ∙ sym (without_here q (to_list l) v (to_list r) p low high);
        })

  pub extract_root_lem :
      (l : Tree V) (v : V) (h : ℕ) (r : Tree V) (q : e.Key)
      → IsMeasured l
      → IsMeasured r
      → IsSorted (to_list (node l v h r))
      → e.less q (e.key v) ≡ false
      → e.less (e.key v) q ≡ false
      → ((k : e.Key) → Extracts r k (extract r k))
      → Extracts (node l v h r) q (extract_root (node l v h r) (extract r))
  unfolding extract_root
  extract_root_lem null v h null q ml mr o low high ih = record {
    measured = tt;
    sequence = sym (without_here q [] v [] (IsSorted-split [] v [] o) low high);
  }
  extract_root_lem (node ll lv lh lr) v h null q ml mr o low high ih = record {
    measured = ml;
    sequence =
        let xs = to_list (node ll lv lh lr) in
        sym (without_here q xs v [] (IsSorted-split xs v [] o) low high ∙ append-nil xs);
  }
  extract_root_lem null v h (node rl rv rh rr) q ml mr o low high ih = record {
    measured = mr;
    sequence =
        let ys = to_list (node rl rv rh rr) in
        sym (without_here q [] v ys (IsSorted-split [] v ys o) low high);
  }
  extract_root_lem (node ll lv lh lr) v h (node rl rv rh rr) q ml mr o low high ih =
      promote ll lv lh lr v h rl rv rh rr q ml o low high (ih _)

  -- An extraction from a sorted tree with right heights leaves the other entries in order and right
  -- heights.
  pub extract_lem :
      (t : Tree V) (q : e.Key) → IsMeasured t → IsSorted (to_list t) → Extracts t q (extract t q)
  unfolding extract
  extract_lem null q m o = record { measured = m; sequence = refl }
  extract_lem (node l v h r) q m o =
      let p = IsSorted-split (to_list l) v (to_list r) o in
      let in_left = extract_lem l q m.1 p.left_sorted in
      let in_right = extract_lem r q m.2 p.right_sorted in
      elim (Bool-cases (e.less q (e.key v))) [
        | inl t ↦
            let kept = without_left q (to_list l) v (to_list r) p t in
            elim (Bool-cases (is_node (extract l q).extracted)) [
              | inl x ↦
                  let built = rebalance_lem (extract l q).root v h r in_left.measured m.2 in
                  rw (t, x)
                    (record {
                      measured = built.measured;
                      sequence =
                          built.sequence
                          ∙ ap (λ xs. xs ++ v ∷ to_list r) in_left.sequence
                          ∙ sym kept;
                    })
              | inr x ↦
                  let same = extract-missing l q x in
                  rw (t, x, same)
                    (record {
                      measured = m;
                      sequence =
                          ap (λ xs. xs ++ v ∷ to_list r) (rw same at in_left.sequence) ∙ sym kept;
                    })
            ]
        | inr t ↦ elim (Bool-cases (e.less (e.key v) q)) [
          | inl u ↦
              let kept = without_right q (to_list l) v (to_list r) p u in
              elim (Bool-cases (is_node (extract r q).extracted)) [
                | inl x ↦
                    let built = rebalance_lem l v h (extract r q).root m.1 in_right.measured in
                    rw (t, u, x)
                      (record {
                        measured = built.measured;
                        sequence =
                            built.sequence
                            ∙ ap (λ xs. to_list l ++ v ∷ xs) in_right.sequence
                            ∙ sym kept;
                      })
                | inr x ↦
                    let same = extract-missing r q x in
                    rw (t, u, x, same)
                      (record {
                        measured = m;
                        sequence =
                            ap (λ xs. to_list l ++ v ∷ xs) (rw same at in_right.sequence)
                            ∙ sym kept;
                      })
              ]
          | inr u ↦
              rw (t, u)
                (extract_root_lem l v h r q m.1 m.2 o t u (λ k. extract_lem r k m.2 p.right_sorted))
        ]
      ]
