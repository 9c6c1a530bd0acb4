-- ===== src/WbTree/Extract/Correct.antt =====
-- What an extraction leaves, include/smashtable/basic_wb_tree.hpp: a valid tree of the other
-- entries.
use smash_table.Sorted.Place.{without, without_left, without_right, without_here}
use smash_table.Base.{
  ℕ, ◌+◌, ◌≤◌, ◌≡◌, refl, sym, ◌∙◌, ap, arith, Bool-cases, inl, inr, false, [], ◌∷◌, ◌++◌,
  append-nil,
}
use smash_table.Order.{Entry}
use smash_table.Sorted.{IsSorted, IsSorted-split}
use smash_table.WbTree.{Tree, null, node, is_node, get_size, to_list}
use smash_table.WbTree.Search.{find}
use smash_table.WbTree.Search.Least.{least_of, find-find_min}
use smash_table.WbTree.Rotate.Sequence.{to_list-rebalance}
use smash_table.WbTree.Rotate.Update.{
  IsValid, IsValid-left, IsValid-right, rebuild-IsValid, rebuild_left, rebuild_right,
}
use smash_table.WbTree.Extract.{ExtractResult, extract_root, extract, rebalance_after_extract}
use smash_table.WbTree.Extract.Taken.{detached, extracted-extract, extract-missing}

module _ {V : Type 0} ⦃e : Entry V⦄ where
  -- `result` is what the extraction of `q` from `t` should give
  pub record Extracts (t : Tree V) (q : e.Key) (result : ExtractResult V) : Type 0 where
    pub valid : IsValid result.root
    pub size : get_size result.root + get_size result.extracted ≡ get_size t
    pub sequence : to_list result.root ≡ without q (to_list t)

  -- The least entry of the right branch takes the place of the root.
  promote :
      (ll : Tree V) (lv : V) (ls la : ℕ) (lr : Tree V) (v : V) (s a : ℕ) (rl : Tree V) (rv : V)
      (rs ra : ℕ) (rr : Tree V) (q : e.Key)
      → IsValid (node (node ll lv ls la lr) v s a (node rl rv rs ra rr))
      → IsSorted (to_list (node (node ll lv ls la lr) v s a (node rl rv rs ra rr)))
      → e.less q (e.key v) ≡ false
      → e.less (e.key v) q ≡ false
      → Extracts
          (node rl rv rs ra rr)
          (e.key (least_of rl rv rs ra rr).fruit)
          (extract (node rl rv rs ra rr) (e.key (least_of rl rv rs ra rr).fruit))
      → Extracts (node (node ll lv ls la lr) v s a (node rl rv rs ra rr)) q (
          extract_root
            (node (node ll lv ls la lr) v s a (node rl rv rs ra rr))
            (extract (node rl rv rs ra rr)))
  unfolding extract_root
  promote ll lv ls la lr v s a rl rv rs ra rr q h o low high ih =
      let l = node ll lv ls la lr in
      let r = node rl rv rs ra rr in
      let m = least_of rl rv rs ra rr in
      let p = IsSorted-split (to_list l) v (to_list r) o in
      let taken =
        extracted-extract r (e.key m.fruit)
        ∙ ap detached (find-find_min rl rv rs ra rr p.right_sorted ∙ m.found) in
      let size : get_size (extract r (e.key m.fruit)).root + 1 ≡ rs = rw taken at ih.size in
      let kept : to_list (extract r (e.key m.fruit)).root ≡ m.rest =
        ih.sequence
        ∙ ap (without (e.key m.fruit)) m.first
        ∙ without_here (e.key m.fruit) [] m.fruit m.rest
            (IsSorted-split [] m.fruit m.rest (rw m.first at p.right_sorted))
            (e.order.less_irrefl (e.key m.fruit)) (e.order.less_irrefl (e.key m.fruit)) in
      let b = h.balanced in
      let built =
        rebuild-IsValid l m.fruit 1 (e.augmented_count m.fruit + 0 + 0)
          (extract r (e.key m.fruit)).root (IsValid-left h) ih.valid (omega (arith, b.0, b.1))
          (omega (arith, b.0, b.1)) in
      rw (m.found, extract_root, taken)
        (record {
          valid = built.0;
          size = omega (arith, h.counted.0, built.1);
          sequence =
              to_list-rebalance _
              ∙ ap (λ xs. to_list l ++ m.fruit ∷ xs) kept
              ∙ ap (λ xs. to_list l ++ xs) (sym m.first)
              ∙ sym (without_here q (to_list l) v (to_list r) p low high);
        })

  extract_root_lem :
      (l : Tree V) (v : V) (s a : ℕ) (r : Tree V) (q : e.Key)
      → IsValid (node l v s a r)
      → IsSorted (to_list (node l v s a r))
      → e.less q (e.key v) ≡ false
      → e.less (e.key v) q ≡ false
      → ((k : e.Key) → Extracts r k (extract r k))
      → Extracts (node l v s a r) q (extract_root (node l v s a r) (extract r))
  unfolding extract_root
  extract_root_lem null v s a null q h o low high ih = record {
    valid = IsValid-left h;
    size = omega (arith, h.counted.0);
    sequence = sym (without_here q [] v [] (IsSorted-split [] v [] o) low high);
  }
  extract_root_lem (node ll lv ls la lr) v s a null q h o low high ih = record {
    valid = IsValid-left h;
    size = omega (arith, h.counted.0);
    sequence =
        let xs = to_list (node ll lv ls la lr) in
        sym (without_here q xs v [] (IsSorted-split xs v [] o) low high ∙ append-nil xs);
  }
  extract_root_lem null v s a (node rl rv rs ra rr) q h o low high ih = record {
    valid = IsValid-right h;
    size = omega (arith, h.counted.0);
    sequence =
        let ys = to_list (node rl rv rs ra rr) in
        sym (without_here q [] v ys (IsSorted-split [] v ys o) low high);
  }
  extract_root_lem (node ll lv ls la lr) v s a (node rl rv rs ra rr) q h o low high ih =
      promote ll lv ls la lr v s a rl rv rs ra rr q h o low high (ih _)

  detached_le : (t : Tree V) → get_size (detached t) ≤ 1
  detached_le null = omega arith
  detached_le (node l v s a r) = omega arith

  extracted_le : (t : Tree V) (q : e.Key) → get_size (extract t q).extracted ≤ 1
  extracted_le t q = rw (extracted-extract t q) (detached_le (find t q))

  -- An extraction from a valid sorted tree leaves a valid tree of the other entries in order; its
  -- size and that of what was taken out add up to the size before.
  pub extract_lem :
      (t : Tree V) (q : e.Key) → IsValid t → IsSorted (to_list t) → Extracts t q (extract t q)
  unfolding extract rebalance_after_extract
  extract_lem null q h o = record { valid = h; size = refl; sequence = refl }
  extract_lem (node l v s a r) q h o =
      let p = IsSorted-split (to_list l) v (to_list r) o in
      let in_left = extract_lem l q (IsValid-left h) p.left_sorted in
      let in_right = extract_lem r q (IsValid-right h) p.right_sorted in
      let one_left = extracted_le l q in
      let one_right = extracted_le r q in
      elim (Bool-cases (e.less q (e.key v))) [
        | inl t ↦ elim (Bool-cases (is_node (extract l q).extracted)) [
          | inl m ↦
              let size = in_left.size in
              let built = rebuild_left h _ in_left.valid (omega arith) (omega arith) in
              rw (t, m)
                (record {
                  valid = built.0;
                  size = omega (arith, built.1);
                  sequence =
                      to_list-rebalance _
                      ∙ ap (λ xs. xs ++ v ∷ to_list r) in_left.sequence
                      ∙ sym (without_left q (to_list l) v (to_list r) p t);
                })
          | inr m ↦
              let same = extract-missing l q m in
              let size = rw same at in_left.size in
              rw (t, m, same)
                (record {
                  valid = h;
                  size = omega arith;
                  sequence =
                      ap (λ xs. xs ++ v ∷ to_list r) (rw same at in_left.sequence)
                      ∙ sym (without_left q (to_list l) v (to_list r) p t);
                })
        ]
        | inr t ↦ elim (Bool-cases (e.less (e.key v) q)) [
          | inl u ↦ elim (Bool-cases (is_node (extract r q).extracted)) [
            | inl m ↦
                let size = in_right.size in
                let built = rebuild_right h _ in_right.valid (omega arith) (omega arith) in
                rw (t, u, m)
                  (record {
                    valid = built.0;
                    size = omega (arith, built.1);
                    sequence =
                        to_list-rebalance _
                        ∙ ap (λ xs. to_list l ++ v ∷ xs) in_right.sequence
                        ∙ sym (without_right q (to_list l) v (to_list r) p u);
                  })
            | inr m ↦
                let same = extract-missing r q m in
                let size = rw same at in_right.size in
                rw (t, u, m, same)
                  (record {
                    valid = h;
                    size = omega arith;
                    sequence =
                        ap (λ xs. to_list l ++ v ∷ xs) (rw same at in_right.sequence)
                        ∙ sym (without_right q (to_list l) v (to_list r) p u);
                  })
          ]
          | inr u ↦
              rw (t, u)
                (extract_root_lem l v s a r q h o t u
                  (λ k. extract_lem r k (IsValid-right h) p.right_sorted))
        ]
      ]
