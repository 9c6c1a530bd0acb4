-- ===== src/WbTree/Insert/Sequence.antt =====
-- Insertion and the sequence of entries, include/smashtable/basic_wb_tree.hpp.
use smash_table.Sorted.Place.{place, place_left, place_right, keep-below_here, keep-above_here}
use smash_table.Base.{
  ℕ, ◌≡◌, ◌∙◌, ap, sym, ◌++◌, ◌∷◌, refl, arith, Bool, true, false, Bool-cases, inl, inr,
  if◌then◌else◌,
}
use smash_table.Order.{Entry}
use smash_table.Sorted.{IsSorted, IsSorted-split}
use smash_table.WbTree.{Tree, null, node, is_node, to_list}
use smash_table.WbTree.Search.{find}
use smash_table.WbTree.Rotate.Sequence.{to_list-rebalance, to_list-rebuilt}
use smash_table.WbTree.Insert.{refused, matched, made, is_made, is_refused, insert, upsert}

module _ {V : Type 0} ⦃e : Entry V⦄ where
  -- What an upsert reports: a match exactly where the key is found, and a refusal exactly where it
  -- is not found and the allocator has no node.
  pub upsert-placement :
      (t : Tree V) (w : V) (can_allocate : Bool)
      → (upsert t w can_allocate).placement
        ≡ (if is_node (find t (e.key w)) then matched else (if can_allocate then made else refused))
  unfolding upsert find
  upsert-placement null w can_allocate = ground arith
  upsert-placement (node l v s a r) w can_allocate =
      ground (arith, upsert-placement l w can_allocate, upsert-placement r w can_allocate)

  -- a refused entry changes nothing
  pub to_list-upsert_refused :
      (t : Tree V) (w : V) (can_allocate : Bool)
      → is_refused (upsert t w can_allocate).placement ≡ true
      → to_list (upsert t w can_allocate).root ≡ to_list t
  unfolding upsert
  to_list-upsert_refused null w can_allocate f = elim (Bool-cases can_allocate) [
    | inl t ↦ let never : true ≡ false = sym (rw t at f) in cc
    | inr t ↦ rw t
  ]
  to_list-upsert_refused (node l v s a r) w can_allocate f =
      elim (Bool-cases (e.less (e.key w) (e.key v))) [
        | inl t ↦ rw t (
            to_list-rebuilt (is_made (upsert l w can_allocate).placement)
              (upsert l w can_allocate).root v s a r
            ∙ ap (λ xs. xs ++ v ∷ to_list r) (to_list-upsert_refused l w can_allocate (rw t at f)))
        | inr t ↦ elim (Bool-cases (e.less (e.key v) (e.key w))) [
          | inl u ↦
              rw (t, u)
                (to_list-rebuilt (is_made (upsert r w can_allocate).placement) l v s a
                    (upsert r w can_allocate).root
                  ∙ ap (λ xs. to_list l ++ v ∷ xs)
                      (to_list-upsert_refused r w can_allocate (rw (t, u) at f)))
          | inr u ↦ let never : false ≡ true = rw (t, u) at f in cc
        ]
      ]

  -- a stored entry stands where its key belongs
  pub to_list-upsert_stored :
      (t : Tree V) (w : V) (can_allocate : Bool)
      → IsSorted (to_list t)
      → is_refused (upsert t w can_allocate).placement ≡ false
      → to_list (upsert t w can_allocate).root ≡ place w (to_list t)
  unfolding upsert
  to_list-upsert_stored null w can_allocate h f = elim (Bool-cases can_allocate) [
    | inl t ↦ rw t
    | inr t ↦ ground arith
  ]
  to_list-upsert_stored (node l v s a r) w can_allocate h f =
      let p = IsSorted-split (to_list l) v (to_list r) h in
      elim (Bool-cases (e.less (e.key w) (e.key v))) [
        | inl t ↦
            let f' : is_refused (upsert l w can_allocate).placement ≡ false = rw t at f in
            let in_left = to_list-upsert_stored l w can_allocate p.left_sorted f' in
            rw (t, place_left w (to_list l) v (to_list r) p t, ← in_left)
              (to_list-rebuilt (is_made (upsert l w can_allocate).placement)
                (upsert l w can_allocate).root v s a r)
        | inr t ↦ elim (Bool-cases (e.less (e.key v) (e.key w))) [
          | inl u ↦
              let f' : is_refused (upsert r w can_allocate).placement ≡ false = rw (t, u) at f in
              let in_right = to_list-upsert_stored r w can_allocate p.right_sorted f' in
              rw (t, u, place_right w (to_list l) v (to_list r) p u, ← in_right)
                (to_list-rebuilt (is_made (upsert r w can_allocate).placement) l v s a
                  (upsert r w can_allocate).root)
          | inr u ↦ rw (
            t,
            u,
            keep-below_here (e.key w) (to_list l) v (to_list r) p t u,
            keep-above_here (e.key w) (to_list l) v (to_list r) p t u,
          )
        ]
      ]

  -- What the insertion of a node reports: it is made exactly where its key is not found.
  pub insert-placement :
      (t : Tree V) (c : V) (s a : ℕ)
      → (insert t (node null c s a null)).placement
        ≡ (if is_node (find t (e.key c)) then matched else made)
  unfolding insert find
  insert-placement null c s a = refl
  insert-placement (node l v ls la r) c s a =
      ground (arith, insert-placement l c s a, insert-placement r c s a)

  -- where it is not made the tree stays as it is, counts included
  pub insert-matched :
      (t : Tree V) (c : V) (s a : ℕ)
      → is_made (insert t (node null c s a null)).placement ≡ false
      → (insert t (node null c s a null)).root ≡ t
  unfolding insert
  insert-matched null c s a m = ground arith
  insert-matched (node l v ls la r) c s a m =
      ground (arith, insert-matched l c s a, insert-matched r c s a)

  pub to_list-insert_made :
      (t : Tree V) (c : V) (s a : ℕ)
      → IsSorted (to_list t)
      → is_made (insert t (node null c s a null)).placement ≡ true
      → to_list (insert t (node null c s a null)).root ≡ place c (to_list t)
  unfolding insert
  to_list-insert_made null c s a h m = refl
  to_list-insert_made (node l v ls la r) c s a h m =
      let p = IsSorted-split (to_list l) v (to_list r) h in
      elim (Bool-cases (e.less (e.key c) (e.key v))) [
        | inl t ↦
            let m' : is_made (insert l (node null c s a null)).placement ≡ true = rw t at m in
            let in_left = to_list-insert_made l c s a p.left_sorted m' in
            rw (t, m', place_left c (to_list l) v (to_list r) p t, ← in_left)
              (to_list-rebalance (node _ v _ _ r))
        | inr t ↦ elim (Bool-cases (e.less (e.key v) (e.key c))) [
          | inl u ↦
              let m' : is_made (insert r (node null c s a null)).placement ≡ true =
                rw (t, u) at m in
              let in_right = to_list-insert_made r c s a p.right_sorted m' in
              rw (t, u, m', place_right c (to_list l) v (to_list r) p u, ← in_right)
                (to_list-rebalance (node l v _ _ _))
          | inr u ↦ let never : false ≡ true = rw (t, u) at m in cc
        ]
      ]
