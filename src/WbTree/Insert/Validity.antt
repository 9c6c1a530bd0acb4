-- ===== src/WbTree/Insert/Validity.antt =====
-- Insertion and the invariant of the weight-balanced tree,
-- include/smashtable/basic_wb_tree.hpp.
use smash_table.Base.{ℕ, ◌+◌, ◌≡◌, refl, arith, Bool, Bool-cases, inl, inr, if◌then◌else◌}
use smash_table.Order.{Entry}
use smash_table.WbTree.{Tree, null, node, get_size}
use smash_table.WbTree.Rotate.Update.{
  IsValid, IsValid-left, IsValid-right, rebuild_left, rebuild_right, recount_left, recount_right,
}
use smash_table.WbTree.Insert.Sequence.{insert-matched}
use smash_table.WbTree.Insert.{FindOrMakeResult, is_made, insert, upsert}

module _ {V : Type 0} ⦃e : Entry V⦄ where
  -- the result is valid, and larger by one exactly if a node was made
  abbrev pub Grows : Tree V → FindOrMakeResult V → Type 0
  Grows t result =
      IsValid result.root
      × (get_size result.root ≡ get_size t + (if is_made result.placement then 1 else 0))

  -- An upsert keeps a valid tree valid, and makes it larger by one exactly where it made a node.
  pub upsert-Grows :
      (t : Tree V) (w : V) (can_allocate : Bool) → IsValid t → Grows t (upsert t w can_allocate)
  unfolding upsert
  upsert-Grows null w can_allocate h = elim (Bool-cases can_allocate) [
    | inl t ↦ rw t (
      record {
        counted = (refl, omega arith, tt, tt);
        balanced = (omega arith, omega arith, tt, tt);
      },
      omega arith,
    )
    | inr t ↦ rw t (h, refl)
  ]
  upsert-Grows (node l v s a r) w can_allocate h =
      let in_left = upsert-Grows l w can_allocate (IsValid-left h) in
      let in_right = upsert-Grows r w can_allocate (IsValid-right h) in
      elim (Bool-cases (e.less (e.key w) (e.key v))) [
        | inl t ↦ elim (Bool-cases (is_made (upsert l w can_allocate).placement)) [
          | inl m ↦
              let size = rw m at in_left.1 in
              let built = rebuild_left h _ in_left.0 (omega arith) (omega arith) in
              rw (t, m) (built.0, omega arith)
          | inr m ↦
              let size = rw m at in_left.1 in
              rw (t, m) (recount_left h _ in_left.0 (omega arith), omega arith)
        ]
        | inr t ↦ elim (Bool-cases (e.less (e.key v) (e.key w))) [
          | inl u ↦ elim (Bool-cases (is_made (upsert r w can_allocate).placement)) [
            | inl m ↦
                let size = rw m at in_right.1 in
                let built = rebuild_right h _ in_right.0 (omega arith) (omega arith) in
                rw (t, u, m) (built.0, omega arith)
            | inr m ↦
                let size = rw m at in_right.1 in
                rw (t, u, m) (recount_right h _ in_right.0 (omega arith), omega arith)
          ]
          | inr u ↦
              rw (t, u)
                (
                  record {
                    counted = (h.counted.0, refl, h.counted.2, h.counted.3);
                    balanced = h.balanced;
                  },
                  omega arith,
                )
        ]
      ]

  pub insert-Grows :
      (t : Tree V) (c : V) (s a : ℕ)
      → IsValid t
      → IsValid (node null c s a null)
      → Grows t (insert t (node null c s a null))
  unfolding insert
  insert-Grows null c s a h hc = (hc, omega (arith, hc.counted.0))
  insert-Grows (node l v ls la r) c s a h hc =
      let child = node null c s a null in
      let in_left = insert-Grows l c s a (IsValid-left h) hc in
      let in_right = insert-Grows r c s a (IsValid-right h) hc in
      elim (Bool-cases (e.less (e.key c) (e.key v))) [
        | inl t ↦ elim (Bool-cases (is_made (insert l child).placement)) [
          | inl m ↦
              let size = rw m at in_left.1 in
              let built = rebuild_left h _ in_left.0 (omega arith) (omega arith) in
              rw (t, m) (built.0, omega arith)
          | inr m ↦ rw (t, m, insert-matched l c s a m) (h, omega arith)
        ]
        | inr t ↦ elim (Bool-cases (e.less (e.key v) (e.key c))) [
          | inl u ↦ elim (Bool-cases (is_made (insert r child).placement)) [
            | inl m ↦
                let size = rw m at in_right.1 in
                let built = rebuild_right h _ in_right.0 (omega arith) (omega arith) in
                rw (t, u, m) (built.0, omega arith)
            | inr m ↦ rw (t, u, m, insert-matched r c s a m) (h, omega arith)
          ]
          | inr u ↦ rw (t, u) (h, omega arith)
        ]
      ]
