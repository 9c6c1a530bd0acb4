-- ===== src/WbTree/Statistics/Refresh.antt =====
-- The repair of the augmented counts after an entry changed in place,
-- include/smashtable/basic_wb_tree.hpp `refresh_augmentation`.
use smash_table.Base.{◌≡◌, refl, arith, Bool-cases, inl, inr, true, false}
use smash_table.Order.{Entry}
use smash_table.WbTree.{Tree, null, node, is_node, get_size, IsCounted}
use smash_table.WbTree.Search.{find}
use smash_table.WbTree.Statistics.{assign, refresh_augmentation}

module _ {V : Type 0} ⦃e : Entry V⦄ (q : e.Key) (w : V) (low : e.less q (e.key w) ≡ false)
    (high : e.less (e.key w) q ≡ false) where
  -- where the key is not found nothing changes
  refresh-assign_missing :
      (t : Tree V)
      → is_node (find t q) ≡ false
      → (assign t q w ≡ t) × (refresh_augmentation t q ≡ (t, false))
  unfolding find assign refresh_augmentation
  refresh-assign_missing null m = (refl, refl)
  refresh-assign_missing (node l v s a r) m = elim (Bool-cases (e.less q (e.key v))) [
    | inl t ↦
        let (same, not_found) = refresh-assign_missing l (rw t at m) in
        (rw (t, same), rw (t, not_found))
    | inr t ↦ elim (Bool-cases (e.less (e.key v) q)) [
      | inl u ↦
          let (same, not_found) = refresh-assign_missing r (rw (t, u) at m) in
          (rw (t, u, same), rw (t, u, not_found))
      | inr u ↦ let never : true ≡ false = rw (t, u) at m in absurd (cc never)
    ]
  ]

  -- In a tree with right counts, after the entry of a key was overwritten through its handle by one of
  -- an equivalent key, one repair for that key makes every stored count right again, keeps the size, and
  -- reports that it found the entry.
  pub refresh-assign :
      (t : Tree V)
      → IsCounted t
      → is_node (find t q) ≡ true
      → IsCounted (refresh_augmentation (assign t q w) q).0
        × (get_size (refresh_augmentation (assign t q w) q).0 ≡ get_size t)
        × ((refresh_augmentation (assign t q w) q).1 ≡ true)
  unfolding find assign refresh_augmentation
  refresh-assign null c m = ground arith
  refresh-assign (node l v s a r) c m = elim (Bool-cases (e.less q (e.key v))) [
    | inl t ↦
        let (fixed, size, found) = refresh-assign l c.2 (rw t at m) in
        rw (t, t, found) ((omega (arith, c.0, size), refl, fixed, c.3), refl, refl)
    | inr t ↦ elim (Bool-cases (e.less (e.key v) q)) [
      | inl u ↦
          let (fixed, size, found) = refresh-assign r c.3 (rw (t, u) at m) in
          rw (t, u, t, u, found) ((omega (arith, c.0, size), refl, c.2, fixed), refl, refl)
      | inr u ↦ rw (t, u, low, high) ((c.0, refl, c.2, c.3), refl, refl)
    ]
  ]
