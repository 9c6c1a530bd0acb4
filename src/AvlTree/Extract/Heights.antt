-- ===== src/AvlTree/Extract/Heights.antt =====
-- An extraction keeps the AVL tree balanced, include/smashtable/basic_avl_tree.hpp.
use smash_table.Base.{ℕ, ◌+◌, ◌≤◌, arith, Bool-cases, inl, inr}
use smash_table.Order.{Entry}
use smash_table.Sorted.{IsSorted, IsSorted-split}
use smash_table.AvlTree.{Tree, null, node, is_node, get_height, larger_of, to_list, IsValid}
use smash_table.AvlTree.Search.Least.{least_of}
use smash_table.AvlTree.Rotate.{rebalance_after_extract}
use smash_table.AvlTree.Rotate.Balance.{rebalance-IsValid}
use smash_table.AvlTree.Rotate.Heavy.{larger_of_lem, IsValid-left, IsValid-right}
use smash_table.AvlTree.Extract.{extract_root, extract}
use smash_table.AvlTree.Extract.Taken.{extract-missing, extracted_least}

module _ {V : Type 0} where
  -- a valid tree, at most one lower than `t`
  pub record Shrinks (t t' : Tree V) : Type 0 where
    pub valid : IsValid t'
    pub height_least : get_height t ≤ get_height t' + 1
    pub height_most : get_height t' ≤ get_height t

  unchanged : {t : Tree V} → IsValid t → Shrinks t t
  unchanged w = record { valid = w; height_least = omega arith; height_most = omega arith }

  shrunk_left :
      {l : Tree V} {v : V} {h : ℕ} {r l' : Tree V}
      → IsValid (node l v h r)
      → Shrinks l l'
      → Shrinks (node l v h r) (rebalance_after_extract (node l' v h r))
  shrunk_left {l} {v} {h} {r} {l'} w s =
      let b = w.balanced in
      let built =
        rebalance-IsValid l' v h r s.valid (IsValid-right w) (omega (arith, b.0, s.height_most))
          (omega (arith, b.1, s.height_least)) in
      let old = larger_of_lem (get_height l) (get_height r) in
      let new = larger_of_lem (get_height l') (get_height r) in
      record {
        valid = built.0;
        height_least = omega (arith, w.measured.0, b.0, b.1, built.1, built.3, s.height_least);
        height_most = omega (arith, w.measured.0, b.0, b.1, built.2, built.3, s.height_most);
      }

  shrunk_right :
      {l : Tree V} {v : V} {h : ℕ} {r r' : Tree V}
      → IsValid (node l v h r)
      → Shrinks r r'
      → Shrinks (node l v h r) (rebalance_after_extract (node l v h r'))
  shrunk_right {l} {v} {h} {r} {r'} w s =
      let b = w.balanced in
      let built =
        rebalance-IsValid l v h r' (IsValid-left w) s.valid (omega (arith, b.0, s.height_least))
          (omega (arith, b.1, s.height_most)) in
      let old = larger_of_lem (get_height l) (get_height r) in
      let new = larger_of_lem (get_height l) (get_height r') in
      record {
        valid = built.0;
        height_least = omega (arith, w.measured.0, b.0, b.1, built.1, built.3, s.height_least);
        height_most = omega (arith, w.measured.0, b.0, b.1, built.2, built.3, s.height_most);
      }

module _ {V : Type 0} ⦃e : Entry V⦄ where
  extract_root-Shrinks :
      (l : Tree V) (v : V) (h : ℕ) (r : Tree V)
      → IsValid (node l v h r)
      → IsSorted (to_list (node l v h r))
      → ((k : e.Key) → Shrinks r (extract r k).root)
      → Shrinks (node l v h r) (extract_root (node l v h r) (extract r)).root
  unfolding extract_root
  extract_root-Shrinks null v h null w o ih = record {
    valid = IsValid-left w;
    height_least = omega (arith, w.measured.0);
    height_most = omega arith;
  }
  extract_root-Shrinks (node ll lv lh lr) v h null w o ih =
      let x = larger_of_lem lh 0 in
      record {
        valid = IsValid-left w;
        height_least = omega (arith, w.measured.0);
        height_most = omega (arith, w.measured.0);
      }
  extract_root-Shrinks null v h (node rl rv rh rr) w o ih =
      let x = larger_of_lem 0 rh in
      record {
        valid = IsValid-right w;
        height_least = omega (arith, w.measured.0);
        height_most = omega (arith, w.measured.0);
      }
  extract_root-Shrinks (node ll lv lh lr) v h (node rl rv rh rr) w o ih =
      let l = node ll lv lh lr in
      let r = node rl rv rh rr in
      let m = least_of rl rv rh rr in
      let p = IsSorted-split (to_list l) v (to_list r) o in
      let rest = (extract r (e.key m.fruit)).root in
      let s = ih (e.key m.fruit) in
      let b = w.balanced in
      let built =
        rebalance-IsValid l m.fruit (larger_of lh (get_height rest) + 1) rest (IsValid-left w)
          s.valid (omega (arith, b.0, s.height_least)) (omega (arith, b.1, s.height_most)) in
      let old = larger_of_lem lh rh in
      let new = larger_of_lem lh (get_height rest) in
      rw (m.found, extract_root, extracted_least rl rv rh rr p.right_sorted)
        (record {
          valid = built.0;
          height_least =
              omega
                (arith, w.measured.0, b.0, b.1, built.1, built.3, s.height_least, s.height_most);
          height_most =
              omega
                (arith, w.measured.0, b.0, b.1, built.2, built.3, s.height_least, s.height_most);
        })

  -- An extraction from a valid sorted tree leaves a valid tree, at most one lower.
  pub extract-Shrinks :
      (t : Tree V) (q : e.Key) → IsValid t → IsSorted (to_list t) → Shrinks t (extract t q).root
  unfolding extract
  extract-Shrinks null q w o = record {
    valid = w;
    height_least = omega arith;
    height_most = omega arith;
  }
  extract-Shrinks (node l v h r) q w o =
      let p = IsSorted-split (to_list l) v (to_list r) o in
      let in_left = extract-Shrinks l q (IsValid-left w) p.left_sorted in
      let in_right = extract-Shrinks r q (IsValid-right w) p.right_sorted in
      elim (Bool-cases (e.less q (e.key v))) [
        | inl t ↦ elim (Bool-cases (is_node (extract l q).extracted)) [
          | inl x ↦ rw (t, x) (shrunk_left w in_left)
          | inr x ↦ rw (t, x, extract-missing l q x) (unchanged w)
        ]
        | inr t ↦ elim (Bool-cases (e.less (e.key v) q)) [
          | inl u ↦ elim (Bool-cases (is_node (extract r q).extracted)) [
            | inl x ↦ rw (t, u, x) (shrunk_right w in_right)
            | inr x ↦ rw (t, u, x, extract-missing r q x) (unchanged w)
          ]
          | inr u ↦
              rw (t, u)
                (extract_root-Shrinks l v h r w o
                  (λ k. extract-Shrinks r k (IsValid-right w) p.right_sorted))
        ]
      ]
