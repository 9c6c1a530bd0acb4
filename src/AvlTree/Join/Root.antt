-- ===== src/AvlTree/Join/Root.antt =====
-- `join_with_root_` and `join`, include/smashtable/basic_avl_tree.hpp: two valid trees of any
-- heights join into a valid tree of both sequences.
use smash_table.Base.{
  ℕ, ◌+◌, ◌≤◌, ◌<◌, ◌≡◌, refl, sym, ◌∙◌, ap, arith, append_assoc, append-nil, Bool-cases, inl, inr,
  ltb→lt, ltb-eq-false, ◌∷◌, ◌++◌,
}
use smash_table.Order.{Entry}
use smash_table.Sorted.{IsSorted, IsSorted-split}
use smash_table.AvlTree.{Tree, null, node, get_height, larger_of, to_list, IsValid}
use smash_table.AvlTree.Search.Least.{least_of}
use smash_table.AvlTree.Rotate.{rebalance_after_extract}
use smash_table.AvlTree.Rotate.Heavy.{larger_of_lem, rebalance_lem, IsValid-left, IsValid-right}
use smash_table.AvlTree.Extract.{extract}
use smash_table.AvlTree.Extract.Taken.{extracted_least}
use smash_table.AvlTree.Extract.Correct.{extract_lem, without_least}
use smash_table.AvlTree.Extract.Heights.{extract-Shrinks}
use smash_table.AvlTree.Join.{towers, join_around, join}
use smash_table.AvlTree.Join.Around.{Tops, descend_left, descend_right, join_around_lem}

module _ {V : Type 0} where
  -- one side behind the other
  pub record Appends (l r t : Tree V) : Type 0 where
    pub top : Tops (get_height l) (get_height r) t
    pub sequence : to_list t ≡ to_list l ++ to_list r

  behind_left :
      (ll : Tree V) (lv : V) (lh : ℕ) (lr r t : Tree V)
      → IsValid (node ll lv lh lr)
      → get_height r + 1 < lh
      → Appends lr r t
      → Appends
          (node ll lv lh lr)
          r
          (rebalance_after_extract (node ll lv (larger_of (get_height ll) (get_height t) + 1) t))
  behind_left ll lv lh lr r t w high j =
      let built =
        rebalance_lem ll lv (larger_of (get_height ll) (get_height t) + 1) t w.measured.1
          j.top.valid.measured in
      record {
        top = descend_left ll lv lh lr r t w high j.top;
        sequence =
            built.sequence
            ∙ ap (λ xs. to_list ll ++ lv ∷ xs) j.sequence
            ∙ sym (append_assoc (to_list ll) (lv ∷ to_list lr) (to_list r));
      }

  behind_right :
      (l rl : Tree V) (rv : V) (rh : ℕ) (rr t : Tree V)
      → IsValid (node rl rv rh rr)
      → get_height l + 1 < rh
      → Appends l rl t
      → Appends l
          (node rl rv rh rr)
          (rebalance_after_extract (node t rv (larger_of (get_height t) (get_height rr) + 1) rr))
  behind_right l rl rv rh rr t w high j =
      let built =
        rebalance_lem t rv (larger_of (get_height t) (get_height rr) + 1) rr j.top.valid.measured
          w.measured.2 in
      record {
        top = descend_right l rl rv rh rr t w high j.top;
        sequence =
            built.sequence
            ∙ ap (λ xs. xs ++ rv ∷ to_list rr) j.sequence
            ∙ append_assoc (to_list l) (to_list rl) (rv ∷ to_list rr);
      }

module _ {V : Type 0} ⦃e : Entry V⦄ where
  -- trees of like heights: the least entry of the right one becomes the root
  join_even :
      (l rl : Tree V) (rv : V) (rh : ℕ) (rr : Tree V)
      → IsValid l
      → IsValid (node rl rv rh rr)
      → IsSorted (to_list (node rl rv rh rr))
      → get_height l ≤ rh + 1
      → rh ≤ get_height l + 1
      → Appends l (node rl rv rh rr) (
          join_around l
            (extract (node rl rv rh rr) (e.key (least_of rl rv rh rr).fruit)).extracted
            (extract (node rl rv rh rr) (e.key (least_of rl rv rh rr).fruit)).root)
  join_even l rl rv rh rr wl wr o x y =
      let r = node rl rv rh rr in
      let m = least_of rl rv rh rr in
      let rest = (extract r (e.key m.fruit)).root in
      let s = extract-Shrinks r (e.key m.fruit) wr o in
      let kept =
        (extract_lem r (e.key m.fruit) wr.measured o).sequence ∙ without_least rl rv rh rr o in
      let j = join_around_lem l null m.fruit 1 null rest wl s.valid in
      let before = larger_of_lem (get_height l) rh in
      let after = larger_of_lem (get_height l) (get_height rest) in
      rw (extracted_least rl rv rh rr o) (record {
        top = record {
          valid = j.top.valid;
          height_least = omega (arith, j.even, j.top.height_least, s.height_least, s.height_most);
          height_most = omega (arith, j.top.height_most, s.height_least, s.height_most);
        };
        sequence =
            j.sequence
            ∙ ap (λ xs. to_list l ++ m.fruit ∷ xs) kept
            ∙ ap (λ xs. to_list l ++ xs) (sym m.first);
      })

  -- Two valid trees of whatever heights, the right one sorted, join into a valid tree of both
  -- sequences, as high as the higher one or one higher.
  pub join-Appends :
      (l r : Tree V) → IsValid l → IsValid r → IsSorted (to_list r) → Appends l r (join l r)
  unfolding join
  join-Appends null r wl wr o =
      let top = larger_of_lem 0 (get_height r) in
      record {
        top = record { valid = wr; height_least = omega arith; height_most = omega arith };
        sequence = refl;
      }
  join-Appends (node ll lv lh lr) null wl wr o =
      let top = larger_of_lem lh 0 in
      record {
        top = record { valid = wl; height_least = omega arith; height_most = omega arith };
        sequence = sym (append-nil _);
      }
  join-Appends (node ll lv lh lr) (node rl rv rh rr) wl wr o =
      let l = node ll lv lh lr in
      let r = node rl rv rh rr in
      elim (Bool-cases (towers l r)) [
        | inl t ↦ rw t (
            behind_left ll lv lh lr r _ wl (ltb→lt _ _ t)
              (join-Appends lr (node rl rv rh rr) (IsValid-right wl) wr o))
        | inr t ↦ elim (Bool-cases (towers r l)) [
          | inl u ↦
              rw (t, u)
                (behind_right l rl rv rh rr _ wr (ltb→lt _ _ u) (
                  join-Appends (node ll lv lh lr) rl wl (IsValid-left wr)
                    (IsSorted-split (to_list rl) rv (to_list rr) o).left_sorted))
          | inr u ↦
              rw (t, u, (least_of rl rv rh rr).found, join)
                (join_even l rl rv rh rr wl wr o (ltb-eq-false _ _ t) (ltb-eq-false _ _ u))
        ]
      ]
