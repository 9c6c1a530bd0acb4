-- ===== src/AvlTree/Rotate/Heavy.antt =====
-- The rotations of an AVL node one side of which is two higher, include/smashtable/basic_avl_tree.hpp.
use smash_table.Base.{
  ℕ, ◌+◌, ◌≤◌, ◌≡◌, ◌⊎◌, refl, arith, Bool-cases, inl, inr, ltb, ltb→lt, ltb_of_le, true, false,
  ◌++◌, ◌∷◌, append_assoc, tests,
}
use smash_table.AvlTree.{Tree, null, node, get_height, larger_of, to_list, IsMeasured, IsValid}
use smash_table.AvlTree.Rotate.{rebalance_after_extract}

pub larger_of_lem :
    (a b : ℕ)
    → (a ≤ larger_of a b) × (b ≤ larger_of a b) × ((larger_of a b ≡ a) ⊎ (larger_of a b ≡ b))
larger_of_lem a b = elim (Bool-cases (ltb a b)) [
  | inl t ↦ rw t (omega tests, omega tests, inr refl)
  | inr t ↦ rw t (omega tests, omega tests, inl refl)
]

module _ {V : Type 0} where
  pub IsValid-left : {l : Tree V} {v : V} {h : ℕ} {r : Tree V} → IsValid (node l v h r) → IsValid l
  IsValid-left w = record { measured = w.measured.1; balanced = w.balanced.2 }

  pub IsValid-right : {l : Tree V} {v : V} {h : ℕ} {r : Tree V} → IsValid (node l v h r) → IsValid r
  IsValid-right w = record { measured = w.measured.2; balanced = w.balanced.3 }

  -- the entries stay, and the heights are right, whatever the imbalance was
  pub record Rebuilt (l : Tree V) (v : V) (r t : Tree V) : Type 0 where
    pub sequence : to_list t ≡ to_list l ++ v ∷ to_list r
    pub measured : IsMeasured t

  pub heavy_left :
      (l : Tree V) (v : V) (h : ℕ) (r : Tree V)
      → IsMeasured l
      → IsMeasured r
      → ltb (get_height r + 1) (get_height l) ≡ true
      → Rebuilt l v r (rebalance_after_extract (node l v h r))
  unfolding rebalance_after_extract
  heavy_left null v h r ml mr t = absurd (omega (arith, ltb→lt _ _ t))
  heavy_left (node ll lv lh null) v h r ml mr t =
      rw (t, ltb_of_le (get_height ll + 0) 0 (omega arith))
        (record { sequence = simp append_assoc; measured = (refl, ml.1, (refl, tt, mr)) })
  heavy_left (node ll lv lh (node nl nv nh nr)) v h r ml mr t =
      elim (Bool-cases (ltb (get_height ll + 0) nh)) [
        | inr u ↦
            rw (t, u)
              (record { sequence = simp append_assoc; measured = (refl, ml.1, (refl, ml.2, mr)) })
        | inl u ↦
            rw (t, u)
              (record {
                sequence = simp append_assoc;
                measured = (refl, (refl, ml.1, ml.2.1), (refl, ml.2.2, mr));
              })
      ]

  pub heavy_right :
      (l : Tree V) (v : V) (h : ℕ) (r : Tree V)
      → IsMeasured l
      → IsMeasured r
      → ltb (get_height r + 1) (get_height l) ≡ false
      → ltb (get_height l + 1) (get_height r) ≡ true
      → Rebuilt l v r (rebalance_after_extract (node l v h r))
  unfolding rebalance_after_extract
  heavy_right l v h null ml mr n t = absurd (omega (arith, ltb→lt _ _ t))
  heavy_right l v h (node null rv rh rr) ml mr n t =
      rw (n, t, ltb_of_le (get_height rr + 0) 0 (omega arith))
        (record { sequence = simp append_assoc; measured = (refl, (refl, ml, tt), mr.2) })
  heavy_right l v h (node (node nl nv nh nr) rv rh rr) ml mr n t =
      elim (Bool-cases (ltb (get_height rr + 0) nh)) [
        | inr u ↦
            rw (n, t, u)
              (record { sequence = simp append_assoc; measured = (refl, (refl, ml, mr.1), mr.2) })
        | inl u ↦
            rw (n, t, u)
              (record {
                sequence = simp append_assoc;
                measured = (refl, (refl, ml, mr.1.1), (refl, mr.1.2, mr.2));
              })
      ]

  -- The entries keep their order and every height is right, whatever the imbalance was.
  pub rebalance_lem :
      (l : Tree V) (v : V) (h : ℕ) (r : Tree V)
      → IsMeasured l
      → IsMeasured r
      → Rebuilt l v r (rebalance_after_extract (node l v h r))
  unfolding rebalance_after_extract
  rebalance_lem l v h r ml mr = elim (Bool-cases (ltb (get_height r + 1) (get_height l))) [
    | inl t ↦ heavy_left l v h r ml mr t
    | inr n ↦ elim (Bool-cases (ltb (get_height l + 1) (get_height r))) [
      | inl t ↦ heavy_right l v h r ml mr n t
      | inr u ↦ rw (n, u) (record { sequence = refl; measured = (refl, ml, mr) })
    ]
  ]
