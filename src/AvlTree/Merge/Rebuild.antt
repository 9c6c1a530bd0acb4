-- ===== src/AvlTree/Merge/Rebuild.antt =====
-- Rebuilding a balanced tree from a spine, include/smashtable/basic_avl_tree.hpp
-- `spine_to_balanced`.
use smash_table.Base.{
  ℕ, zero, suc, ◌+◌, ◌-◌, ◌/◌, ◌≤◌, ◌<◌, ◌≡◌, ◌∙◌, ap, sym, refl, List-cases, List, ◌∷◌, ◌++◌,
  arith, append_assoc, append-nil, length, length-append, ◌==◌, if◌then◌else◌, Bool-cases, inl, inr,
}
use smash_table.AvlTree.{Tree, to_list, get_height, IsValid}
use smash_table.AvlTree.Rotate.Heavy.{larger_of_lem}
use smash_table.AvlTree.Merge.{build_tree, spine_to_balanced}

-- the height of a tree built of `n` nodes
levels : ℕ → ℕ → ℕ
levels zero n = 0
levels (suc fuel) n = let deeper = levels fuel (n / 2) in if n == 0 then 0 else suc deeper

levels_zero : (fuel : ℕ) → levels fuel 0 ≡ 0
unfolding levels
levels_zero zero = refl
levels_zero (suc fuel) = refl

-- one more node adds one level at most
levels_step :
    (fuel n m : ℕ)
    → n ≤ m
    → m ≤ n + 1
    → (levels fuel n ≤ levels fuel m) × (levels fuel m ≤ levels fuel n + 1)
unfolding levels
levels_step zero n m a b = (omega arith, omega arith)
levels_step (suc fuel) n m a b =
    ground (arith, levels_zero fuel, levels_step fuel (n / 2) (m / 2) (omega arith) (omega arith))

module _ {V : Type 0} where
  -- what `build_tree` makes of the first `n` nodes of a spine
  record Builds (fuel n : ℕ) (current : List V) (built : Tree V × List V) : Type 0 where
    valid : IsValid built.0
    height : get_height built.0 ≡ levels fuel n
    number : length (to_list built.0) ≡ n
    sequence : to_list built.0 ++ built.1 ≡ current

  build_tree_lem :
      (fuel n : ℕ) (current : List V)
      → n ≤ fuel
      → n ≤ length current
      → Builds fuel n current (build_tree fuel n current)
  unfolding build_tree levels
  build_tree_lem zero n current f b = record {
    valid = record { measured = tt; balanced = tt };
    height = refl;
    number = omega arith;
    sequence = refl;
  }
  build_tree_lem (suc fuel) n current f b = elim (Bool-cases (n == 0)) [
    | inl z ↦
        let flat : levels (suc fuel) n ≡ 0 = rw z refl in
        rw z (record {
          valid = record { measured = tt; balanced = tt };
          height = sym flat;
          number = ground (arith, z);
          sequence = refl;
        })
    | inr z ↦
        let positive : 0 < n = ground (arith, z) in
        let on_left = build_tree_lem fuel (n / 2) current (omega arith) (omega arith) in
        let l = (build_tree fuel (n / 2) current).0 in
        let halves = ap length on_left.sequence in
        let counted = length-append (to_list l) (build_tree fuel (n / 2) current).1 in
        elim (List-cases (build_tree fuel (n / 2) current).1) [
          | inl e ↦ let none_left = ap length e in absurd (omega (arith, on_left.number))
          | inr (v, next, e) ↦
              let left_over = ap length e in
              let on_right =
                build_tree_lem fuel (n - n / 2 - 1) next (omega arith)
                  (omega (arith, on_left.number)) in
              let r = (build_tree fuel (n - n / 2 - 1) next).0 in
              let near = levels_step fuel (n - n / 2 - 1) (n / 2) (omega arith) (omega arith) in
              let top = larger_of_lem (get_height l) (get_height r) in
              let tall : levels (suc fuel) n ≡ suc (levels fuel (n / 2)) = rw z refl in
              rw (z, e, build_tree)
                (record {
                  valid = record {
                    measured = (omega arith, on_left.valid.measured, on_right.valid.measured);
                    balanced = (
                      omega (arith, on_left.height, on_right.height),
                      omega (arith, on_left.height, on_right.height),
                      on_left.valid.balanced,
                      on_right.valid.balanced,
                    );
                  };
                  height = omega (arith, tall, on_left.height, on_right.height);
                  number = omega (
                    arith,
                    on_left.number,
                    on_right.number,
                    length-append (to_list l) (v ∷ to_list r),
                  );
                  sequence =
                      append_assoc (to_list l) (v ∷ to_list r) _
                      ∙ ap (λ xs. to_list l ++ v ∷ xs) on_right.sequence
                      ∙ ap (λ xs. to_list l ++ xs) (sym e)
                      ∙ on_left.sequence;
                })
        ]
  ]

  -- A spine of `count` nodes becomes a valid tree of its entries in order.
  pub spine_to_balanced_lem :
      (spine : List V)
      → IsValid (spine_to_balanced spine (length spine))
        × (to_list (spine_to_balanced spine (length spine)) ≡ spine)
  unfolding spine_to_balanced
  spine_to_balanced_lem spine =
      let n = length spine in
      let built = build_tree_lem n n spine (omega arith) (omega arith) in
      let t = build_tree n n spine in
      let whole = ap length built.sequence in
      let counted = length-append (to_list t.0) t.1 in
      (
        built.valid,
        elim (List-cases t.1) [
          | inl e ↦ sym (append-nil _) ∙ ap (λ xs. to_list t.0 ++ xs) (sym e) ∙ built.sequence
          | inr (v, next, e) ↦ let rest = ap length e in absurd (omega (arith, built.number))
        ],
      )
