-- ===== src/AvlTree/Container/Ranges.antt =====
-- Bulk removals, splits and joins of the AVL container, include/smashtable/basic_avl_tree.hpp.
use smash_table.Base.{
  ℕ, ◌+◌, ◌≡◌, refl, ◌∙◌, ap, arith, Bool, false, not, Bool-cases, inl, inr, length, length-append,
  List, [], ◌∷◌, ◌++◌, keep, total, total-append, keep-keep, ◌&&◌,
}
use smash_table.Order.{Entry}
use smash_table.Sorted.{IsSorted, below, not_below, keep-IsSorted}
use smash_table.Sorted.Place.{keep-cut}
use smash_table.AvlTree.{Tree, null, node, is_node, to_list, IsMeasured}
use smash_table.AvlTree.Join
use smash_table.AvlTree.Join.Root.{join-Appends}
use smash_table.AvlTree.Join.Cut.{split_lem}
use smash_table.AvlTree.Join.Filter.{erase_if_lem}
use smash_table.AvlTree.Container.{
  Container, for_each_bottom_up, counted_callback, erase_if, erase_range, count_nodes, split, join,
}
use smash_table.AvlTree.Container.Sound.{IsSound, empty-IsSound}
use smash_table.AvlTree.Container.Linked.{Holds}

module _ {V : Type 0} ⦃e : Entry V⦄ where
  -- `erase_if` on a sorted container with right heights and a right size leaves the entries that fail the
  -- predicate, sorted, with right heights and a right size, and returns the number of the others.
  pub record Sifts (c : Container V) (predicate : V → Bool) (result : Container V × ℕ)
      : Type 0 where
    pub measured : IsMeasured result.0.root
    pub sequence : to_list result.0.root ≡ keep (λ x. not (predicate x)) (to_list c.root)
    pub counted : result.0.size ≡ length (to_list result.0.root)
    pub returned : result.1 ≡ length (keep predicate (to_list c.root))

  length-keep-not :
      (p : V → Bool) (xs : List V)
      → length (keep p xs) + length (keep (λ x. not (p x)) xs) ≡ length xs
  length-keep-not p [] = refl
  length-keep-not p (x ∷ xs) = ground (arith, length-keep-not p xs)

  -- `erase_if` of a container whose entries are sorted, with the right size, leaves the entries that fail
  -- the predicate, with right heights and the right size, and returns the number of the others.
  pub erase_if-Sifts :
      (c : Container V) (predicate : V → Bool)
      → IsSorted (to_list c.root)
      → c.size ≡ length (to_list c.root)
      → Sifts c predicate (erase_if c predicate)
  unfolding erase_if
  erase_if-Sifts c predicate o n =
      let f = erase_if_lem c.root predicate o in
      record {
        measured = f.measured;
        sequence = f.sequence;
        counted = f.counted;
        returned =
            omega (
              arith,
              n,
              f.counted,
              ap length f.sequence,
              length-keep-not predicate (to_list c.root),
            );
      }

  count_nodes_lem : (t : Tree V) → count_nodes t ≡ length (to_list t)
  unfolding count_nodes
  count_nodes_lem null = refl
  count_nodes_lem (node l v h r) =
      omega (arith, count_nodes_lem l, count_nodes_lem r, length-append (to_list l) (v ∷ to_list r))

  -- `split` of a sound container gives two sound ones: the entries below the key, and the others.
  pub split-Holds :
      (c : Container V) (q : e.Key)
      → IsSound c
      → Holds (split c q).0 (keep (below q) (to_list c.root))
        × Holds (split c q).1 (keep (not_below q) (to_list c.root))
  unfolding split
  split-Holds c q h =
      let s = split_lem c.root q h.valid h.sorted in
      let halves = Join.split c.root q in
      (
        record {
          sound = record {
            valid = s.left_valid;
            sorted = rw s.left_sequence (keep-IsSorted (below q) (to_list c.root) h.sorted);
            counted = count_nodes_lem halves.left;
          };
          sequence = s.left_sequence;
        },
        record {
          sound = record {
            valid = s.right_valid;
            sorted = rw s.right_sequence (keep-IsSorted (not_below q) (to_list c.root) h.sorted);
            counted = count_nodes_lem halves.right;
          };
          sequence = s.right_sequence;
        },
      )

  -- `join` of two sound containers whose sequences are sorted one behind the other gives a sound one of
  -- both, and leaves the other empty.
  pub join-Holds :
      (c other : Container V)
      → IsSound c
      → IsSound other
      → IsSorted (to_list c.root ++ to_list other.root)
      → Holds (join c other).0 (to_list c.root ++ to_list other.root) × Holds (join c other).1 []
  unfolding join
  join-Holds c other h h' o =
      let j = join-Appends c.root other.root h.valid h'.valid h'.sorted in
      (
        record {
          sound = record {
            valid = j.top.valid;
            sorted = rw j.sequence o;
            counted = omega (
              arith,
              h.counted,
              h'.counted,
              ap length j.sequence,
              length-append (to_list c.root) (to_list other.root),
            );
          };
          sequence = j.sequence;
        },
        record { sound = empty-IsSound; sequence = refl },
      )

module _ {V : Type 0} where
  bottom_up_count :
      {S : Type 0} (callback : V → S → S) (t : Tree V) (s : S) (n : ℕ)
      → ◌≡◌ {A = S × ℕ}
          (for_each_bottom_up t (counted_callback callback) (s, n))
          (for_each_bottom_up t callback s, n + length (to_list t))
  unfolding for_each_bottom_up
  bottom_up_count callback null s n = ground arith
  bottom_up_count callback (node l v _ r) s n =
      rw (bottom_up_count callback l s n, bottom_up_count callback r, length-append) (ground arith)

  bottom_up_total :
      (f : V → ℕ) (t : Tree V) (n : ℕ)
      → for_each_bottom_up t (λ v m. f v + m) n ≡ total f (to_list t) + n
  unfolding for_each_bottom_up
  bottom_up_total f null n = omega arith
  bottom_up_total f (node l v _ r) n =
      rw (bottom_up_total f l n, bottom_up_total f r, total-append) (omega arith)

  is_node-false : (t : Tree V) → is_node t ≡ false → to_list t ≡ []
  is_node-false null h = refl
  is_node-false (node l v h r) n = ground arith

module _ {V : Type 0} ⦃e : Entry V⦄ where
  -- `erase_range` of a sound container leaves a sound one of the entries outside [lower, upper). What the
  -- callback sums up is the sum over the entries inside, each taken once.
  pub erase_range-Holds :
      (c : Container V) (lower upper : e.Key) (f : V → ℕ)
      → IsSound c
      → Holds
          (erase_range (λ v n. f v + n) c lower upper 0).0
          (keep (λ x. not (below upper x && not_below lower x)) (to_list c.root))
        × ((erase_range (λ v n. f v + n) c lower upper 0).1
            ≡ total f (keep (λ x. below upper x && not_below lower x) (to_list c.root)))
  unfolding erase_range
  erase_range-Holds c lower upper f h =
      let xs = to_list c.root in
      let first = split_lem c.root lower h.valid h.sorted in
      let outer = (Join.split c.root lower).right in
      let outer_sorted : IsSorted (to_list outer) =
        rw first.right_sequence (keep-IsSorted (not_below lower) xs h.sorted) in
      let second = split_lem outer upper first.right_valid outer_sorted in
      let inner = Join.split outer upper in
      let last_sorted : IsSorted (to_list inner.right) =
        rw second.right_sequence (keep-IsSorted (not_below upper) (to_list outer) outer_sorted) in
      let joined =
        join-Appends (Join.split c.root lower).left inner.right first.left_valid second.right_valid
          last_sorted in
      let inside : V → Bool = λ x. below upper x && not_below lower x in
      let cut : to_list (Join.join (Join.split c.root lower).left inner.right)
          ≡ keep (λ x. not (inside x)) xs =
        joined.sequence
        ∙ rw (first.left_sequence, second.right_sequence, first.right_sequence)
            (keep-cut lower upper xs h.sorted) in
      let gone : to_list inner.left ≡ keep inside xs =
        second.left_sequence
        ∙ rw (first.right_sequence) (keep-keep (below upper) (not_below lower) xs) in
      elim (Bool-cases (is_node c.root)) [
        | inl b ↦
            rw (b, bottom_up_count (λ v n. f v + n) inner.left 0 0)
              (
                record {
                  sound = record {
                    valid = joined.top.valid;
                    sorted = rw cut (keep-IsSorted _ xs h.sorted);
                    counted = omega (
                      arith,
                      h.counted,
                      ap length cut,
                      ap length gone,
                      length-keep-not inside xs,
                    );
                  };
                  sequence = cut;
                },
                bottom_up_total f inner.left 0 ∙ rw gone (omega arith),
              )
        | inr b ↦
            let nothing = is_node-false c.root b in
            rw b (record { sound = h; sequence = rw nothing }, rw nothing)
      ]
