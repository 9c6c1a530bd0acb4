-- ===== src/WbTree/Container/Ranges.antt =====
-- Bulk removals and cuts of the container, include/smashtable/basic_wb_tree.hpp.
use smash_table.Sorted.Place.{keep-cut}
use smash_table.Base.{
  ℕ, ◌+◌, ◌≡◌, refl, sym, ◌∙◌, ap, arith, Bool, false, ◌&&◌, not, Bool-cases, inl, inr, keep,
  length, keep-keep, total, length-append, total-append, All, All-append, append-nil, List, [], ◌∷◌,
  ◌++◌,
}
use smash_table.Order.{Entry, ◌≺◌}
use smash_table.Sorted.{IsSorted, keep-IsSorted, below, not_below}
use smash_table.WbTree.{Tree, null, node, is_node, to_list}
use smash_table.WbTree.Walk.{for_each_bottom_up}
use smash_table.WbTree.Join
use smash_table.WbTree.Join.Root.{join_lem}
use smash_table.WbTree.Join.Cut.{split_lem, erase_if_lem}
use smash_table.WbTree.Statistics.Counts.{length-to_list}
use smash_table.WbTree.Container.{Container, erase_if, erase_range, split, join}
use smash_table.WbTree.Container.Sound.{IsSound, length-IsSound}

length-keep-not :
    {V : Type 0} (p : V → Bool) (xs : List V)
    → length (keep p xs) + length (keep (λ x. not (p x)) xs) ≡ length xs
length-keep-not p [] = refl
length-keep-not p (x ∷ xs) = ground (arith, length-keep-not p xs)

module _ {V : Type 0} ⦃e : Entry V⦄ where
  -- `erase_if` keeps the container sound, leaves the entries that fail the predicate, and returns
  -- the number of the others.
  pub erase_if-container :
      (c : Container V) (predicate : V → Bool)
      → IsSound c
      → IsSound (erase_if c predicate).0
        × (to_list (erase_if c predicate).0.root ≡ keep (λ x. not (predicate x)) (to_list c.root))
        × ((erase_if c predicate).1 ≡ length (keep predicate (to_list c.root)))
  unfolding erase_if
  erase_if-container c predicate h =
      let out = erase_if_lem c.root predicate h.sorted in
      let kept = ap length out.sequence in
      let size = length-to_list (Join.erase_if c.root predicate).root out.valid.counted in
      (
        record {
          valid = out.valid;
          sorted = rw out.sequence (keep-IsSorted _ (to_list c.root) h.sorted);
          counted = out.counted;
        },
        out.sequence,
        omega (
          arith,
          out.counted,
          kept,
          size,
          length-IsSound h,
          length-keep-not predicate (to_list c.root),
        ),
      )

  -- the walk that frees the erased nodes counts them beside the caller's callback
  bottom_up_count :
      {S : Type 0} (t : Tree V) (callback : V → S → S) (s : S) (n : ℕ)
      → ◌≡◌ {A = S × ℕ}
          (for_each_bottom_up t (λ v r. (callback v r.0, r.1 + 1)) (s, n))
          (for_each_bottom_up t callback s, n + length (to_list t))
  unfolding for_each_bottom_up
  bottom_up_count null callback s n = ground arith
  bottom_up_count (node l v _ _ r) callback s n =
      rw (bottom_up_count l callback s n, bottom_up_count r callback, length-append) (ground arith)

  bottom_up_total :
      (t : Tree V) (f : V → ℕ) (n : ℕ)
      → for_each_bottom_up t (λ v m. f v + m) n ≡ total f (to_list t) + n
  unfolding for_each_bottom_up
  bottom_up_total null f n = omega arith
  bottom_up_total (node l v _ _ r) f n =
      rw (bottom_up_total l f n, bottom_up_total r f, total-append) (omega arith)

  is_node-false : (t : Tree V) → is_node t ≡ false → to_list t ≡ []
  is_node-false null h = refl
  is_node-false (node l v s a r) h = ground arith

  -- `erase_range` keeps the container sound and leaves the entries outside [lower, upper). What the
  -- callback sums up is the sum over the entries inside, each taken once.
  pub erase_range-container :
      (c : Container V) (lower upper : e.Key) (f : V → ℕ)
      → IsSound c
      → IsSound (erase_range c lower upper (λ v n. f v + n) 0).0
        × (to_list (erase_range c lower upper (λ v n. f v + n) 0).0.root
            ≡ keep (λ x. not (below upper x && not_below lower x)) (to_list c.root))
        × ((erase_range c lower upper (λ v n. f v + n) 0).1
            ≡ total f (keep (λ x. below upper x && not_below lower x) (to_list c.root)))
  unfolding erase_range
  erase_range-container c lower upper f h =
      let xs = to_list c.root in
      let first = split_lem c.root lower h.valid h.sorted in
      let outer = (Join.split c.root lower).right in
      let outer_sorted : IsSorted (to_list outer) =
        rw first.right_sequence (keep-IsSorted (not_below lower) xs h.sorted) in
      let second = split_lem outer upper first.right_valid outer_sorted in
      let inner = Join.split outer upper in
      let last_sorted : IsSorted (to_list inner.right) =
        rw second.right_sequence (keep-IsSorted (not_below upper) (to_list outer) outer_sorted) in
      let joined =
        join_lem (Join.split c.root lower).left inner.right first.left_valid second.right_valid
          last_sorted in
      let cut : to_list (Join.join (Join.split c.root lower).left inner.right)
          ≡ keep (λ x. not (below upper x && not_below lower x)) xs =
        joined.sequence
        ∙ rw (first.left_sequence, second.right_sequence, first.right_sequence)
            (keep-cut lower upper xs h.sorted) in
      let gone : to_list inner.left ≡ keep (λ x. below upper x && not_below lower x) xs =
        second.left_sequence
        ∙ rw (first.right_sequence) (keep-keep (below upper) (not_below lower) xs) in
      let deleted = length-to_list inner.left second.left_valid.counted in
      elim (Bool-cases (is_node c.root)) [
        | inl b ↦
            rw (b, bottom_up_count inner.left (λ v n. f v + n) 0 0)
              (
                record {
                  valid = joined.valid;
                  sorted = rw cut (keep-IsSorted _ xs h.sorted);
                  counted = omega (arith, joined.size, second.size, first.size, h.counted, deleted);
                },
                cut,
                bottom_up_total inner.left f 0 ∙ rw gone (omega arith),
              )
        | inr b ↦ let nothing = is_node-false c.root b in rw b (h, rw nothing, rw nothing)
      ]

  -- The two parts of a split are sound, and hold the keys below the cut and the others.
  pub split-container :
      (c : Container V) (q : e.Key)
      → IsSound c
      → IsSound (split c q).0
        × IsSound (split c q).1
        × (to_list (split c q).0.root ≡ keep (below q) (to_list c.root))
        × (to_list (split c q).1.root ≡ keep (not_below q) (to_list c.root))
  unfolding split
  split-container c q h =
      let parts = split_lem c.root q h.valid h.sorted in
      (
        record {
          valid = parts.left_valid;
          sorted = rw parts.left_sequence (keep-IsSorted (below q) (to_list c.root) h.sorted);
          counted = refl;
        },
        record {
          valid = parts.right_valid;
          sorted = rw parts.right_sequence (keep-IsSorted (not_below q) (to_list c.root) h.sorted);
          counted = refl;
        },
        parts.left_sequence,
        parts.right_sequence,
      )

  -- the precondition of a join: every key of `xs` is below every key of `ys`
  abbrev pub IsApart : List V → List V → Type 0
  IsApart xs ys = All (λ x. All (λ y. x ≺ y) ys) xs

  pub append-IsSorted :
      (xs ys : List V) → IsSorted xs → IsSorted ys → IsApart xs ys → IsSorted (xs ++ ys)
  append-IsSorted [] ys hx hy a = hy
  append-IsSorted (x ∷ xs) ys hx hy a =
      (All-append _ xs ys hx.0 a.0, append-IsSorted xs ys hx.1 hy a.1)

  -- A join of two sound containers that stand apart is sound, holds both sequences, and leaves the
  -- other container empty.
  pub join-container :
      (c other : Container V)
      → IsSound c
      → IsSound other
      → IsApart (to_list c.root) (to_list other.root)
      → IsSound (join c other).0
        × (to_list (join c other).0.root ≡ to_list c.root ++ to_list other.root)
        × (to_list (join c other).1.root ≡ [])
        × ((join c other).1.size ≡ 0)
  unfolding join
  join-container c other h ho apart =
      let joined = join_lem c.root other.root h.valid ho.valid ho.sorted in
      let sorted = append-IsSorted (to_list c.root) (to_list other.root) h.sorted ho.sorted apart in
      elim (Bool-cases (is_node other.root)) [
        | inl b ↦ elim (Bool-cases (is_node c.root)) [
          | inl d ↦
              rw (b, d)
                (
                  record {
                    valid = joined.valid;
                    sorted = rw joined.sequence sorted;
                    counted = omega (arith, joined.size, h.counted, ho.counted);
                  },
                  joined.sequence,
                  refl,
                  refl,
                )
          | inr d ↦ rw (b, d) (ho, rw (is_node-false c.root d), refl, refl)
        ]
        | inr b ↦
            let nothing = is_node-false other.root b in
            let size = length-IsSound ho in
            rw b (h, rw (nothing, append-nil), nothing, sym size ∙ ap length nothing)
      ]
