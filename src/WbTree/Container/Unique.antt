-- ===== src/WbTree/Container/Unique.antt =====
-- The merge that assumes unique keys, include/smashtable/basic_wb_tree.hpp: it joins two containers
-- where they stand apart, and else merges them entry by entry.
use smash_table.Base.{
  ◌+◌, ◌≡◌, refl, sym, ◌∙◌, ap, arith, true, false, Bool-cases, inl, inr, ◌==◌, List, [], ◌∷◌, ◌++◌,
  none, some, keep, keep-append, length, All, All-imp, first_or, last_or, or_else,
}
use smash_table.Order.{Entry, lt_le_trans, le_lt_trans, less_asymm}
use smash_table.Sorted.{IsSorted, matches}
use smash_table.WbTree.{Tree, null, node, fruit?, to_list}
use smash_table.WbTree.Search.{find_min, find_max}
use smash_table.WbTree.Search.Sequence.{find_min_lem, find_max_lem}
use smash_table.WbTree.Join
use smash_table.WbTree.Join.Root.{join_lem}
use smash_table.WbTree.Container.{Container, empty, merge_apart, merge_unique}
use smash_table.WbTree.Container.Sound.{IsSound, length-IsSound}
use smash_table.WbTree.Container.Ranges.{IsApart, append-IsSorted}
use smash_table.WbTree.Container.Merging.{Merges, merge_lem, nothing_left, null_of_empty}

last_or-some : {A : Type 0} (xs : List A) (x : A) → last_or xs (some x) ≡ none → length xs + 1 ≡ 0
last_or-some [] x h = ground arith
last_or-some (y ∷ ys) x h = absurd (omega (arith, last_or-some ys y h))

last_or-none : {A : Type 0} (xs : List A) → none ≡ last_or xs none → length xs ≡ 0
last_or-none [] h = refl
last_or-none (x ∷ xs) h = absurd (omega (arith, last_or-some xs x (sym h)))

first_or-none : {A : Type 0} (xs : List A) → none ≡ first_or xs none → length xs ≡ 0
first_or-none [] h = refl
first_or-none (x ∷ xs) h = ground arith

first_or-or_else :
    {A : Type 0} (xs ys : List A) → first_or (xs ++ ys) none ≡ first_or (or_else xs ys) none
first_or-or_else [] ys = refl
first_or-or_else (x ∷ xs) ys = refl

module _ {V : Type 0} ⦃e : Entry V⦄ where
  -- the last of a sorted sequence is above the others, and the first below
  below_last :
      (xs : List V) (x m : V)
      → IsSorted (x ∷ xs)
      → some m ≡ last_or xs (some x)
      → All (λ y. e.less (e.key m) (e.key y) ≡ false) (x ∷ xs)
  below_last [] x m o h = let same : m ≡ x = cc h in (rw same (e.order.less_irrefl (e.key x)), tt)
  below_last (y ∷ ys) x m o h =
      let rest = below_last ys y m o.1 h in
      let far = lt_le_trans e.order (e.key x) (e.key y) (e.key m) o.0.0 (rest.0) in
      (less_asymm e.order (e.key x) (e.key m) far, rest)

  first_below :
      (m y : V) (ys : List V)
      → IsSorted (y ∷ ys)
      → e.less (e.key m) (e.key y) ≡ true
      → All (λ z. e.less (e.key m) (e.key z) ≡ true) (y ∷ ys)
  first_below m y ys o h = (h, All-imp (λ z k. e.order.less_trans _ _ _ h k) ys o.0)

  apart :
      (xs ys : List V) (m n : V)
      → IsSorted xs
      → IsSorted ys
      → some m ≡ last_or xs none
      → some n ≡ first_or ys none
      → e.less (e.key m) (e.key n) ≡ true
      → IsApart xs ys
  apart [] ys m n ox oy hm hn l = tt
  apart (x ∷ xs) [] m n ox oy hm hn l = ground arith
  apart (x ∷ xs) (y ∷ ys) m n ox oy hm hn l =
      let same : n ≡ y = cc hn in
      let over = first_below m y ys oy (rw same at l) in
      All-imp (λ z low. All-imp (λ u high. le_lt_trans e.order _ _ _ low high) (y ∷ ys) over)
        (x ∷ xs) (below_last xs x m ox hm)

  joined_lem :
      (c other : Container V)
      → IsSound c
      → IsSound other
      → IsApart (to_list c.root) (to_list other.root)
      → Merges c other
          (record { root = Join.join c.root other.root; size = c.size + other.size })
          empty
  joined_lem c other h ho far =
      let joined = join_lem c.root other.root h.valid ho.valid ho.sorted in
      let order = append-IsSorted (to_list c.root) (to_list other.root) h.sorted ho.sorted far in
      record {
        sound = record {
          valid = joined.valid;
          sorted = rw joined.sequence order;
          counted = omega (arith, joined.size, h.counted, ho.counted);
        };
        emptied = refl;
        no_size = refl;
        finds = λ q.
            let xs = to_list c.root in
            let ys = to_list other.root in
            rw (joined.sequence, keep-append (matches q) xs ys)
              (first_or-or_else (keep (matches q) xs) (keep (matches q) ys));
      }

  merge_apart_lem :
      (c other : Container V) (this_max other_min : Tree V)
      → IsSound c
      → IsSound other
      → (c.size == 0) ≡ false
      → (other.size == 0) ≡ false
      → fruit? this_max ≡ last_or (to_list c.root) none
      → fruit? other_min ≡ first_or (to_list other.root) none
      → Merges c other
          (merge_apart c other this_max other_min).0
          (merge_apart c other this_max other_min).1
  unfolding merge_apart
  merge_apart_lem c other null n h ho s t hm hn =
      absurd (ground (arith, last_or-none (to_list c.root) hm, length-IsSound h, s))
  merge_apart_lem c other (node ml m ms ma mr) null h ho s t hm hn =
      absurd (ground (arith, first_or-none (to_list other.root) hn, length-IsSound ho, t))
  merge_apart_lem c other (node ml m ms ma mr) (node nl n ns na nr) h ho s t hm hn =
      elim (Bool-cases (e.less (e.key m) (e.key n))) [
        | inl l ↦
            rw (l, merge_apart)
              (joined_lem c other h ho
                (apart (to_list c.root) (to_list other.root) m n h.sorted ho.sorted hm hn l))
        | inr l ↦ rw (l, merge_apart) (merge_lem c other h ho)
      ]

  -- The merge that assumes unique keys leaves, for two sound containers, a sound one in which a key
  -- finds the entry that it found here, or else the one that it found in the other, which is left
  -- empty. Keys in both do no harm, where the warning on the method leaves them undefined.
  pub merge_unique_lem :
      (c other : Container V)
      → IsSound c
      → IsSound other
      → Merges c other (merge_unique c other).0 (merge_unique c other).1
  unfolding merge_unique
  merge_unique_lem c other h ho = elim (Bool-cases (other.size == 0)) [
    | inl t ↦
        let none_left : other.size ≡ 0 = ground (arith, t) in
        let gone = null_of_empty other.root (length-IsSound ho ∙ none_left) in
        rw (t, merge_unique) (nothing_left c other h gone none_left)
    | inr t ↦ elim (Bool-cases (c.size == 0)) [
      | inl s ↦
          let none_here : c.size ≡ 0 = ground (arith, s) in
          let gone = null_of_empty c.root (length-IsSound h ∙ none_here) in
          rw (t, s, merge_unique)
            (record {
              sound = ho;
              emptied = refl;
              no_size = refl;
              finds = λ q. rw (ap to_list gone) refl;
            })
      | inr s ↦
          rw (t, s, merge_unique)
            (merge_apart_lem c other (find_max c.root) (find_min other.root) h ho s t
              (find_max_lem c.root) (find_min_lem other.root))
    ]
  ]
