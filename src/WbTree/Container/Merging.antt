-- ===== src/WbTree/Container/Merging.antt =====
-- The merge of two containers, include/smashtable/basic_wb_tree.hpp.
use smash_table.Sorted.Place.{place, place-IsSorted}
use smash_table.Base.{
  ℕ, zero, suc, ◌+◌, ◌-◌, ◌<◌, ◌≡◌, refl, sym, ◌∙◌, ap, arith, true, false, not, Bool-cases, inl,
  inr, if◌then◌else◌, ◌==◌, ◌∷◌, none, keep, length, length-append, first_or, or_else, is_nil,
  is_some, is_some-first_or, or_else_nil, if-or_else,
}
use smash_table.Order.{Entry}
use smash_table.Sorted.{IsSorted, matches}
use smash_table.Sorted.Lookup.{merge_step}
use smash_table.WbTree.{Tree, null, node, is_node, fruit?, to_list}
use smash_table.WbTree.Search.{find}
use smash_table.WbTree.Search.Sequence.{find_lem}
use smash_table.WbTree.Insert
use smash_table.WbTree.Insert.{is_made}
use smash_table.WbTree.Insert.Sequence.{insert-placement, insert-matched, to_list-insert_made}
use smash_table.WbTree.Insert.Validity.{insert-Grows}
use smash_table.WbTree.Extract
use smash_table.WbTree.Extract.Taken.{extracted-extract}
use smash_table.WbTree.Rotate.Update.{IsValid}
use smash_table.WbTree.Container.{Container, extract, erase, merge_node, merge_loop, merge}
use smash_table.WbTree.Container.Sound.{IsSound, length-IsSound}
use smash_table.WbTree.Container.Updates.{erase_lem}

is_some-fruit? : {V : Type 0} (t : Tree V) → is_node t ≡ is_some (fruit? t)
is_some-fruit? null = refl
is_some-fruit? (node l v s a r) = refl

module _ {V : Type 0} ⦃e : Entry V⦄ where
  -- The merge of a single node places its entry where the key is new, and else drops the node.
  merge_node_lem :
      (c : Container V) (v : V) (s a : ℕ)
      → IsSound c
      → IsValid (node null v s a null)
      → IsSound (merge_node c (node null v s a null))
        × (to_list (merge_node c (node null v s a null)).root ≡ (
            if is_node (find c.root (e.key v)) then to_list c.root else place v (to_list c.root)))
  unfolding merge_node
  merge_node_lem c v s a h hv =
      let (valid, size) = insert-Grows c.root v s a h.valid hv in
      let said = insert-placement c.root v s a in
      elim (Bool-cases (is_node (find c.root (e.key v)))) [
        | inl t ↦
            let unmade : is_made (Insert.insert c.root (node null v s a null)).placement ≡ false =
              ap is_made said ∙ rw t refl in
            let same = insert-matched c.root v s a unmade in
            rw t (
              record {
                valid = valid;
                sorted = rw same h.sorted;
                counted = ground (arith, size, unmade, h.counted);
              },
              ap to_list same,
            )
        | inr t ↦
            let was_made : is_made (Insert.insert c.root (node null v s a null)).placement ≡ true =
              ap is_made said ∙ rw t refl in
            let placed = to_list-insert_made c.root v s a h.sorted was_made in
            rw t (
              record {
                valid = valid;
                sorted = rw placed (place-IsSorted v (to_list c.root) h.sorted);
                counted = ground (arith, size, was_made, h.counted);
              },
              placed,
            )
      ]

  -- the root's entry is what an extraction by its key takes out
  extract_root_key :
      (l : Tree V) (v : V) (s a : ℕ) (r : Tree V)
      → (Extract.extract (node l v s a r) (e.key v)).extracted
        ≡ node null v 1 (e.augmented_count v + 0 + 0) null
  unfolding find
  extract_root_key l v s a r =
      extracted-extract (node l v s a r) (e.key v) ∙ rw (e.order.less_irrefl (e.key v)) refl

  taken-IsValid : (v : V) → IsValid (node null v 1 (e.augmented_count v + 0 + 0) null)
  taken-IsValid v = record {
    counted = (refl, omega arith, tt, tt);
    balanced = (omega arith, omega arith, tt, tt);
  }

  is_node-find :
      (t : Tree V) (q : e.Key)
      → IsSorted (to_list t)
      → is_node (find t q) ≡ not (is_nil (keep (matches q) (to_list t)))
  is_node-find t q o =
      is_some-fruit? (find t q)
      ∙ ap is_some (find_lem t q o)
      ∙ is_some-first_or (keep (matches q) (to_list t))

  -- what a merge leaves: all the entries here, and nothing there
  pub record Merges (c : Container V) (other : Container V) (here there : Container V)
      : Type 0 where
    pub sound : IsSound here
    pub emptied : there.root ≡ null
    pub no_size : there.size ≡ 0
    pub finds :
        (q : e.Key)
        → first_or (keep (matches q) (to_list here.root)) none
          ≡ first_or
              (or_else (keep (matches q) (to_list c.root)) (keep (matches q) (to_list other.root)))
              none

  pub null_of_empty : (t : Tree V) → length (to_list t) ≡ 0 → t ≡ null
  null_of_empty null h = refl
  null_of_empty (node l v s a r) h =
      absurd (omega (arith, length-append (to_list l) (v ∷ to_list r), h))

  pub nothing_left :
      (c : Container V) (other : Container V)
      → IsSound c
      → other.root ≡ null
      → other.size ≡ 0
      → Merges c other c other
  nothing_left c other h empty none_left = record {
    sound = h;
    emptied = empty;
    no_size = none_left;
    finds = λ q.
        rw (ap to_list empty)
          (sym (ap (λ xs. first_or xs none) (or_else_nil (keep (matches q) (to_list c.root)))));
  }

  merge_loop_lem :
      (fuel : ℕ) (c : Container V) (t : Tree V) (n : ℕ)
      → IsSound c
      → IsSound (record { root = t; size = n })
      → n < fuel
      → Merges c
          (record { root = t; size = n })
          (merge_loop fuel c (record { root = t; size = n })).0
          (merge_loop fuel c (record { root = t; size = n })).1
  unfolding merge_loop erase extract
  merge_loop_lem zero c t n h ho enough = absurd (omega (arith, enough))
  merge_loop_lem (suc fuel) c null n h ho enough = elim (Bool-cases (n == 0)) [
    | inl z ↦
        rw (z, merge_loop) (nothing_left c (record { root = null; size = n }) h refl ho.counted)
    | inr z ↦
        rw (z, merge_loop) (nothing_left c (record { root = null; size = n }) h refl ho.counted)
  ]
  merge_loop_lem (suc fuel) c (node l v s a r) n h ho enough =
      let other : Container V = record { root = node l v s a r; size = n } in
      let k = e.key v in
      let sized = length-IsSound ho in
      let some_left : (n == 0) ≡ false =
        ground (arith, length-append (to_list l) (v ∷ to_list r), sized) in
      let taken = extract_root_key l v s a r in
      let out = erase_lem other k ho in
      let left = (Extract.extract (node l v s a r) k).root in
      let fresh = node null v 1 (e.augmented_count v + 0 + 0) null in
      let merged = merge_node_lem c v 1 (e.augmented_count v + 0 + 0) h (taken-IsValid v) in
      let left_sound : IsSound (record { root = left; size = n - 1 }) = rw taken at out.0 in
      let rest =
        merge_loop_lem fuel (merge_node c fresh) left (n - 1) merged.0 left_sound
          (ground (arith, enough, some_left)) in
      rw (some_left, taken, merge_loop)
        (record {
          sound = rest.sound;
          emptied = rest.emptied;
          no_size = rest.no_size;
          finds = λ q.
              rest.finds q
              ∙ rw (merged.1, out.1, is_node-find c.root k h.sorted)
                  (merge_step q v (to_list c.root) (to_list l) (to_list r) ho.sorted);
        })

  pub merge_lem :
      (c other : Container V)
      → IsSound c
      → IsSound other
      → Merges c other (merge c other).0 (merge c other).1
  unfolding merge
  merge_lem c other h ho =
      merge_loop_lem (other.size + 1) c other.root other.size h ho (omega arith)

  -- A merge of two sound containers, the fuel of its loop being enough, is sound and leaves the other
  -- container empty. A key then finds the entry that it found here before, or else, where there was
  -- none, the one that it found in the other.
  pub find-merge :
      (c other : Container V) (q : e.Key)
      → IsSound c
      → IsSound other
      → IsSound (merge c other).0
        × (fruit? (find (merge c other).0.root q) ≡ (
            if is_node (find c.root q) then fruit? (find c.root q) else fruit? (find other.root q)))
        × ((merge c other).1.root ≡ null)
        × ((merge c other).1.size ≡ 0)
  find-merge c other q h ho =
      let out = merge_lem c other h ho in
      let here = find_lem (merge c other).0.root q out.sound.sorted in
      let merged =
        if-or_else (keep (matches q) (to_list c.root)) (keep (matches q) (to_list other.root)) in
      (
        out.sound,
        rw
            (
              here,
              is_node-find c.root q h.sorted,
              find_lem c.root q h.sorted,
              find_lem other.root q ho.sorted,
            )
            (out.finds q ∙ merged),
        out.emptied,
        out.no_size,
      )
