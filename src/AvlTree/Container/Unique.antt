-- ===== src/AvlTree/Container/Unique.antt =====
-- The merge of AVL containers that assumes unique keys, include/smashtable/basic_avl_tree.hpp: by
-- a join, by flattening, or by splitting, whichever the sizes and the ends suggest.
use smash_table.Base.{
  ℕ, ◌+◌, ◌*◌, ◌<◌, ◌≡◌, sym, ◌∙◌, arith, true, Bool-cases, inl, inr, length, length-append, some,
  ltb, ◌==◌,
}
use smash_table.Order.{Entry}
use smash_table.Sorted.{IsSorted}
use smash_table.Sorted.Union.{Apart, Unites, Apart-sym}
use smash_table.AvlTree.{Tree, to_list, IsValid}
use smash_table.AvlTree.Search.{find_min, find_max}
use smash_table.AvlTree.Join
use smash_table.AvlTree.Join.Root.{join-Appends}
use smash_table.AvlTree.Merge.{merge_split_based}
use smash_table.AvlTree.Merge.Split.{
  merge_split_based_lem, merge_dsw_lem, Unites-nil_left, Unites-nil_right,
}
use smash_table.AvlTree.Container.{Container, ends_before, prefers_dsw, merge_unique, empty}
use smash_table.AvlTree.Container.Sound.{IsSound}
use smash_table.AvlTree.Container.Merging.{sizeless, emptied_lem}
use smash_table.AvlTree.Container.Chained.{Combines, chain_trees, Unites-append, Unites-swap}

module _ {V : Type 0} ⦃e : Entry V⦄ where
  -- a join of the two trees
  joined :
      (s t : Tree V) (n : ℕ)
      → IsValid s
      → IsValid t
      → IsSorted (to_list s)
      → IsSorted (to_list t)
      → ends_before (find_max s) (find_min t) ≡ true
      → n ≡ length (to_list s) + length (to_list t)
      → IsSound (record { root = Join.join s t; size = n })
        × Unites (to_list s) (to_list t) (to_list (Join.join s t))
  joined s t n vs vt os ot b h =
      let j = join-Appends s t vs vt ot in
      let o = chain_trees s t os ot b in
      (
        record {
          valid = j.top.valid;
          sorted = rw j.sequence o;
          counted = rw j.sequence (h ∙ sym (length-append (to_list s) (to_list t)));
        },
        rw j.sequence (Unites-append (to_list s) (to_list t) o),
      )

  split_merged :
      (s t : Tree V) (n : ℕ)
      → IsValid s
      → IsValid t
      → IsSorted (to_list s)
      → IsSorted (to_list t)
      → Apart (to_list s) (to_list t)
      → n ≡ length (to_list s) + length (to_list t)
      → IsSound (record { root = merge_split_based s t; size = n })
        × Unites (to_list s) (to_list t) (to_list (merge_split_based s t))
  split_merged s t n vs vt os ot a h =
      let m = merge_split_based_lem s t vs vt os ot a in
      (record { valid = m.0; sorted = m.1.sorted; counted = h ∙ sym m.1.number }, m.1)

  -- The merge that assumes unique keys ends, for two sound containers without a common key and with fuel
  -- for two rounds for each of their nodes and one more, in a sound container of all their entries, and
  -- empties the other.
  pub merge_unique-Combines :
      (fuel : ℕ) (c other : Container V)
      → IsSound c
      → IsSound other
      → Apart (to_list c.root) (to_list other.root)
      → 2 * (c.size + other.size) < fuel
      → (result : Container V × Container V) × (merge_unique fuel c other ≡ some result)
        × Combines c other result
  unfolding merge_unique
  merge_unique-Combines fuel c other h h' a f =
      let xs = to_list c.root in
      let ys = to_list other.root in
      let number : c.size + other.size ≡ length xs + length ys =
        omega (arith, h.counted, h'.counted) in
      let number' : c.size + other.size ≡ length ys + length xs =
        omega (arith, h.counted, h'.counted) in
      elim (Bool-cases (other.size == 0)) [
        | inl z ↦
            let none = sizeless other h' z in
            (
              (c, other),
              rw z,
              record {
                sound = h;
                union = rw none (Unites-nil_right xs h.sorted);
                emptied = record { sound = h'; sequence = none };
              },
            )
        | inr z ↦ elim (Bool-cases (c.size == 0)) [
          | inl y ↦
              let none = sizeless c h y in
              (
                (other, empty),
                rw (z, y),
                record {
                  sound = h';
                  union = rw none (Unites-nil_left ys h'.sorted);
                  emptied = emptied_lem;
                },
              )
          | inr y ↦ elim (Bool-cases (ends_before (find_max c.root) (find_min other.root))) [
            | inl b ↦
                let j =
                  joined c.root other.root (c.size + other.size) h.valid h'.valid h.sorted h'.sorted
                    b number in
                (
                  (
                    record { root = Join.join c.root other.root; size = c.size + other.size },
                    empty,
                  ),
                  rw (z, y, b),
                  record { sound = j.0; union = j.1; emptied = emptied_lem },
                )
            | inr b ↦ elim (Bool-cases (ends_before (find_max other.root) (find_min c.root))) [
              | inl d ↦
                  let j =
                    joined other.root c.root (c.size + other.size) h'.valid h.valid h'.sorted
                      h.sorted d number' in
                  (
                    (
                      record { root = Join.join other.root c.root; size = c.size + other.size },
                      empty,
                    ),
                    rw (z, y, b, d),
                    record {
                      sound = j.0;
                      union = Unites-swap xs ys _ a j.1;
                      emptied = emptied_lem;
                    },
                  )
              | inr d ↦ elim (Bool-cases (prefers_dsw c.size other.size)) [
                | inl p ↦
                    let (result, run, m) =
                      merge_dsw_lem fuel c.root other.root (omega arith) (omega arith) h.sorted
                        h'.sorted a in
                    (
                      (record { root = result.0; size = result.1 }, empty),
                      rw (z, y, b, d, p, run, merge_unique),
                      record {
                        sound = record {
                          valid = m.valid;
                          sorted = m.union.sorted;
                          counted = m.size ∙ sym m.union.number;
                        };
                        union = m.union;
                        emptied = emptied_lem;
                      },
                    )
                | inr p ↦ elim (Bool-cases (ltb c.size other.size)) [
                  | inl s ↦
                      let m =
                        split_merged c.root other.root (c.size + other.size) h.valid h'.valid
                          h.sorted h'.sorted a number in
                      (
                        (
                          record {
                            root = merge_split_based c.root other.root;
                            size = c.size + other.size;
                          },
                          empty,
                        ),
                        rw (z, y, b, d, p, s),
                        record { sound = m.0; union = m.1; emptied = emptied_lem },
                      )
                  | inr s ↦
                      let m =
                        split_merged other.root c.root (c.size + other.size) h'.valid h.valid
                          h'.sorted h.sorted (Apart-sym xs ys a) number' in
                      (
                        (
                          record {
                            root = merge_split_based other.root c.root;
                            size = c.size + other.size;
                          },
                          empty,
                        ),
                        rw (z, y, b, d, p, s),
                        record {
                          sound = m.0;
                          union = Unites-swap xs ys _ a m.1;
                          emptied = emptied_lem;
                        },
                      )
                ]
              ]
            ]
          ]
        ]
      ]
