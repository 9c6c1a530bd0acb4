-- ===== src/AvlTree/Container/Updates.antt =====
-- Updates of the AVL container by key, include/smashtable/basic_avl_tree.hpp.
use smash_table.Sorted.Place.{place, without, without-IsSorted}
use smash_table.Sorted.Number.{length-matches, length-without}
use smash_table.Base.{
  ◌≡◌, refl, sym, ◌∙◌, ap, arith, Bool, ◌||◌, ◌&&◌, [], not, Bool-cases, inl, inr, if◌then◌else◌,
  length, List, keep, is_nil, ◌∷◌,
}
use smash_table.Order.{Entry}
use smash_table.Placement.{refused, matched, made}
use smash_table.Sorted.{matches}
use smash_table.AvlTree.{Tree, null, node, is_node, to_list}
use smash_table.AvlTree.Search.{find}
use smash_table.AvlTree.Extract.Taken.{extracted-extract, detached}
use smash_table.AvlTree.Extract.Correct.{extract_lem}
use smash_table.AvlTree.Extract.Heights.{extract-Shrinks}
use smash_table.AvlTree.Container.{
  Container, Placed, InsertStatus, inserted, key_already_exists, out_of_memory_heap, to_nat,
  link_new, insert_if_missing, assign, upsert, extract, erase, contains,
}
use smash_table.AvlTree.Container
use smash_table.AvlTree.Container.Sound.{IsSound, is_node-find}
use smash_table.AvlTree.Container.Linked.{Holds, link_new_lem, assign_lem, unchanged}

module _ {V : Type 0} ⦃e : Entry V⦄ where
  -- `insert_if_missing` keeps the container sound and an entry with an equivalent key as it is; a new
  -- key is placed if the allocator has a node, and the report says matched, made or refused.
  pub insert_if_missing_lem :
      (c : Container V) (w : V) (can_allocate : Bool)
      → IsSound c
      → Holds (insert_if_missing c w can_allocate).0 (
          if not (is_node (find c.root (e.key w))) && can_allocate
          then place w (to_list c.root)
          else to_list c.root)
        × ((insert_if_missing c w can_allocate).1.placement ≡ (
            if is_node (find c.root (e.key w))
            then matched
            else (if can_allocate then made else refused)))
  unfolding insert_if_missing
  insert_if_missing_lem c w can_allocate h = elim (Bool-cases (is_node (find c.root (e.key w)))) [
    | inl f ↦ rw f (unchanged h, refl)
    | inr f ↦ elim (Bool-cases can_allocate) [
      | inl a ↦ rw (f, a) (link_new_lem c w h f)
      | inr a ↦ rw (f, a) (unchanged h, refl)
    ]
  ]

  -- `insert` keeps the container sound. It refuses a key that is there, reports a lack of memory only for
  -- a new key, and otherwise places the entry; a failure changes nothing.
  pub insert_new :
      (c : Container V) (w : V) (can_allocate : Bool)
      → IsSound c
      → Holds (Container.insert c w can_allocate).0 (
          if not (is_node (find c.root (e.key w))) && can_allocate
          then place w (to_list c.root)
          else to_list c.root)
        × ((Container.insert c w can_allocate).1 ≡ (
            if is_node (find c.root (e.key w))
            then key_already_exists
            else (if can_allocate then inserted else out_of_memory_heap)))
  unfolding Container.insert
  insert_new c w can_allocate h = elim (Bool-cases (is_node (find c.root (e.key w)))) [
    | inl f ↦ rw f (unchanged h, refl)
    | inr f ↦ elim (Bool-cases can_allocate) [
      | inl a ↦ let linked = link_new_lem c w h f in rw (f, a, linked.1) (linked.0, refl)
      | inr a ↦ rw (f, a) (unchanged h, refl)
    ]
  ]

  -- `upsert` keeps the container sound. It stores the entry in place of one with an equivalent key, or
  -- where its key belongs, unless the key is new and the allocator has no node: then it reports a refusal
  -- and changes nothing.
  pub upsert-Holds :
      (c : Container V) (w : V) (can_allocate : Bool)
      → IsSound c
      → Holds (upsert c w can_allocate).0 (
          if is_node (find c.root (e.key w)) || can_allocate
          then place w (to_list c.root)
          else to_list c.root)
        × ((upsert c w can_allocate).1.placement ≡ (
            if is_node (find c.root (e.key w))
            then matched
            else (if can_allocate then made else refused)))
  unfolding upsert
  upsert-Holds c w can_allocate h = elim (Bool-cases (is_node (find c.root (e.key w)))) [
    | inl f ↦ rw f (assign_lem c w h f, refl)
    | inr f ↦ elim (Bool-cases can_allocate) [
      | inl a ↦ rw (f, a) (link_new_lem c w h f)
      | inr a ↦ rw (f, a) (unchanged h, refl)
    ]
  ]

  nat-if : (xs : List V) → (if is_nil xs then 0 else 1) ≡ to_nat (not (is_nil xs))
  nat-if [] = refl
  nat-if (x ∷ xs) = refl

  is_node-detached : (t : Tree V) → is_node (detached t) ≡ is_node t
  is_node-detached null = refl
  is_node-detached (node l v h r) = refl

  -- `erase` keeps the container sound, with every entry but that of the key, and reports whether the key
  -- was found.
  pub erase-Holds :
      (c : Container V) (q : e.Key)
      → IsSound c
      → Holds (erase c q).0 (without q (to_list c.root)) × ((erase c q).1 ≡ is_node (find c.root q))
  unfolding erase extract
  erase-Holds c q h =
      let kept = extract_lem c.root q h.valid.measured h.sorted in
      let found = ap is_node (extracted-extract c.root q) ∙ is_node-detached (find c.root q) in
      let one : length (keep (matches q) (to_list c.root)) ≡ to_nat (is_node (find c.root q)) =
        length-matches q (to_list c.root) h.sorted
        ∙ nat-if (keep (matches q) (to_list c.root))
        ∙ ap to_nat (sym (is_node-find c.root q h.sorted)) in
      (
        record {
          sound = record {
            valid = (extract-Shrinks c.root q h.valid h.sorted).valid;
            sorted = rw kept.sequence (without-IsSorted q (to_list c.root) h.sorted);
            counted = rw found (
                omega (
                  arith,
                  h.counted,
                  one,
                  ap length kept.sequence,
                  length-without q (to_list c.root),
                ));
          };
          sequence = kept.sequence;
        },
        found,
      )
