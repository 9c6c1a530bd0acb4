-- ===== src/WbTree/Container/Updates.antt =====
-- Updates of the container by key, include/smashtable/basic_wb_tree.hpp.
use smash_table.Sorted.Place.{place, place-IsSorted, without, without-IsSorted}
use smash_table.Base.{◌≡◌, refl, arith, Bool, ◌||◌, ◌&&◌, not, Bool-cases, inl, inr, if◌then◌else◌}
use smash_table.Order.{Entry}
use smash_table.Sorted.{IsSorted}
use smash_table.WbTree.{Tree, null, node, is_node, to_list, get_size}
use smash_table.WbTree.Search.{find}
use smash_table.WbTree.Insert.{refused, matched, made, upsert}
use smash_table.WbTree.Insert.Sequence.{
  upsert-placement, to_list-upsert_refused, to_list-upsert_stored,
}
use smash_table.WbTree.Insert.Validity.{upsert-Grows}
use smash_table.WbTree.Extract.Taken.{extracted-extract, detached}
use smash_table.WbTree.Extract.Correct.{extract_lem}
use smash_table.WbTree.Container.{Container, to_nat, insert, insert_or_assign, extract, erase}
use smash_table.WbTree.Container.Sound.{IsSound}

module _ {V : Type 0} ⦃e : Entry V⦄ where
  -- the sequence after an upsert: an entry that is neither found nor has a node is not stored
  upsert-sequence :
      (t : Tree V) (w : V) (can_allocate : Bool)
      → IsSorted (to_list t)
      → to_list (upsert t w can_allocate).root
        ≡ (if is_node (find t (e.key w)) || can_allocate then place w (to_list t) else to_list t)
  upsert-sequence t w can_allocate o =
      let said = upsert-placement t w can_allocate in
      elim (Bool-cases (is_node (find t (e.key w)) || can_allocate)) [
        | inl b ↦ rw b (to_list-upsert_stored t w can_allocate o (ground arith))
        | inr b ↦ rw b (to_list-upsert_refused t w can_allocate (ground arith))
      ]

  -- An upsert keeps the container sound. It stores the entry in place of one with an equivalent
  -- key, or where its key belongs, unless the key is new and the allocator has no node: then it
  -- reports a refusal and changes nothing.
  pub insert_or_assign_lem :
      (c : Container V) (w : V) (can_allocate : Bool)
      → IsSound c
      → IsSound (insert_or_assign c w can_allocate).0
        × (to_list (insert_or_assign c w can_allocate).0.root ≡ (
            if is_node (find c.root (e.key w)) || can_allocate
            then place w (to_list c.root)
            else to_list c.root))
        × ((insert_or_assign c w can_allocate).1.placement ≡ (
            if is_node (find c.root (e.key w))
            then matched
            else (if can_allocate then made else refused)))
  unfolding insert_or_assign
  insert_or_assign_lem c w can_allocate h =
      let (valid, size) = upsert-Grows c.root w can_allocate h.valid in
      let sequence = upsert-sequence c.root w can_allocate h.sorted in
      (
        record {
          valid = valid;
          sorted = elim (Bool-cases (is_node (find c.root (e.key w)) || can_allocate)) [
            | inl b ↦ rw (sequence, b) (place-IsSorted w (to_list c.root) h.sorted)
            | inr b ↦ rw (sequence, b) h.sorted
          ];
          counted = ground (arith, size, h.counted);
        },
        sequence,
        upsert-placement c.root w can_allocate,
      )

  -- An insertion keeps the container sound and leaves an entry with an equivalent key as it is. A
  -- new key's entry is stored where it belongs if the allocator has a node, and refused if not.
  pub insert_lem :
      (c : Container V) (w : V) (can_allocate : Bool)
      → IsSound c
      → IsSound (insert c w can_allocate).0
        × (to_list (insert c w can_allocate).0.root ≡ (
            if not (is_node (find c.root (e.key w))) && can_allocate
            then place w (to_list c.root)
            else to_list c.root))
        × ((insert c w can_allocate).1.placement ≡ (
            if is_node (find c.root (e.key w))
            then matched
            else (if can_allocate then made else refused)))
  unfolding insert insert_or_assign
  insert_lem c w can_allocate h =
      let stored = insert_or_assign_lem c w can_allocate h in
      elim (Bool-cases (is_node (find c.root (e.key w)))) [
        | inl b ↦ rw b (h, refl, refl)
        | inr b ↦ rw b (rw b at stored)
      ]

  to_nat-detached : (t : Tree V) → to_nat (is_node (detached t)) ≡ get_size (detached t)
  to_nat-detached null = refl
  to_nat-detached (node l v s a r) = refl

  is_node-detached : (t : Tree V) → is_node (detached t) ≡ is_node t
  is_node-detached null = refl
  is_node-detached (node l v s a r) = refl

  -- An erasure keeps the container sound, leaves every entry but the one of the key, and reports
  -- whether there was one.
  pub erase_lem :
      (c : Container V) (q : e.Key)
      → IsSound c
      → IsSound (erase c q).0
        × (to_list (erase c q).0.root ≡ without q (to_list c.root))
        × ((erase c q).1 ≡ is_node (find c.root q))
  unfolding erase extract
  erase_lem c q h =
      let out = extract_lem c.root q h.valid h.sorted in
      let taken = extracted-extract c.root q in
      (
        record {
          valid = out.valid;
          sorted = rw out.sequence (without-IsSorted q (to_list c.root) h.sorted);
          counted =
              let one = to_nat-detached (find c.root q) in
              let out_size = rw taken at out.size in rw taken (omega (arith, one, h.counted));
        },
        out.sequence,
        rw taken (is_node-detached (find c.root q)),
      )
