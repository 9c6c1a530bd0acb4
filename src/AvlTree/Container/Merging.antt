-- ===== src/AvlTree/Container/Merging.antt =====
-- Merges of AVL containers by the keys of the other, include/smashtable/basic_avl_tree.hpp.
use smash_table.Sorted.Place.{place}
use smash_table.Sorted.Lookup.{matches-place, matches_same}
use smash_table.Sorted.Number.{matches_parts}
use smash_table.Base.{
  ◌+◌, ◌≡◌, refl, sym, ◌∙◌, ap, arith, Bool, true, false, not, Bool-cases, inl, inr, if◌then◌else◌,
  length, List, List-cases, [], ◌∷◌, keep, or_else, or_else_nil, is_nil, ◌==◌,
}
use smash_table.Order.{Entry}
use smash_table.Placement.{matched, made, is_made}
use smash_table.Sorted.{IsSorted, IsSorted-split, matches}
use smash_table.AvlTree.{Tree, null, node, is_node, to_list}
use smash_table.AvlTree.Search.{find}
use smash_table.AvlTree.Insert.{insert}
use smash_table.AvlTree.Insert.Correct.{insert-placement, insert-matched}
use smash_table.AvlTree.Container.{
  Container, for_each_bottom_up, merge_entry, merge, upsert_entry, merge_with_upsert, link_new,
  empty,
}
use smash_table.AvlTree.Container.Sound.{IsSound, is_node-find, find_missing, empty-IsSound}
use smash_table.AvlTree.Container.Linked.{Holds, link_new_lem, assign_lem}

pub or_else_assoc :
    {A : Type 0} (a b c : List A) → or_else (or_else a b) c ≡ or_else a (or_else b c)
or_else_assoc [] b c = refl
or_else_assoc (x ∷ a) b c = refl

or_else_full : {A : Type 0} (a b : List A) → not (is_nil a) ≡ true → or_else a b ≡ a
or_else_full [] b h = ground arith
or_else_full (x ∷ a) b h = refl

if-or_else :
    {A : Type 0} (b : Bool) (v : A) (ys : List A)
    → (if b then v ∷ [] else ys) ≡ or_else (if b then v ∷ [] else []) ys
if-or_else true v ys = refl
if-or_else false v ys = refl

module _ {V : Type 0} ⦃e : Entry V⦄ where
  -- an entry of the other tree comes in where its key is new
  merge_entry_lem :
      (v : V) (c : Container V)
      → IsSound c
      → Holds
          (merge_entry v c)
          (if is_node (find c.root (e.key v)) then to_list c.root else place v (to_list c.root))
  unfolding merge_entry link_new
  merge_entry_lem v c h =
      let placed = insert-placement c.root null v 0 null in
      elim (Bool-cases (is_node (find c.root (e.key v)))) [
        | inl f ↦
            let stays : (insert c.root (node null v 0 null)).placement ≡ matched = rw f at placed in
            let same = insert-matched c.root null v 0 null (ap is_made stays) in
            rw (f, stays, same)
              (record {
                sound = record {
                  valid = h.valid;
                  sorted = h.sorted;
                  counted = omega (arith, h.counted);
                };
                sequence = refl;
              })
        | inr f ↦ rw f ((link_new_lem c v h f).0)
      ]

  -- what a key finds after one entry came in
  pub entry_found :
      (q : e.Key) (v : V) (t : Tree V)
      → IsSorted (to_list t)
      → keep (matches q) (if is_node (find t (e.key v)) then to_list t else place v (to_list t))
        ≡ or_else (keep (matches q) (to_list t)) (keep (matches q) (v ∷ []))
  entry_found q v t o =
      let xs = to_list t in
      elim (Bool-cases (matches q v)) [
        | inl m ↦
            let same = matches_same q (e.key v) xs m in
            elim (Bool-cases (is_node (find t (e.key v)))) [
              | inl f ↦
                  let here = sym (is_node-find t (e.key v) o) ∙ f in
                  rw (f, m, same) (sym (or_else_full _ _ here))
              | inr f ↦ rw (f, matches-place q v xs, m, same, find_missing t (e.key v) o f) refl
            ]
        | inr m ↦ elim (Bool-cases (is_node (find t (e.key v)))) [
          | inl f ↦ rw (f, m) (sym (or_else_nil _))
          | inr f ↦ rw (f, matches-place q v xs, m) (sym (or_else_nil _))
        ]
      ]

  upsert_entry_lem :
      (v : V) (c : Container V) → IsSound c → Holds (upsert_entry v c) (place v (to_list c.root))
  unfolding upsert_entry link_new
  upsert_entry_lem v c h =
      let placed = insert-placement c.root null v 0 null in
      elim (Bool-cases (is_node (find c.root (e.key v)))) [
        | inl f ↦
            let stays : (insert c.root (node null v 0 null)).placement ≡ matched = rw f at placed in
            let same = insert-matched c.root null v 0 null (ap is_made stays) in
            let size : c.size + 0 ≡ c.size = omega arith in
            rw (stays, same, size) (assign_lem c v h f)
        | inr f ↦
            let comes : (insert c.root (node null v 0 null)).placement ≡ made = rw f at placed in
            rw comes (rw comes at ((link_new_lem c v h f).0))
      ]

  -- what a key finds in a container
  abbrev own_of : Container V → e.Key → List V
  own_of c q = keep (matches q) (to_list c.root)

  -- the entries of a tree, each handed to the container in turn
  pub merge-fold :
      (t : Tree V) (c : Container V)
      → IsSound c
      → IsSorted (to_list t)
      → IsSound (for_each_bottom_up t merge_entry c)
        × ((q : e.Key)
            → keep (matches q) (to_list (for_each_bottom_up t merge_entry c).root)
              ≡ or_else (keep (matches q) (to_list c.root)) (keep (matches q) (to_list t)))
  unfolding for_each_bottom_up
  merge-fold null c h o = (h, λ q. sym (or_else_nil _))
  merge-fold (node l v _ r) c h o =
      let p = IsSorted-split (to_list l) v (to_list r) o in
      let lefts = for_each_bottom_up l merge_entry c in
      let rights = for_each_bottom_up r merge_entry lefts in
      let on_left = merge-fold l c h p.left_sorted in
      let on_right = merge-fold r lefts on_left.0 p.right_sorted in
      let own = merge_entry_lem v rights on_right.0 in
      (
        own.sound,
        λ q.
            ap (keep (matches q)) own.sequence
            ∙ entry_found q v rights.root on_right.0.sorted
            ∙ ap (λ xs. or_else xs (keep (matches q) (v ∷ [])))
                (on_right.1 q
                  ∙ ap (λ xs. or_else xs (keep (matches q) (to_list r))) (on_left.1 q)
                  ∙ or_else_assoc (own_of c q) (keep (matches q) (to_list l))
                      (keep (matches q) (to_list r)))
            ∙ or_else_assoc (own_of c q)
                (or_else (keep (matches q) (to_list l)) (keep (matches q) (to_list r)))
                (keep (matches q) (v ∷ []))
            ∙ ap (or_else (own_of c q)) (sym (matches_parts q (to_list l) v (to_list r) o).0),
      )

  pub upsert-fold :
      (t : Tree V) (c : Container V)
      → IsSound c
      → IsSorted (to_list t)
      → IsSound (for_each_bottom_up t upsert_entry c)
        × ((q : e.Key)
            → keep (matches q) (to_list (for_each_bottom_up t upsert_entry c).root)
              ≡ or_else (keep (matches q) (to_list t)) (keep (matches q) (to_list c.root)))
  unfolding for_each_bottom_up
  upsert-fold null c h o = (h, λ q. refl)
  upsert-fold (node l v _ r) c h o =
      let p = IsSorted-split (to_list l) v (to_list r) o in
      let lefts = for_each_bottom_up l upsert_entry c in
      let rights = for_each_bottom_up r upsert_entry lefts in
      let on_left = upsert-fold l c h p.left_sorted in
      let on_right = upsert-fold r lefts on_left.0 p.right_sorted in
      let own = upsert_entry_lem v rights on_right.0 in
      (
        own.sound,
        λ q.
            ap (keep (matches q)) own.sequence
            ∙ matches-place q v (to_list rights.root)
            ∙ if-or_else (matches q v) v (keep (matches q) (to_list rights.root))
            ∙ ap (or_else (keep (matches q) (v ∷ []))) (
                on_right.1 q
                ∙ ap (or_else (keep (matches q) (to_list r))) (on_left.1 q)
                ∙ sym (
                    or_else_assoc (keep (matches q) (to_list r)) (keep (matches q) (to_list l))
                      (own_of c q)))
            ∙ sym (
                or_else_assoc (keep (matches q) (v ∷ []))
                  (or_else (keep (matches q) (to_list r)) (keep (matches q) (to_list l)))
                  (own_of c q))
            ∙ ap (λ xs. or_else xs (keep (matches q) (to_list c.root)))
                (sym (matches_parts q (to_list l) v (to_list r) o).1),
      )

  -- a sound container of size 0 has no entry
  pub sizeless : (c : Container V) → IsSound c → c.size == 0 ≡ true → to_list c.root ≡ []
  sizeless c h z = elim (List-cases (to_list c.root)) [
    | inl n ↦ n
    | inr (x, xs, n) ↦
        let number = ap length n in
        let zero : c.size ≡ 0 = ground arith in absurd (omega (arith, h.counted))
  ]

  -- `merge` of two sound containers leaves a sound one, in which a key finds what it found here, or else
  -- what it found in the other, and empties the other.
  pub record Merges (c other : Container V) (result : Container V × Container V) : Type 0 where
    pub sound : IsSound result.0
    pub emptied : Holds result.1 []
    pub finds :
        (q : e.Key)
        → keep (matches q) (to_list result.0.root)
          ≡ or_else (keep (matches q) (to_list c.root)) (keep (matches q) (to_list other.root))

  pub emptied_lem : Holds {V = V} ⦃e = e⦄ empty []
  emptied_lem = record { sound = empty-IsSound; sequence = refl }

  pub merge-Merges :
      (c other : Container V) → IsSound c → IsSound other → Merges c other (merge c other)
  unfolding merge
  merge-Merges c other h h' =
      let m = merge-fold other.root c h h'.sorted in
      record { sound = m.0; emptied = emptied_lem; finds = m.1 }

  -- `merge_with_upsert` is the same with the precedence the other way round.
  pub merge_with_upsert-Merges :
      (c other : Container V)
      → IsSound c
      → IsSound other
      → IsSound (merge_with_upsert c other).0
        × Holds (merge_with_upsert c other).1 []
        × ((q : e.Key)
            → keep (matches q) (to_list (merge_with_upsert c other).0.root)
              ≡ or_else (keep (matches q) (to_list other.root)) (keep (matches q) (to_list c.root)))
  unfolding merge_with_upsert
  merge_with_upsert-Merges c other h h' = elim (Bool-cases (other.size == 0)) [
    | inl z ↦
        let none = sizeless other h' z in
        rw z (h, record { sound = h'; sequence = none }, λ q. rw none refl)
    | inr z ↦ elim (Bool-cases (c.size == 0)) [
      | inl y ↦
          let none = sizeless c h y in
          rw (z, y) (h', emptied_lem, λ q. rw none (sym (or_else_nil _)))
      | inr y ↦ let m = upsert-fold other.root c h h'.sorted in rw (z, y) (m.0, emptied_lem, m.1)
    ]
  ]
