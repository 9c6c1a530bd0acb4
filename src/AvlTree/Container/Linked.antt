-- ===== src/AvlTree/Container/Linked.antt =====
-- A new node and an overwritten entry in a sound container, `basic_avl_tree` in
-- include/smashtable/basic_avl_tree.hpp.
use smash_table.Sorted.Place.{
  place, place_left, place_right, place-IsSorted, keep-below_here, keep-above_here,
}
use smash_table.Sorted.Number.{length-place}
use smash_table.Base.{
  ◌≡◌, refl, sym, ◌∙◌, ap, arith, true, false, Bool-cases, inl, inr, length, length-append, List,
  ◌∷◌, ◌++◌,
}
use smash_table.Order.{Entry}
use smash_table.Placement.{made}
use smash_table.Sorted.{IsSorted, IsSorted-split}
use smash_table.AvlTree.{Tree, null, node, is_node, get_height, to_list, IsMeasured, IsBalanced}
use smash_table.AvlTree.Search.{find}
use smash_table.AvlTree.Insert.{insert}
use smash_table.AvlTree.Insert.Correct.{insert-placement, insert-Inserts}
use smash_table.AvlTree.Container.{Container, link_new, assign}
use smash_table.AvlTree.Container.Sound.{IsSound, find_missing}

module _ {V : Type 0} ⦃e : Entry V⦄ where
  -- a sound container of the entries `xs`
  pub record Holds (c : Container V) (xs : List V) : Type 0 where
    pub sound : IsSound c
    pub sequence : to_list c.root ≡ xs

  -- a new key is linked in where it belongs
  pub link_new_lem :
      (c : Container V) (w : V)
      → IsSound c
      → is_node (find c.root (e.key w)) ≡ false
      → Holds (link_new c w).0 (place w (to_list c.root)) × ((link_new c w).1.placement ≡ made)
  unfolding link_new
  link_new_lem c w h f =
      let new = insert-Inserts c.root null w 0 null h.valid h.sorted in
      let placed = insert-placement c.root null w 0 null in
      let sequence : to_list (insert c.root (node null w 0 null)).root ≡ place w (to_list c.root) =
        rw f at new.sequence in
      let is_made : (insert c.root (node null w 0 null)).placement ≡ made = rw f at placed in
      let miss = find_missing c.root (e.key w) h.sorted f in
      (
        record {
          sound = record {
            valid = new.valid;
            sorted = rw sequence (place-IsSorted w (to_list c.root) h.sorted);
            counted =
                rw is_made (omega (arith, h.counted, ap length sequence, length-place w _ miss));
          };
          sequence = sequence;
        },
        is_made,
      )

  pub get_height-assign :
      (t : Tree V) (q : e.Key) (w : V) → get_height (assign t q w) ≡ get_height t
  unfolding assign
  get_height-assign null q w = refl
  get_height-assign (node l v h r) q w = ground arith

  pub assign-IsMeasured :
      (t : Tree V) (q : e.Key) (w : V) → IsMeasured t → IsMeasured (assign t q w)
  unfolding assign
  assign-IsMeasured null q w m = m
  assign-IsMeasured (node l v h r) q w m = elim (Bool-cases (e.less q (e.key v))) [
    | inl t ↦ rw (t, get_height-assign l q w) (m.0, assign-IsMeasured l q w m.1, m.2)
    | inr t ↦ elim (Bool-cases (e.less (e.key v) q)) [
      | inl u ↦ rw (t, u, get_height-assign r q w) (m.0, m.1, assign-IsMeasured r q w m.2)
      | inr u ↦ rw (t, u) m
    ]
  ]

  pub assign-IsBalanced :
      (t : Tree V) (q : e.Key) (w : V) → IsBalanced t → IsBalanced (assign t q w)
  unfolding assign
  assign-IsBalanced null q w b = b
  assign-IsBalanced (node l v h r) q w b = elim (Bool-cases (e.less q (e.key v))) [
    | inl t ↦ rw (t, get_height-assign l q w) (b.0, b.1, assign-IsBalanced l q w b.2, b.3)
    | inr t ↦ elim (Bool-cases (e.less (e.key v) q)) [
      | inl u ↦ rw (t, u, get_height-assign r q w) (b.0, b.1, b.2, assign-IsBalanced r q w b.3)
      | inr u ↦ rw (t, u) b
    ]
  ]

  -- an entry put in the node that its key finds stands where it belongs
  pub to_list-assign :
      (t : Tree V) (w : V)
      → IsSorted (to_list t)
      → is_node (find t (e.key w)) ≡ true
      → to_list (assign t (e.key w) w) ≡ place w (to_list t)
  unfolding assign find
  to_list-assign null w o f = ground arith
  to_list-assign (node l v h r) w o f =
      let p = IsSorted-split (to_list l) v (to_list r) o in
      elim (Bool-cases (e.less (e.key w) (e.key v))) [
        | inl t ↦
            rw (t, place_left w (to_list l) v (to_list r) p t)
              (ap (λ xs. xs ++ v ∷ to_list r) (to_list-assign l w p.left_sorted (rw t at f)))
        | inr t ↦ elim (Bool-cases (e.less (e.key v) (e.key w))) [
          | inl u ↦
              rw (t, u, place_right w (to_list l) v (to_list r) p u)
                (ap (λ xs. to_list l ++ v ∷ xs)
                  (to_list-assign r w p.right_sorted (rw (t, u) at f)))
          | inr u ↦ rw (
            t,
            u,
            keep-below_here (e.key w) (to_list l) v (to_list r) p t u,
            keep-above_here (e.key w) (to_list l) v (to_list r) p t u,
          )
        ]
      ]

  pub length-assign :
      (t : Tree V) (q : e.Key) (w : V) → length (to_list (assign t q w)) ≡ length (to_list t)
  unfolding assign
  length-assign null q w = refl
  length-assign (node l v h r) q w = ground (
    arith,
    length-append (to_list (assign l q w)) (v ∷ to_list r),
    length-append (to_list l) (v ∷ to_list r),
    length-append (to_list l) (w ∷ to_list r),
    length-append (to_list l) (v ∷ to_list (assign r q w)),
    length-assign l q w,
    length-assign r q w,
  )

  pub assign_lem :
      (c : Container V) (w : V)
      → IsSound c
      → is_node (find c.root (e.key w)) ≡ true
      → Holds (record c { root = assign c.root (e.key w) w }) (place w (to_list c.root))
  assign_lem c w h f =
      let sequence = to_list-assign c.root w h.sorted f in
      record {
        sound = record {
          valid = record {
            measured = assign-IsMeasured c.root (e.key w) w h.valid.measured;
            balanced = assign-IsBalanced c.root (e.key w) w h.valid.balanced;
          };
          sorted = rw sequence (place-IsSorted w (to_list c.root) h.sorted);
          counted = h.counted ∙ sym (length-assign c.root (e.key w) w);
        };
        sequence = sequence;
      }

  pub unchanged : {c : Container V} → IsSound c → Holds c (to_list c.root)
  unchanged h = record { sound = h; sequence = refl }
