-- ===== src/AvlTree/Insert/Correct.antt =====
-- What an insertion does to the AVL tree, include/smashtable/basic_avl_tree.hpp.
use smash_table.Sorted.Place.{place, place_left, place_right}
use smash_table.Base.{
  ℕ, ◌+◌, ◌≤◌, ◌≡◌, ◌∙◌, ap, sym, ◌++◌, ◌∷◌, refl, arith, true, false, some, Bool-cases, inl, inr,
  if◌then◌else◌,
}
use smash_table.Order.{Entry}
use smash_table.Placement.{matched, made, is_made}
use smash_table.Sorted.{IsSorted, IsSorted-split}
use smash_table.AvlTree.{Tree, null, node, is_node, get_height, to_list, IsValid}
use smash_table.AvlTree.Search.{find}
use smash_table.AvlTree.Rotate.Heavy.{IsValid-left, IsValid-right}
use smash_table.AvlTree.Insert.{insert, find_or_make}
use smash_table.AvlTree.Insert.Turn.{Grown, Grown-left, Grown-right}

module _ {V : Type 0} ⦃e : Entry V⦄ where
  match-find_or_make :
      (t cl : Tree V) (c : V) (ch : ℕ) (cr : Tree V)
      → is_made (find_or_make t (e.key c) (node cl c ch cr)).placement ≡ true
      → (find_or_make t (e.key c) (node cl c ch cr)).match ≡ some c
  unfolding find_or_make
  match-find_or_make null cl c ch cr m = refl
  match-find_or_make (node l v h r) cl c ch cr m =
      ground (arith, match-find_or_make l cl c ch cr, match-find_or_make r cl c ch cr)

  -- The insertion of a node reports that it was made exactly where its key is not found.
  pub insert-placement :
      (t cl : Tree V) (c : V) (ch : ℕ) (cr : Tree V)
      → (insert t (node cl c ch cr)).placement
        ≡ (if is_node (find t (e.key c)) then matched else made)
  unfolding insert find
  insert-placement null cl c ch cr = refl
  insert-placement (node l v h r) cl c ch cr =
      ground (arith, insert-placement l cl c ch cr, insert-placement r cl c ch cr)

  -- where it is not made the tree stays as it is
  pub insert-matched :
      (t cl : Tree V) (c : V) (ch : ℕ) (cr : Tree V)
      → is_made (insert t (node cl c ch cr)).placement ≡ false
      → (insert t (node cl c ch cr)).root ≡ t
  unfolding insert
  insert-matched null cl c ch cr m = ground arith
  insert-matched (node l v h r) cl c ch cr m =
      ground (arith, insert-matched l cl c ch cr, insert-matched r cl c ch cr)

  made_lem :
      (t cl : Tree V) (c : V) (ch : ℕ) (cr : Tree V)
      → IsValid t
      → IsSorted (to_list t)
      → is_made (find_or_make t (e.key c) (node cl c ch cr)).placement ≡ true
      → Grown t c (find_or_make t (e.key c) (node cl c ch cr)).root
        × (to_list (find_or_make t (e.key c) (node cl c ch cr)).root ≡ place c (to_list t))
  unfolding find_or_make
  made_lem null cl c ch cr w o m = (
    record {
      valid = record { measured = (refl, tt, tt); balanced = (omega arith, omega arith, tt, tt) };
      height_least = omega arith;
      leans = inr (refl, inl refl);
    },
    refl,
  )
  made_lem (node l v h r) cl c ch cr w o m =
      let p = IsSorted-split (to_list l) v (to_list r) o in
      let new = node cl c ch cr in
      elim (Bool-cases (e.less (e.key c) (e.key v))) [
        | inl t ↦
            let m' : is_made (find_or_make l (e.key c) (node cl c ch cr)).placement ≡ true =
              rw t at m in
            let sub = made_lem l cl c ch cr (IsValid-left w) p.left_sorted m' in
            let grown =
              Grown-left l v h r (find_or_make l (e.key c) (node cl c ch cr)).root c w t sub.0 in
            rw (t, m', match-find_or_make l cl c ch cr m')
              (
                grown.0,
                grown.1.sequence
                    ∙ ap (λ xs. xs ++ v ∷ to_list r) sub.1
                    ∙ sym (place_left c (to_list l) v (to_list r) p t),
              )
        | inr t ↦ elim (Bool-cases (e.less (e.key v) (e.key c))) [
          | inl u ↦
              let m' : is_made (find_or_make r (e.key c) (node cl c ch cr)).placement ≡ true =
                rw (t, u) at m in
              let sub = made_lem r cl c ch cr (IsValid-right w) p.right_sorted m' in
              let grown =
                Grown-right l v h r (find_or_make r (e.key c) (node cl c ch cr)).root c w u sub.0 in
              rw (t, u, m', match-find_or_make r cl c ch cr m')
                (
                  grown.0,
                  grown.1.sequence
                      ∙ ap (λ xs. to_list l ++ v ∷ xs) sub.1
                      ∙ sym (place_right c (to_list l) v (to_list r) p u),
                )
          | inr u ↦ let never : false ≡ true = rw (t, u) at m in cc
        ]
      ]

  -- An insertion into a valid sorted tree leaves it as it is where the key is found, and otherwise
  -- gives a valid tree, at most one higher, with the entry in its place.
  pub record Inserts (t : Tree V) (c : V) (t' : Tree V) : Type 0 where
    pub valid : IsValid t'
    pub height : get_height t' ≤ get_height t + 1
    pub sequence :
        to_list t' ≡ (if is_node (find t (e.key c)) then to_list t else place c (to_list t))

  insert_made :
      (t cl : Tree V) (c : V) (ch : ℕ) (cr : Tree V)
      → IsValid t
      → IsSorted (to_list t)
      → is_made (insert t (node cl c ch cr)).placement ≡ true
      → Grown t c (insert t (node cl c ch cr)).root
        × (get_height (insert t (node cl c ch cr)).root ≤ get_height t + 1)
        × (to_list (insert t (node cl c ch cr)).root ≡ place c (to_list t))
  unfolding insert
  insert_made t cl c ch cr w o m =
      let new = made_lem t cl c ch cr w o m in
      (new.0, elim new.0.leans [ inl s ↦ omega arith | inr s ↦ omega (arith, s.0) ], new.1)

  -- A node-level insertion of a node into a valid sorted tree leaves a valid tree, higher by one at most.
  -- The entry of the node is placed by its key, unless an equivalent key is there and nothing changes.
  pub insert-Inserts :
      (t cl : Tree V) (c : V) (ch : ℕ) (cr : Tree V)
      → IsValid t
      → IsSorted (to_list t)
      → Inserts t c (insert t (node cl c ch cr)).root
  insert-Inserts t cl c ch cr w o = elim (Bool-cases (is_node (find t (e.key c)))) [
    | inl f ↦
        let same =
          insert-matched t cl c ch cr (ap is_made (insert-placement t cl c ch cr) ∙ rw f) in
        record { valid = rw same w; height = rw same (omega arith); sequence = rw (same, f) }
    | inr f ↦
        let new =
          insert_made t cl c ch cr w o (ap is_made (insert-placement t cl c ch cr) ∙ rw f) in
        record { valid = new.0.valid; height = new.1; sequence = rw f (new.2) }
  ]
