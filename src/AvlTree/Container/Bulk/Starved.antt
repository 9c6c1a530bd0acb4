-- ===== src/AvlTree/Container/Bulk/Starved.antt =====
-- When the staging of a range fails, include/smashtable/basic_avl_tree.hpp: where the allocator refuses
-- the first entry of a key.
use smash_table.Base.{
  ◌≡◌, refl, sym, ◌∙◌, ap, arith, Bool, true, false, ◌&&◌, ◌||◌, not, if◌then◌else◌, List, [], ◌∷◌,
  keep, or_else, is_nil, is_some, inl, inr, Bool-cases,
}
use smash_table.Order.{Entry}
use smash_table.Sorted.{matches}
use smash_table.Sorted.Place.{place}
use smash_table.Placement.{refused, matched, made}
use smash_table.AvlTree.{is_node, to_list}
use smash_table.AvlTree.Search.{find}
use smash_table.AvlTree.Container.{Container, insert_if_missing}
use smash_table.AvlTree.Container.Sound.{IsSound, is_node-find}
use smash_table.AvlTree.Container.Updates.{insert_if_missing_lem}
use smash_table.AvlTree.Container.Merging.{entry_found}
use smash_table.AvlTree.Container.Bulk.{stage_range}

is_nil-or_else : {A : Type 0} (xs ys : List A) → is_nil (or_else xs ys) ≡ is_nil xs && is_nil ys
is_nil-or_else [] ys = refl
is_nil-or_else (x ∷ xs) ys = refl

is_nil-not : {A : Type 0} (xs : List A) (b : Bool) → b ≡ not (is_nil xs) → is_nil xs ≡ not b
is_nil-not [] b h = rw h refl
is_nil-not (x ∷ xs) b h = rw h refl

and_of_false : (a b : Bool) → b ≡ false → a && b ≡ false
and_of_false a b h = ground arith

and_of_true : (a b : Bool) → b ≡ true → a && b ≡ a
and_of_true a b h = ground arith

module _ {V : Type 0} ⦃e : Entry V⦄ where
  -- whether the allocator refuses an entry whose key is not among those before it, which start with `seen`
  abbrev pub is_starved : List V → List (V × Bool) → Bool
  is_starved seen [] = false
  is_starved seen ((w, can_allocate) ∷ rest) =
      (is_nil (keep (matches (e.key w)) seen) && not can_allocate) || is_starved (w ∷ seen) rest

  -- the same keys
  abbrev Agrees : List V → List V → Type 0
  Agrees seen xs = (q : e.Key) → is_nil (keep (matches q) seen) ≡ is_nil (keep (matches q) xs)

  Agrees-cons :
      (c d : Container V) (seen : List V) (w : V)
      → IsSound c
      → Agrees seen (to_list c.root)
      → to_list d.root
        ≡ (if is_node (find c.root (e.key w)) then to_list c.root else place w (to_list c.root))
      → Agrees (w ∷ seen) (to_list d.root)
  Agrees-cons c d seen w h agree seq q =
      let held = is_nil-or_else (keep (matches q) (to_list c.root)) (keep (matches q) (w ∷ [])) in
      let now =
        ap (λ xs. is_nil (keep (matches q) xs)) seq ∙ ap is_nil (entry_found q w c.root h.sorted) in
      elim (Bool-cases (matches q w)) [
        | inl m ↦
            let here : is_nil (keep (matches q) (w ∷ [])) ≡ false = rw m refl in
            rw m (sym (now ∙ held ∙ and_of_false _ _ here))
        | inr m ↦
            let none_here : is_nil (keep (matches q) (w ∷ [])) ≡ true = rw m refl in
            rw m (agree q ∙ sym (now ∙ held ∙ and_of_true _ _ none_here))
      ]

  pub stage_range-starved :
      (c : Container V) (seen : List V) (range : List (V × Bool))
      → IsSound c
      → Agrees seen (to_list c.root)
      → is_some (stage_range c range) ≡ not (is_starved seen range)
  unfolding stage_range
  stage_range-starved c seen [] h agree = refl
  stage_range-starved c seen ((w, can_allocate) ∷ rest) h agree =
      let placed = insert_if_missing c w can_allocate in
      let l = insert_if_missing_lem c w can_allocate h in
      let unseen : is_nil (keep (matches (e.key w)) seen) ≡ not (is_node (find c.root (e.key w))) =
        agree (e.key w) ∙ is_nil-not _ _ (is_node-find c.root (e.key w) h.sorted) in
      elim (Bool-cases (is_node (find c.root (e.key w)))) [
        | inl f ↦
            let stays : placed.1.placement ≡ matched = rw f at l.1 in
            let seq : to_list placed.0.root ≡ (
                if is_node (find c.root (e.key w))
                then to_list c.root
                else place w (to_list c.root)) =
              rw f (rw f at l.0.sequence) in
            rw (stays, unseen ∙ ap not f, stage_range)
              (stage_range-starved placed.0 (w ∷ seen) rest l.0.sound
                (Agrees-cons c placed.0 seen w h agree seq))
        | inr f ↦ elim (Bool-cases can_allocate) [
          | inl a ↦
              let comes : placed.1.placement ≡ made =
                l.1 ∙ rw f (ap (λ b. if b then made else refused) a) in
              let seq : to_list placed.0.root ≡ (
                  if is_node (find c.root (e.key w))
                  then to_list c.root
                  else place w (to_list c.root)) =
                l.0.sequence
                ∙ rw f (ap (λ b. if b then place w (to_list c.root) else to_list c.root) a) in
              rw (comes, unseen ∙ ap not f, ap not a, stage_range)
                (stage_range-starved placed.0 (w ∷ seen) rest l.0.sound
                  (Agrees-cons c placed.0 seen w h agree seq))
          | inr a ↦
              let fails : placed.1.placement ≡ refused =
                l.1 ∙ rw f (ap (λ b. if b then made else refused) a) in
              rw (fails, unseen ∙ ap not f, ap not a, stage_range) refl
        ]
      ]
