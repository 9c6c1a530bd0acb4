-- ===== src/AvlTree/Container/Bulk/Staged.antt =====
-- The tree that a range of entries is staged in, include/smashtable/basic_avl_tree.hpp.
use smash_table.Base.{
  ℕ, ◌+◌, ◌≤◌, ◌≡◌, sym, ◌∙◌, ap, arith, Bool, true, false, none, some, List, [], ◌∷◌, keep, length,
  or_else, or_else_nil, if◌then◌else◌, inl, inr, Bool-cases,
}
use smash_table.Order.{Entry}
use smash_table.Sorted.{matches}
use smash_table.Sorted.Place.{place}
use smash_table.Placement.{refused, matched, made}
use smash_table.AvlTree.{is_node, to_list}
use smash_table.AvlTree.Search.{find}
use smash_table.AvlTree.Container.{Container, insert_if_missing, link_new, to_nat}
use smash_table.AvlTree.Container.Sound.{IsSound}
use smash_table.AvlTree.Container.Updates.{insert_if_missing_lem}
use smash_table.AvlTree.Container.Merging.{entry_found, or_else_assoc}
use smash_table.AvlTree.Container.Bulk.{stage_range}

one_more : (b : Bool) (n : ℕ) → n + to_nat b ≤ n + 1
one_more true n = omega arith
one_more false n = omega arith

module _ {V : Type 0} ⦃e : Entry V⦄ where
  -- what a key finds in a range: the first entry of it
  abbrev pub first_match : e.Key → List (V × Bool) → List V
  first_match q [] = []
  first_match q ((w, _) ∷ rest) = or_else (keep (matches q) (w ∷ [])) (first_match q rest)

  insert_if_missing_size :
      (c : Container V) (w : V) (can_allocate : Bool)
      → (insert_if_missing c w can_allocate).0.size ≤ c.size + 1
  unfolding insert_if_missing link_new
  insert_if_missing_size c w can_allocate = elim (Bool-cases (is_node (find c.root (e.key w)))) [
    | inl f ↦ rw f (omega arith)
    | inr f ↦ elim (Bool-cases can_allocate) [
      | inl a ↦ rw (f, a) (one_more _ c.size)
      | inr a ↦ rw (f, a) (omega arith)
    ]
  ]

  -- the staged tree is sound, has no more entries than the range, and a key finds what it found before, or
  -- else its first entry in the range
  pub record Stages (c : Container V) (range : List (V × Bool)) (t : Container V) : Type 0 where
    pub sound : IsSound t
    pub small : t.size ≤ c.size + length range
    pub finds :
        (q : e.Key)
        → keep (matches q) (to_list t.root)
          ≡ or_else (keep (matches q) (to_list c.root)) (first_match q range)

  next_staged :
      (c d : Container V) (w : V) (can_allocate : Bool) (rest : List (V × Bool)) (t : Container V)
      → IsSound c
      → d.size ≤ c.size + 1
      → to_list d.root
        ≡ (if is_node (find c.root (e.key w)) then to_list c.root else place w (to_list c.root))
      → Stages d rest t
      → Stages c ((w, can_allocate) ∷ rest) t
  next_staged c d w can_allocate rest t h size seq z = record {
    sound = z.sound;
    small = omega (arith, size, z.small);
    finds = λ q.
        z.finds q
        ∙ ap (λ xs. or_else xs (first_match q rest))
            (ap (keep (matches q)) seq ∙ entry_found q w c.root h.sorted)
        ∙ or_else_assoc (keep (matches q) (to_list c.root)) (keep (matches q) (w ∷ []))
            (first_match q rest);
  }

  pub stage_range-Stages :
      (c : Container V) (range : List (V × Bool)) (t : Container V)
      → IsSound c
      → stage_range c range ≡ some t
      → Stages c range t
  unfolding stage_range
  stage_range-Stages c [] t h s =
      let same : c ≡ t = cc s in
      rw (sym same) (record { sound = h; small = omega arith; finds = λ q. sym (or_else_nil _) })
  stage_range-Stages c ((w, can_allocate) ∷ rest) t h s =
      let placed = insert_if_missing c w can_allocate in
      let l = insert_if_missing_lem c w can_allocate h in
      let size = insert_if_missing_size c w can_allocate in
      elim (Bool-cases (is_node (find c.root (e.key w)))) [
        | inl f ↦
            let stays : placed.1.placement ≡ matched = rw f at l.1 in
            let seq : to_list placed.0.root ≡ (
                if is_node (find c.root (e.key w))
                then to_list c.root
                else place w (to_list c.root)) =
              rw f (rw f at l.0.sequence) in
            next_staged c placed.0 w can_allocate rest t h size seq
              (stage_range-Stages placed.0 rest t l.0.sound (rw (stays, stage_range) at s))
        | inr f ↦ elim (Bool-cases can_allocate) [
          | inl a ↦
              let comes : placed.1.placement ≡ made =
                l.1 ∙ rw f (ap (λ b. if b then made else refused) a) in
              let seq : to_list placed.0.root ≡ (
                  if is_node (find c.root (e.key w))
                  then to_list c.root
                  else place w (to_list c.root)) =
                l.0.sequence
                ∙ rw f (ap (λ b. if b then place w (to_list c.root) else to_list c.root) a) in
              next_staged c placed.0 w can_allocate rest t h size seq
                (stage_range-Stages placed.0 rest t l.0.sound (rw (comes, stage_range) at s))
          | inr a ↦
              let fails : placed.1.placement ≡ refused =
                l.1 ∙ rw f (ap (λ b. if b then made else refused) a) in
              let never : none ≡ some t = rw (fails, stage_range) at s in absurd (cc never)
        ]
      ]
