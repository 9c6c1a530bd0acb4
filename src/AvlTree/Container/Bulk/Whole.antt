-- ===== src/AvlTree/Container/Bulk/Whole.antt =====
-- A range of entries is inserted, upserted or updated as a whole or not at all,
-- include/smashtable/basic_avl_tree.hpp.
use smash_table.Base.{
  ℕ, ◌+◌, ◌*◌, ◌<◌, ◌≡◌, ◌⊎◌, refl, sym, ◌∙◌, ap, arith, Bool, true, false, some, List, [], ◌∷◌,
  ◌++◌, keep, length, or_else, not, ◌||◌, is_nil, is_some, All, inl, inr, Bool-cases, Option-cases,
  append-nil,
}
use smash_table.Order.{Entry}
use smash_table.Sorted.{matches}
use smash_table.Sorted.Union.{Apart}
use smash_table.AvlTree.{to_list}
use smash_table.AvlTree.Cursor.Keys.{
  has_any_key, has_any_key_lem, has_all_keys, has_all_keys_lem, found_in, missing_in,
}
use smash_table.AvlTree.Container.{Container, empty}
use smash_table.AvlTree.Container.Sound.{IsSound, empty-IsSound}
use smash_table.AvlTree.Container.Merging.{merge_with_upsert-Merges}
use smash_table.AvlTree.Container.Unique.{merge_unique-Combines}
use smash_table.AvlTree.Container.Bulk.{
  RangeStatus, success, out_of_memory_heap, key_already_exists, key_not_found, stage_range,
  insert_range, upsert_range, update_range,
}
use smash_table.AvlTree.Container.Bulk.Known.{kept_entry, none_missing, none_shared}
use smash_table.AvlTree.Container.Bulk.Starved.{is_starved, stage_range-starved}
use smash_table.AvlTree.Container.Bulk.Staged.{first_match, stage_range-Stages}

or_true : (b : Bool) → b || true ≡ true
or_true true = refl
or_true false = refl

true_of : (b : Bool) → not b ≡ false → b ≡ true
true_of true h = refl
true_of false h = absurd (cc h)

false_of : (b : Bool) → not b ≡ true → b ≡ false
false_of true h = absurd (cc h)
false_of false h = refl

none_found :
    {A B : Type 0} (f : A → List B) (xs : List A)
    → is_nil (keep (λ x. not (is_nil (f x))) xs) ≡ true
    → All (λ x. f x ≡ []) xs
none_found f [] h = tt
none_found f (x ∷ xs) h = elim (Bool-cases (is_nil (f x))) [
  | inl t ↦ (nil_of (f x) t, none_found f xs (rw t at h))
  | inr t ↦ let never : false ≡ true = rw t at h in absurd (cc never)
]
  where
    nil_of : {B : Type 0} (ys : List B) → is_nil ys ≡ true → ys ≡ []
    nil_of [] t = refl
    nil_of (y ∷ ys) t = absurd (cc t)

module _ {V : Type 0} ⦃e : Entry V⦄ where
  abbrev pub finds : Container V → e.Key → List V
  finds c q = keep (matches q) (to_list c.root)

  -- the allocator refuses an entry of the range, and nothing has changed
  abbrev pub RunsOut : Container V → List (V × Bool) → Container V × RangeStatus → Type 0
  RunsOut c range result =
      (is_starved [] range ≡ true) × (result.1 ≡ out_of_memory_heap) × (result.0 ≡ c)

  abbrev pub UpsertsRange :
      Container V → List (V × Bool) → e.Key → Container V × RangeStatus → Type 0
  UpsertsRange c range q result =
      IsSound result.0
      × (RunsOut c range result
          ⊎ ((is_starved [] range ≡ false)
              × (result.1 ≡ success)
              × (finds result.0 q ≡ or_else (first_match q range) (finds c q))))

  abbrev pub UpdatesRange :
      Container V → List (V × Bool) → e.Key → Container V × RangeStatus → Type 0
  UpdatesRange c range q result =
      IsSound result.0
      × (RunsOut c range result
          ⊎ ((is_starved [] range ≡ false)
              × (((result.1 ≡ key_not_found)
                    × (result.0 ≡ c)
                    × ((k : e.Key) × (is_nil (finds c k) ≡ true)
                        × (is_nil (first_match k range) ≡ false)))
                  ⊎ ((result.1 ≡ success)
                      × (finds result.0 q ≡ or_else (first_match q range) (finds c q))
                      × (is_nil (finds result.0 q) ≡ is_nil (finds c q))))))

  abbrev pub InsertsRange :
      Container V → List (V × Bool) → e.Key → Container V × RangeStatus → Type 0
  InsertsRange c range q result =
      IsSound result.0
      × (RunsOut c range result
          ⊎ ((is_starved [] range ≡ false)
              × (((result.1 ≡ key_already_exists)
                    × (result.0 ≡ c)
                    × ((k : e.Key) × (is_nil (finds c k) ≡ false)
                        × (is_nil (first_match k range) ≡ false)))
                  ⊎ ((result.1 ≡ success)
                      × (finds result.0 q ≡ finds c q ++ first_match q range)
                      × (is_nil (finds c q) || is_nil (first_match q range) ≡ true)))))

  starved :
      (range : List (V × Bool)) (b : Bool)
      → is_some (stage_range empty range) ≡ b
      → is_starved [] range ≡ not b
  starved range b h =
      other_of (is_starved [] range) b
        (sym (stage_range-starved empty [] range empty-IsSound (λ q. refl)) ∙ h)
    where
      other_of : (x y : Bool) → not x ≡ y → x ≡ not y
      other_of x y f = ground arith

  -- An upsert of a range into a sound container leaves it sound. Where the allocator refuses the first
  -- entry of some key in the range, out_of_memory_heap is reported and nothing has changed. Otherwise it
  -- succeeds, and a key then finds its first entry in the range, or else what it found before.
  pub upsert_range-finds :
      (c : Container V) (range : List (V × Bool)) (q : e.Key)
      → IsSound c
      → UpsertsRange c range q (upsert_range c range)
  unfolding upsert_range
  upsert_range-finds c [] q h = (h, inr (refl, refl, refl))
  upsert_range-finds c (w ∷ rest) q h = elim (Option-cases (stage_range empty (w ∷ rest))) [
    | inl n ↦ rw (n, upsert_range) (h, inl (starved (w ∷ rest) false (ap is_some n), refl, refl))
    | inr (t, s) ↦
        let staged = stage_range-Stages empty (w ∷ rest) t empty-IsSound s in
        let merged = merge_with_upsert-Merges c t h staged.sound in
        let granted = starved (w ∷ rest) true (ap is_some s) in
        rw (s, upsert_range)
          (
            merged.0,
            inr (granted, refl, merged.2 q ∙ ap (λ xs. or_else xs (finds c q)) (staged.finds q)),
          )
  ]

  -- An update of a range of a sound container, on fuel for a round for each entry of either and one more,
  -- leaves it sound. Where the allocator refuses the first entry of some key in the range,
  -- out_of_memory_heap is reported, and otherwise key_not_found where some key of the range is not in the
  -- container; nothing has changed then. Otherwise it succeeds, a key then finds its first entry in the
  -- range, or else what it found before, and no key is new.
  pub update_range-finds :
      (fuel : ℕ) (c : Container V) (range : List (V × Bool)) (q : e.Key)
      → IsSound c
      → c.size + length range < fuel
      → UpdatesRange c range q (update_range fuel c range)
  unfolding update_range
  update_range-finds fuel c [] q h f = (h, inr (refl, inr (refl, refl, refl)))
  update_range-finds fuel c (w ∷ rest) q h f = elim (Option-cases (stage_range empty (w ∷ rest))) [
    | inl n ↦ rw (n, update_range) (h, inl (starved (w ∷ rest) false (ap is_some n), refl, refl))
    | inr (t, s) ↦
        let staged = stage_range-Stages empty (w ∷ rest) t empty-IsSound s in
        let granted = starved (w ∷ rest) true (ap is_some s) in
        let all =
          has_all_keys_lem fuel c.root t.root h.sorted staged.sound.sorted
            (omega (arith, h.counted, staged.sound.counted, f, staged.small)) in
        elim (Bool-cases (has_all_keys fuel c.root t.root)) [
          | inl a ↦
              let merged = merge_with_upsert-Merges c t h staged.sound in
              let old = none_missing q (to_list c.root) (to_list t.root) (sym all ∙ a) in
              rw (s, a, update_range)
                (
                  merged.0,
                  inr (
                    granted,
                    inr (
                      refl,
                      merged.2 q ∙ ap (λ xs. or_else xs (finds c q)) (staged.finds q),
                      ap is_nil (merged.2 q) ∙ old,
                    ),
                  ),
                )
          | inr a ↦
              let new = kept_entry (missing_in (to_list c.root)) (to_list t.root) (sym all ∙ a) in
              let k = e.key new.0 in
              rw (s, a, update_range)
                (
                  h,
                  inr (
                    granted,
                    inl (refl, refl, (k, new.1, ap is_nil (sym (staged.finds k)) ∙ new.2)),
                  ),
                )
        ]
  ]

  -- An insertion of a range into a sound container, on fuel for two rounds for each entry and one more,
  -- returns and leaves it sound. Where the allocator refuses the first entry of some key in the range,
  -- out_of_memory_heap is reported, and otherwise key_already_exists where some key of the range is in the
  -- container; nothing has changed then. Otherwise it succeeds, and a key then finds what it found before,
  -- or its first entry in the range, and no key has both.
  pub insert_range-finds :
      (fuel : ℕ) (c : Container V) (range : List (V × Bool)) (q : e.Key)
      → IsSound c
      → 2 * (c.size + length range) < fuel
      → (result : Container V × RangeStatus) × (insert_range fuel c range ≡ some result)
        × InsertsRange c range q result
  unfolding insert_range
  insert_range-finds fuel c [] q h f =
      ((c, success), refl, (h, inr (refl, inr (refl, sym (append-nil _), or_true _))))
  insert_range-finds fuel c (w ∷ rest) q h f = elim (Option-cases (stage_range empty (w ∷ rest))) [
    | inl n ↦ (
      (c, out_of_memory_heap),
      rw (n, insert_range) refl,
      (h, inl (starved (w ∷ rest) false (ap is_some n), refl, refl)),
    )
    | inr (t, s) ↦
        let staged = stage_range-Stages empty (w ∷ rest) t empty-IsSound s in
        let granted = starved (w ∷ rest) true (ap is_some s) in
        let fits : 2 * (c.size + t.size) < fuel = omega (arith, f, staged.small) in
        let any =
          has_any_key_lem fuel c.root t.root h.sorted staged.sound.sorted
            (omega (arith, h.counted, staged.sound.counted, fits)) in
        let shared = keep (found_in (to_list t.root)) (to_list c.root) in
        elim (Bool-cases (has_any_key fuel c.root t.root)) [
          | inl a ↦
              let clash =
                kept_entry (found_in (to_list t.root)) (to_list c.root)
                  (false_of (is_nil shared) (sym any ∙ a)) in
              let k = e.key clash.0 in
              (
                (c, key_already_exists),
                rw (s, a, insert_range) refl,
                (
                  h,
                  inr (
                    granted,
                    inl (
                      refl,
                      refl,
                      (k, clash.2, ap is_nil (sym (staged.finds k)) ∙ false_of _ clash.1),
                    ),
                  ),
                ),
              )
          | inr a ↦
              let apart : Apart (to_list c.root) (to_list t.root) =
                none_found (λ x. keep (matches (e.key x)) (to_list t.root)) (to_list c.root)
                  (true_of (is_nil shared) (sym any ∙ a)) in
              let merged = merge_unique-Combines fuel c t h staged.sound apart fits in
              let lone =
                none_shared q (to_list c.root) (to_list t.root)
                  (true_of (is_nil shared) (sym any ∙ a)) in
              (
                (merged.0.0, success),
                rw (s, a, merged.1, insert_range) refl,
                (
                  merged.2.sound,
                  inr (
                    granted,
                    inr (
                      refl,
                      merged.2.union.finds q ∙ ap (λ xs. finds c q ++ xs) (staged.finds q),
                      ap (λ xs. is_nil (finds c q) || is_nil xs) (sym (staged.finds q)) ∙ lone,
                    ),
                  ),
                ),
              )
        ]
  ]
