-- ===== src/AvlTree/Container/Bulk/Known.antt =====
-- Which keys two sequences share, for `has_any_key` and `has_all_keys` of
-- include/smashtable/basic_avl_tree.hpp.
use smash_table.Base.{
  ◌||◌, ◌≡◌, refl, sym, ◌∙◌, ap, Bool, true, false, List, [], ◌∷◌, keep, or_else, is_nil, inl, inr,
  Bool-cases,
}
use smash_table.Order.{Entry}
use smash_table.Sorted.{matches}
use smash_table.Sorted.Lookup.{matches_same}
use smash_table.AvlTree.Cursor.Keys.{found_in, missing_in}

module _ {V : Type 0} ⦃e : Entry V⦄ where
  matches_self : (x : V) → matches (e.key x) x ≡ true
  matches_self x = rw (e.order.less_irrefl (e.key x)) refl

  -- an entry of the sequence that the test keeps, found by its key
  pub kept_entry :
      (p : V → Bool) (xs : List V)
      → is_nil (keep p xs) ≡ false
      → (x : V) × (p x ≡ true) × (is_nil (keep (matches (e.key x)) xs) ≡ false)
  kept_entry p [] h = absurd (cc h)
  kept_entry p (x ∷ xs) h = elim (Bool-cases (p x)) [
    | inl k ↦ (x, k, rw (matches_self x) refl)
    | inr k ↦
        let further = kept_entry p xs (rw k at h) in
        (further.0, further.1, still (matches (e.key further.0)) x xs further.2)
  ]
    where
      still :
          (t : V → Bool) (y : V) (ys : List V)
          → is_nil (keep t ys) ≡ false
          → is_nil (keep t (y ∷ ys)) ≡ false
      still t y ys f = elim (Bool-cases (t y)) [ inl b ↦ rw b refl | inr b ↦ rw b f ]

  -- no entry of the second sequence has a key that is new
  pub none_missing :
      (q : e.Key) (xs ys : List V)
      → is_nil (keep (missing_in xs) ys) ≡ true
      → is_nil (or_else (keep (matches q) ys) (keep (matches q) xs)) ≡ is_nil (keep (matches q) xs)
  none_missing q xs [] h = refl
  none_missing q xs (y ∷ ys) h = elim (Bool-cases (missing_in xs y)) [
    | inl m ↦ let never : false ≡ true = rw m at h in absurd (cc never)
    | inr m ↦ elim (Bool-cases (matches q y)) [
      | inl t ↦ rw t (sym (ap is_nil (matches_same q (e.key y) xs t) ∙ m))
      | inr t ↦ rw t (none_missing q xs ys (rw m at h))
    ]
  ]

  -- no key is in both sequences
  pub none_shared :
      (q : e.Key) (xs ys : List V)
      → is_nil (keep (found_in ys) xs) ≡ true
      → is_nil (keep (matches q) xs) || is_nil (keep (matches q) ys) ≡ true
  none_shared q [] ys h = refl
  none_shared q (x ∷ xs) ys h = elim (Bool-cases (missing_in ys x)) [
    | inl m ↦ elim (Bool-cases (matches q x)) [
      | inl t ↦ rw t (ap is_nil (matches_same q (e.key x) ys t) ∙ m)
      | inr t ↦ rw t (none_shared q xs ys (rw m at h))
    ]
    | inr m ↦ let never : false ≡ true = rw m at h in absurd (cc never)
  ]
