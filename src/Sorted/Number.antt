-- ===== src/Sorted/Number.antt =====
-- How many entries of a sorted sequence a key finds, and how many are left.
use smash_table.Base.{
  ◌+◌, ◌≡◌, refl, ap, arith, false, not, ◌&&◌, inl, inr, List, [], ◌∷◌, ◌++◌, All-imp, keep,
  keep_none, length, length-append, All, or_else, or_else_nil, append-nil, keep-append, is_nil,
  Bool-cases, if◌then◌else◌,
}
use smash_table.Order.{Entry, ◌≺◌, less_asymm, le_lt_trans, lt_le_trans}
use smash_table.Sorted.{IsSorted, IsSorted-split, below, above, matches}
use smash_table.Sorted.Place.{place, without}
use smash_table.Sorted.Union.{length-cut, not_below-above}

module _ {V : Type 0} ⦃e : Entry V⦄ where
  pub length-matches :
      (q : e.Key) (xs : List V)
      → IsSorted xs
      → length (keep (matches q) xs) ≡ (if is_nil (keep (matches q) xs) then 0 else 1)
  length-matches q [] o = refl
  length-matches q (x ∷ xs) o = elim (Bool-cases (matches q x)) [
    | inr t ↦ rw t (length-matches q xs o.1)
    | inl t ↦
        let low : e.less q (e.key x) ≡ false = ground (arith, t) in
        let rest = keep_none (matches q) xs (
          All-imp
            (λ z a.
              ap (λ c. c && not (e.less (e.key z) q))
                (ap not (le_lt_trans e.order _ _ _ (ground (arith, t)) a)))
            xs o.0) in
        rw (t, rest) refl
  ]

  parts :
      (q : e.Key) (xs : List V)
      → length (keep (below q) xs) + length (keep (above q) xs) + length (keep (matches q) xs)
        ≡ length xs
  parts q [] = refl
  parts q (x ∷ xs) = elim (Bool-cases (e.less q (e.key x))) [
    | inl t ↦ rw (t, less_asymm e.order _ _ t) (omega (arith, parts q xs))
    | inr t ↦ elim (Bool-cases (e.less (e.key x) q)) [
      | inl u ↦ rw (t, u) (omega (arith, parts q xs))
      | inr u ↦ rw (t, u) (omega (arith, parts q xs))
    ]
  ]

  pub length-without :
      (q : e.Key) (xs : List V) → length (without q xs) + length (keep (matches q) xs) ≡ length xs
  length-without q xs =
      omega (arith, length-append (keep (below q) xs) (keep (above q) xs), parts q xs)

  pub length-place :
      (w : V) (xs : List V) → keep (matches (e.key w)) xs ≡ [] → length (place w xs) ≡ length xs + 1
  length-place w xs n =
      let k = e.key w in
      let same = ap length (not_below-above k xs n) in
      omega (arith, length-cut k xs, length-append (keep (below k) xs) (w ∷ keep (above k) xs))

  -- a key that is not above `v` finds nothing above it, and one that is not below finds nothing below
  pub matches_none_above :
      (q : e.Key) (v : V) (ys : List V)
      → e.less (e.key v) q ≡ false
      → All (λ y. v ≺ y) ys
      → keep (matches q) ys ≡ []
  matches_none_above q v ys h a =
      keep_none (matches q) ys
        (All-imp (λ y b. let far = le_lt_trans e.order q _ _ h b in ground (arith, far)) ys a)

  pub matches_none_below :
      (q : e.Key) (v : V) (xs : List V)
      → e.less q (e.key v) ≡ false
      → All (λ x. x ≺ v) xs
      → keep (matches q) xs ≡ []
  matches_none_below q v xs h a =
      keep_none (matches q) xs
        (All-imp (λ x b. let far = lt_le_trans e.order _ _ q b h in ground (arith, far)) xs a)

  -- a key finds at most one of the parts around a root
  module _ (q : e.Key) (xs : List V) (v : V) (ys : List V) (o : IsSorted (xs ++ v ∷ ys)) where
    pub matches_parts :
        (keep (matches q) (xs ++ v ∷ ys)
          ≡ or_else
              (or_else (keep (matches q) xs) (keep (matches q) ys))
              (keep (matches q) (v ∷ [])))
        × (keep (matches q) (xs ++ v ∷ ys)
            ≡ or_else
                (keep (matches q) (v ∷ []))
                (or_else (keep (matches q) ys) (keep (matches q) xs)))
    matches_parts =
        let p = IsSorted-split xs v ys o in
        let cut = keep-append (matches q) xs (v ∷ ys) in
        elim (Bool-cases (e.less q (e.key v))) [
          | inl t ↦
              let far = matches_none_above q v ys (less_asymm e.order _ _ t) p.right_above in
              rw (cut, t, far) (simp (append-nil, or_else_nil), simp append-nil)
          | inr t ↦
              let left = matches_none_below q v xs t p.left_below in
              elim (Bool-cases (e.less (e.key v) q)) [
                | inl u ↦ rw (cut, left, t, u) (simp or_else_nil, simp or_else_nil)
                | inr u ↦
                    let right = matches_none_above q v ys u p.right_above in
                    rw (cut, left, t, u, right) (refl, refl)
              ]
        ]
