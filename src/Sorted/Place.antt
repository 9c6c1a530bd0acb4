-- ===== src/Sorted/Place.antt =====
-- What an insertion and a removal mean: an entry placed in a sorted sequence, a key taken out of it.
use smash_table.Base.{
  ◌≡◌, refl, true, false, not, ◌&&◌, List, [], ◌∷◌, ◌++◌, arith, keep, All-append, All-imp,
  All-keep, All-keep_self, keep_every, keep_none, append_assoc, Bool-cases, inl, inr,
}
use smash_table.Order.{Entry, ◌≺◌, less_asymm, le_lt_trans, lt_le_trans}
use smash_table.Sorted.{
  IsSorted, below, above, not_below, Pivot, IsSorted-split, IsSorted-join, keep-IsSorted,
  keep-below_left, keep-below_right, keep-above_left, keep-above_right,
}

module _ {V : Type 0} ⦃e : Entry V⦄ where
  -- the sequence with `w` put where its key belongs, in place of an entry with an equivalent key
  abbrev pub place : V → List V → List V
  place w xs = keep (below (e.key w)) xs ++ w ∷ keep (above (e.key w)) xs

  -- the sequence without the entry of key `q`
  abbrev pub without : e.Key → List V → List V
  without q xs = keep (below q) xs ++ keep (above q) xs

  module _ (w : V) (xs : List V) (v : V) (ys : List V) (p : Pivot xs v ys) where
    pub place_left : w ≺ v → place w (xs ++ v ∷ ys) ≡ place w xs ++ v ∷ ys
    place_left h =
        rw
          (
            keep-below_left (e.key w) xs v ys p (less_asymm e.order _ _ h),
            keep-above_left (e.key w) xs v ys p h,
          )
          (simp append_assoc)

    pub place_right : v ≺ w → place w (xs ++ v ∷ ys) ≡ xs ++ v ∷ place w ys
    place_right h =
        rw
          (
            keep-below_right (e.key w) xs v ys p h,
            keep-above_right (e.key w) xs v ys p (less_asymm e.order _ _ h),
          )
          (simp append_assoc)

  -- a pivot whose key is equivalent to `q`
  module _ (q : e.Key) (xs : List V) (v : V) (ys : List V) (p : Pivot xs v ys)
      (low : e.less q (e.key v) ≡ false) (high : e.less (e.key v) q ≡ false) where
    pub keep-below_here : keep (below q) (xs ++ v ∷ ys) ≡ xs
    keep-below_here =
        rw (keep-below_left q xs v ys p high) (
          keep_every (below q) xs
            (All-imp (λ x a. lt_le_trans e.order _ _ _ a low) xs p.left_below))

    pub keep-above_here : keep (above q) (xs ++ v ∷ ys) ≡ ys
    keep-above_here = rw (keep-above_right q xs v ys p low) (
        keep_every (above q) ys
          (All-imp (λ y a. le_lt_trans e.order _ _ _ high a) ys p.right_above))

  module _ (q : e.Key) (xs : List V) (v : V) (ys : List V) (p : Pivot xs v ys) where
    pub without_left : e.less q (e.key v) ≡ true → without q (xs ++ v ∷ ys) ≡ without q xs ++ v ∷ ys
    without_left h =
        rw (keep-below_left q xs v ys p (less_asymm e.order _ _ h), keep-above_left q xs v ys p h)
          (simp append_assoc)

    pub without_right :
        e.less (e.key v) q ≡ true → without q (xs ++ v ∷ ys) ≡ xs ++ v ∷ without q ys
    without_right h =
        rw (keep-below_right q xs v ys p h, keep-above_right q xs v ys p (less_asymm e.order _ _ h))
          (simp append_assoc)

    pub without_here :
        e.less q (e.key v) ≡ false
        → e.less (e.key v) q ≡ false
        → without q (xs ++ v ∷ ys) ≡ xs ++ ys
    without_here low high =
        rw (keep-below_here q xs v ys p low high, keep-above_here q xs v ys p low high)

  -- what `place` and `without` give is sorted again
  pub place-IsSorted : (w : V) (xs : List V) → IsSorted xs → IsSorted (place w xs)
  place-IsSorted w xs h = IsSorted-join _ w _ (record {
    left_sorted = keep-IsSorted (below (e.key w)) xs h;
    right_sorted = keep-IsSorted (above (e.key w)) xs h;
    left_below = All-keep_self (below (e.key w)) xs;
    right_above = All-keep_self (above (e.key w)) xs;
  })

  pub without-IsSorted : (q : e.Key) (xs : List V) → IsSorted xs → IsSorted (without q xs)
  without-IsSorted q [] h = tt
  without-IsSorted q (x ∷ xs) h =
      let p = IsSorted-split [] x xs h in
      elim (Bool-cases (e.less q (e.key x))) [
        | inl t ↦ rw (without_left q [] x xs p t) h
        | inr t ↦ elim (Bool-cases (e.less (e.key x) q)) [
          | inl u ↦ rw (without_right q [] x xs p u) (
            All-append _ (keep (below q) xs) (keep (above q) xs) (All-keep _ (below q) xs h.0)
                (All-keep _ (above q) xs h.0),
            without-IsSorted q xs h.1,
          )
          | inr u ↦ rw (without_here q [] x xs p t u) h.1
        ]
      ]

  -- cutting a half-open interval out of a sorted sequence
  pub keep-cut :
      (low high : e.Key) (xs : List V)
      → IsSorted xs
      → keep (below low) xs ++ keep (not_below high) (keep (not_below low) xs)
        ≡ keep (λ x. not (below high x && not_below low x)) xs
  keep-cut low high [] h = refl
  keep-cut low high (x ∷ xs) h = elim (Bool-cases (e.less (e.key x) low)) [
    | inl t ↦ ground (arith, keep-cut low high xs h.1)
    | inr t ↦
        let early =
          keep_none (below low) xs
            (All-imp (λ y a. less_asymm e.order _ _ (le_lt_trans e.order _ _ _ t a)) xs h.0) in
        ground (arith, early, keep-cut low high xs h.1)
  ]
