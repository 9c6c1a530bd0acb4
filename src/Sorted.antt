-- ===== src/Sorted.antt =====
-- Sorted sequences of entries, and what the tests on keys keep of them around a pivot.
pub mod Place
pub mod Lookup
pub mod Union
pub mod Number
use smash_table.Base.{
  ◌≡◌, refl, Bool, true, false, not, ◌&&◌, List, [], ◌∷◌, ◌++◌, arith, ap, All, keep, All-append,
  All-split, All-imp, All-keep, All-keep_self, keep_every, keep_none, keep-append, append-nil,
  append_assoc, Bool-cases, inl, inr,
}
use smash_table.Order.{Entry, ◌≺◌, less_asymm, equivalent, le_lt_trans, lt_le_trans}

module _ {V : Type 0} ⦃e : Entry V⦄ where
  -- ascending, with no two equivalent keys
  abbrev pub IsSorted : List V → Type 0
  IsSorted [] = Unit
  IsSorted (x ∷ xs) = All (λ y. x ≺ y) xs × IsSorted xs

  -- the tests on keys that the descents make
  abbrev pub below : e.Key → V → Bool
  below q x = e.less (e.key x) q

  abbrev pub above : e.Key → V → Bool
  above q x = e.less q (e.key x)

  abbrev pub not_below : e.Key → V → Bool
  not_below q x = not (e.less (e.key x) q)

  abbrev pub matches : e.Key → V → Bool
  matches q x = equivalent e.order q (e.key x)

  pub record Pivot (xs : List V) (v : V) (ys : List V) : Type 0 where
    pub left_sorted : IsSorted xs
    pub right_sorted : IsSorted ys
    pub left_below : All (λ x. x ≺ v) xs
    pub right_above : All (λ y. v ≺ y) ys

  pub IsSorted-split : (xs : List V) (v : V) (ys : List V) → IsSorted (xs ++ v ∷ ys) → Pivot xs v ys
  IsSorted-split [] v ys h = record {
    left_sorted = tt;
    right_sorted = h.1;
    left_below = tt;
    right_above = h.0;
  }
  IsSorted-split (x ∷ xs) v ys h =
      let r = IsSorted-split xs v ys h.1 in
      let a = All-split _ xs (v ∷ ys) h.0 in
      record {
        left_sorted = (a.0, r.left_sorted);
        right_sorted = r.right_sorted;
        left_below = (a.1.0, r.left_below);
        right_above = r.right_above;
      }

  pub IsSorted-join : (xs : List V) (v : V) (ys : List V) → Pivot xs v ys → IsSorted (xs ++ v ∷ ys)
  IsSorted-join [] v ys p = (p.right_above, p.right_sorted)
  IsSorted-join (x ∷ xs) v ys p = (
    All-append _ xs (v ∷ ys) p.left_sorted.0 (
      p.left_below.0,
      All-imp (λ y h. e.order.less_trans _ _ _ p.left_below.0 h) ys p.right_above,
    ),
    IsSorted-join xs v ys (record {
      left_sorted = p.left_sorted.1;
      right_sorted = p.right_sorted;
      left_below = p.left_below.1;
      right_above = p.right_above;
    }),
  )

  pub keep-IsSorted : (p : V → Bool) (xs : List V) → IsSorted xs → IsSorted (keep p xs)
  keep-IsSorted p [] h = tt
  keep-IsSorted p (x ∷ xs) h = elim (Bool-cases (p x)) [
    | inl t ↦ rw t (All-keep _ p xs h.0, keep-IsSorted p xs h.1)
    | inr t ↦ rw t (keep-IsSorted p xs h.1)
  ]

  -- around a pivot, one side of a test is decided whole
  module _ (q : e.Key) (xs : List V) (v : V) (ys : List V) (p : Pivot xs v ys) where
    pub keep-below_left :
        e.less (e.key v) q ≡ false → keep (below q) (xs ++ v ∷ ys) ≡ keep (below q) xs
    keep-below_left h = rw (
      keep-append,
      h,
      keep_none (below q) ys (
          All-imp (λ y a. less_asymm e.order _ _ (le_lt_trans e.order _ _ _ h a)) ys p.right_above),
      append-nil,
    )

    pub keep-below_right :
        e.less (e.key v) q ≡ true → keep (below q) (xs ++ v ∷ ys) ≡ xs ++ v ∷ keep (below q) ys
    keep-below_right h = rw (
      keep-append,
      h,
      keep_every (below q) xs (All-imp (λ x a. e.order.less_trans _ _ _ a h) xs p.left_below),
    )

    pub keep-above_left :
        e.less q (e.key v) ≡ true → keep (above q) (xs ++ v ∷ ys) ≡ keep (above q) xs ++ v ∷ ys
    keep-above_left h = rw (
      keep-append,
      h,
      keep_every (above q) ys (All-imp (λ y a. e.order.less_trans _ _ _ h a) ys p.right_above),
    )

    pub keep-above_right :
        e.less q (e.key v) ≡ false → keep (above q) (xs ++ v ∷ ys) ≡ keep (above q) ys
    keep-above_right h = rw (
      keep-append,
      h,
      keep_none (above q) xs
          (All-imp (λ x a. less_asymm e.order _ _ (lt_le_trans e.order _ _ _ a h)) xs p.left_below),
    )

    pub keep-matches_left :
        e.less q (e.key v) ≡ true → keep (matches q) (xs ++ v ∷ ys) ≡ keep (matches q) xs
    keep-matches_left h = rw (
      keep-append,
      h,
      keep_none (matches q) ys (
          All-imp (λ y a. ap (λ b. not b && not (below q y)) (e.order.less_trans _ _ _ h a)) ys
            p.right_above),
      append-nil,
    )

    pub keep-matches_right :
        e.less (e.key v) q ≡ true → keep (matches q) (xs ++ v ∷ ys) ≡ keep (matches q) ys
    keep-matches_right h = rw (
      keep-append,
      less_asymm e.order _ _ h,
      h,
      keep_none (matches q) xs (
          All-imp
            (λ x a.
              let far = e.order.less_trans _ _ _ a h in
              let near = less_asymm e.order _ _ far in ground arith)
            xs p.left_below),
    )

    pub keep-matches_here :
        e.less q (e.key v) ≡ false
        → e.less (e.key v) q ≡ false
        → keep (matches q) (xs ++ v ∷ ys) ≡ v ∷ keep (matches q) ys
    keep-matches_here low high = rw (
      keep-append,
      low,
      high,
      keep_none (matches q) xs (
          All-imp
            (λ x a.
              let far = lt_le_trans e.order _ _ _ a low in
              let near = less_asymm e.order _ _ far in ground arith)
            xs p.left_below),
    )

    pub keep-not_below_left :
        e.less (e.key v) q ≡ false
        → keep (not_below q) (xs ++ v ∷ ys) ≡ keep (not_below q) xs ++ v ∷ ys
    keep-not_below_left h = rw (
      keep-append,
      h,
      keep_every (not_below q) ys (
          All-imp (λ y a. ap not (less_asymm e.order _ _ (le_lt_trans e.order _ _ _ h a))) ys
            p.right_above),
    )

    pub keep-not_below_right :
        e.less (e.key v) q ≡ true → keep (not_below q) (xs ++ v ∷ ys) ≡ keep (not_below q) ys
    keep-not_below_right h = rw (
      keep-append,
      h,
      keep_none (not_below q) xs
          (All-imp (λ x a. ap not (e.order.less_trans _ _ _ a h)) xs p.left_below),
    )
