-- ===== src/Sorted/Lookup.antt =====
-- What a key finds in a sequence after `place` and `without`.
use smash_table.Sorted.Place.{place, without}
use smash_table.Base.{
  ◌≡◌, refl, ◌∙◌, true, false, not, ◌⊎◌, inl, inr, if◌then◌else◌, List, [], ◌∷◌, ◌++◌, arith,
  All-of, keep, keep-append, keep-keep, keep_none, keep_congr, append-nil, Bool-cases, or_else,
  is_nil, first_or, first_or_nonempty, first_or_empty, none,
}
use smash_table.Order.{Comparator, Entry, le_lt_trans, lt_le_trans, equivalent}
use smash_table.Sorted.{below, above, matches, IsSorted, IsSorted-split, keep-matches_here}

pub order_cases :
    {K : Type 0} (o : Comparator K) (q k : K)
    → (equivalent o q k ≡ true)
      ⊎ ((equivalent o q k ≡ false) × ((o.less q k ≡ true) ⊎ (o.less k q ≡ true)))
order_cases o q k = elim (Bool-cases (o.less q k)) [
  | inl t ↦ inr (ground (arith, t), inl t)
  | inr t ↦ elim (Bool-cases (o.less k q)) [
    | inl u ↦ inr (ground (arith, t, u), inr u)
    | inr u ↦ inl (ground (arith, t, u))
  ]
]

module _ {V : Type 0} ⦃e : Entry V⦄ (q k : e.Key) (xs : List V) where
  -- the entries that `q` finds among those below `k`, and among those above `k`
  pub matches-below-equivalent :
      equivalent e.order q k ≡ true → keep (matches q) (keep (below k) xs) ≡ []
  matches-below-equivalent h =
      keep-keep (matches q) (below k) xs
      ∙ keep_none _ xs (All-of _ xs (λ x. ground (arith, h, lt_le_trans e.order (e.key x) k q)))

  pub matches-above-equivalent :
      equivalent e.order q k ≡ true → keep (matches q) (keep (above k) xs) ≡ []
  matches-above-equivalent h =
      keep-keep (matches q) (above k) xs
      ∙ keep_none _ xs (All-of _ xs (λ x. ground (arith, h, le_lt_trans e.order q k (e.key x))))

  pub matches-below_less :
      e.less q k ≡ true → keep (matches q) (keep (below k) xs) ≡ keep (matches q) xs
  matches-below_less h =
      keep-keep (matches q) (below k) xs
      ∙ keep_congr _ _ xs (All-of _ xs (λ x. ground (arith, h, le_lt_trans e.order (e.key x) q k)))

  pub matches-above_less : e.less q k ≡ true → keep (matches q) (keep (above k) xs) ≡ []
  matches-above_less h =
      keep-keep (matches q) (above k) xs
      ∙ keep_none _ xs (All-of _ xs (λ x. ground (arith, h, e.order.less_trans q k (e.key x))))

  pub matches-below_greater : e.less k q ≡ true → keep (matches q) (keep (below k) xs) ≡ []
  matches-below_greater h =
      keep-keep (matches q) (below k) xs
      ∙ keep_none _ xs (All-of _ xs (λ x. ground (arith, h, e.order.less_trans (e.key x) k q)))

  pub matches-above_greater :
      e.less k q ≡ true → keep (matches q) (keep (above k) xs) ≡ keep (matches q) xs
  matches-above_greater h =
      keep-keep (matches q) (above k) xs
      ∙ keep_congr _ _ xs (All-of _ xs (λ x. ground (arith, h, lt_le_trans e.order k q (e.key x))))

module _ {V : Type 0} ⦃e : Entry V⦄ where
  -- a key finds the entry that was placed if it is equivalent, and else what it found before
  pub matches-place :
      (q : e.Key) (w : V) (xs : List V)
      → keep (matches q) (place w xs) ≡ (if matches q w then w ∷ [] else keep (matches q) xs)
  matches-place q w xs =
      let k = e.key w in
      let cut = keep-append (matches q) (keep (below k) xs) (w ∷ keep (above k) xs) in
      elim (order_cases e.order q k) [
        | inl h ↦
            rw (cut, matches-below-equivalent q k xs h, matches-above-equivalent q k xs h, h) refl
        | inr h ↦ elim h.1 [
          | inl l ↦
              rw (cut, matches-below_less q k xs l, matches-above_less q k xs l, h.0)
                (simp append-nil)
          | inr l ↦
              rw (cut, matches-below_greater q k xs l, matches-above_greater q k xs l, h.0) refl
        ]
      ]

  -- a key finds nothing where the entry of an equivalent key was taken out, and else what it found
  -- before
  pub matches-without :
      (q k : e.Key) (xs : List V)
      → keep (matches q) (without k xs)
        ≡ (if equivalent e.order q k then [] else keep (matches q) xs)
  matches-without q k xs =
      let cut = keep-append (matches q) (keep (below k) xs) (keep (above k) xs) in
      elim (order_cases e.order q k) [
        | inl h ↦
            rw (cut, matches-below-equivalent q k xs h, matches-above-equivalent q k xs h, h) refl
        | inr h ↦ elim h.1 [
          | inl l ↦
              rw (cut, matches-below_less q k xs l, matches-above_less q k xs l, h.0)
                (simp append-nil)
          | inr l ↦
              rw (cut, matches-below_greater q k xs l, matches-above_greater q k xs l, h.0) refl
        ]
      ]

  -- equivalent keys find the same
  pub matches_same :
      (q k : e.Key) (xs : List V)
      → equivalent e.order q k ≡ true
      → keep (matches q) xs ≡ keep (matches k) xs
  matches_same q k xs h = keep_congr (matches q) (matches k) xs (
      All-of _ xs (λ x. ground (
        arith,
        h,
        le_lt_trans e.order q k (e.key x),
        le_lt_trans e.order k q (e.key x),
        lt_le_trans e.order (e.key x) q k,
        lt_le_trans e.order (e.key x) k q,
      )))

  -- one round of a merge, as a key sees it: the entry `v` leaves `ys`, and comes to `xs` if its key is
  -- new there
  pub merge_step :
      (q : e.Key) (v : V) (xs l r : List V)
      → IsSorted (l ++ v ∷ r)
      → first_or
          (or_else
            (keep
              (matches q)
              (if not (is_nil (keep (matches (e.key v)) xs)) then xs else place v xs))
            (keep (matches q) (without (e.key v) (l ++ v ∷ r))))
          none
        ≡ first_or (or_else (keep (matches q) xs) (keep (matches q) (l ++ v ∷ r))) none
  merge_step q v xs l r o =
      let k = e.key v in
      let gone = matches-without q k (l ++ v ∷ r) in
      let placed = matches-place q v xs in
      elim (Bool-cases (equivalent e.order q k)) [
        | inr n ↦ elim (Bool-cases (not (is_nil (keep (matches k) xs)))) [
          | inl p ↦ rw (p, gone, n) refl
          | inr p ↦ rw (p, gone, placed, n) refl
        ]
        | inl n ↦
            let same = matches_same q k xs n in
            let here =
              keep-matches_here q l v r (IsSorted-split l v r o) (ground (arith, n))
                (ground (arith, n)) in
            elim (Bool-cases (not (is_nil (keep (matches k) xs)))) [
              | inl p ↦ rw (p, gone, n, same) (first_or_nonempty (keep (matches k) xs) _ _ p)
              | inr p ↦
                  rw (p, gone, placed, n, same, here) (first_or_empty (keep (matches k) xs) v _ p)
            ]
      ]
