-- ===== src/Sorted/Union.antt =====
-- What a merge of two sequences without a common key means.
use smash_table.Base.{
  Bool, All-split, ◌+◌, ◌≡◌, refl, ◌∙◌, ap, false, ◌⊎◌, inl, inr, List, [], ◌∷◌, ◌++◌, arith, All,
  All-append, All-imp, All-keep, All-keep_self, keep, Bool-cases, length, length-append,
}
use smash_table.Order.{Entry, ◌≺◌, less_asymm}
use smash_table.Sorted.{
  IsSorted, Pivot, IsSorted-split, IsSorted-join, below, above, not_below, matches,
  keep-matches_left, keep-matches_right, keep-matches_here,
}
use smash_table.Sorted.Lookup.{
  order_cases, matches-below_less, matches-above_greater, matches-above-equivalent, matches_same,
}

module _ {V : Type 0} ⦃e : Entry V⦄ where
  -- no key of the first sequence is in the second
  abbrev pub Apart : List V → List V → Type 0
  Apart xs ys = All (λ x. keep (matches (e.key x)) ys ≡ []) xs

  -- `zs` is sorted, has the entries of both and no other, and a key finds in it what it found in either
  pub record Unites (xs ys zs : List V) : Type 1 where
    pub sorted : IsSorted zs
    pub number : length zs ≡ length xs + length ys
    pub from_both : (P : V → Type 0) → All P xs → All P ys → All P zs
    pub finds : (q : e.Key) → keep (matches q) zs ≡ keep (matches q) xs ++ keep (matches q) ys

  keep-keep_nil : (p q : V → Bool) (ys : List V) → keep p ys ≡ [] → keep p (keep q ys) ≡ []
  keep-keep_nil p q [] h = refl
  keep-keep_nil p q (y ∷ ys) h = elim (Bool-cases (p y)) [
    | inl t ↦ let never = rw t at h in absurd (ground (arith, never))
    | inr t ↦ let h' : keep p ys ≡ [] = rw t at h in ground (arith, t, keep-keep_nil p q ys h')
  ]

  pub Apart-keep : (p : V → Bool) (xs ys : List V) → Apart xs ys → Apart xs (keep p ys)
  Apart-keep p xs ys h = All-imp (λ x a. keep-keep_nil (matches (e.key x)) p ys a) xs h

  -- above a key that is not there is the same as not below it
  pub not_below-above :
      (k : e.Key) (ys : List V)
      → keep (matches k) ys ≡ []
      → keep (not_below k) ys ≡ keep (above k) ys
  not_below-above k [] h = refl
  not_below-above k (y ∷ ys) h = elim (Bool-cases (e.less k (e.key y))) [
    | inl t ↦
        let u = less_asymm e.order _ _ t in
        let h' : keep (matches k) ys ≡ [] = rw t at h in
        rw (t, u) (ap (λ xs. y ∷ xs) (not_below-above k ys h'))
    | inr t ↦ elim (Bool-cases (e.less (e.key y) k)) [
      | inl u ↦
          let h' : keep (matches k) ys ≡ [] = rw (t, u) at h in rw (t, u) (not_below-above k ys h')
      | inr u ↦ let never = rw (t, u) at h in absurd (ground (arith, never))
    ]
  ]

  pub length-cut :
      (k : e.Key) (ys : List V)
      → length ys ≡ length (keep (below k) ys) + length (keep (not_below k) ys)
  length-cut k [] = refl
  length-cut k (y ∷ ys) = ground (arith, length-cut k ys)

  -- a key is missing from one of the two
  pub Apart-cases :
      (q : e.Key) (xs ys : List V)
      → Apart xs ys
      → (keep (matches q) xs ≡ []) ⊎ (keep (matches q) ys ≡ [])
  Apart-cases q [] ys h = inl refl
  Apart-cases q (x ∷ xs) ys h = elim (Bool-cases (matches q x)) [
    | inl t ↦ inr (matches_same q (e.key x) ys t ∙ h.0)
    | inr t ↦ elim (Apart-cases q xs ys h.1) [ inl n ↦ inl (rw t n) | inr n ↦ inr n ]
  ]

  keep_tail : (p : V → Bool) (y : V) (ys : List V) → keep p (y ∷ ys) ≡ [] → keep p ys ≡ []
  keep_tail p y ys h = ground arith

  pub Apart-sym : (xs ys : List V) → Apart xs ys → Apart ys xs
  Apart-sym xs [] a = tt
  Apart-sym xs (y ∷ ys) a = (
    elim (Apart-cases (e.key y) xs (y ∷ ys) a) [
      | inl n ↦ n
      | inr n ↦
          let self = e.order.less_irrefl (e.key y) in
          let never = rw (self) at n in absurd (ground (arith, never))
    ],
    Apart-sym xs ys (All-imp (λ x b. keep_tail (matches (e.key x)) y ys b) xs a),
  )

  -- Around a root whose key is not in the other sequence: what lies below it and what lies above it
  -- unite by themselves.
  pub Unites-around :
      (xl : List V) (v : V) (xr ys zl zr : List V)
      → IsSorted (xl ++ v ∷ xr)
      → IsSorted ys
      → keep (matches (e.key v)) ys ≡ []
      → Unites xl (keep (below (e.key v)) ys) zl
      → Unites xr (keep (above (e.key v)) ys) zr
      → Unites (xl ++ v ∷ xr) ys (zl ++ v ∷ zr)
  Unites-around xl v xr ys zl zr o oy miss ul ur =
      let k = e.key v in
      let p = IsSorted-split xl v xr o in
      let cut =
        length-cut k ys
        ∙ ap (λ xs. length (keep (below k) ys) + length xs) (not_below-above k ys miss) in
      let p' : Pivot zl v zr = record {
        left_sorted = ul.sorted;
        right_sorted = ur.sorted;
        left_below = ul.from_both (λ x. x ≺ v) p.left_below (All-keep_self (below k) ys);
        right_above = ur.from_both (λ x. v ≺ x) p.right_above (All-keep_self (above k) ys);
      } in
      record {
        sorted = IsSorted-join zl v zr p';
        number =
            omega
              (arith, ul.number, ur.number, length-append xl (v ∷ xr), length-append zl (v ∷ zr));
        from_both = λ P hx hy.
            let s = All-split P xl (v ∷ xr) hx in
            All-append P zl (v ∷ zr) (ul.from_both P s.0 (All-keep P (below k) ys hy))
              (s.1.0, ur.from_both P s.1.1 (All-keep P (above k) ys hy));
        finds = λ q. elim (order_cases e.order q k) [
          | inl h ↦
              let low : e.less q k ≡ false = ground (arith, h) in
              let high : e.less k q ≡ false = ground (arith, h) in
              rw
                (
                  keep-matches_here q zl v zr p' low high,
                  keep-matches_here q xl v xr p low high,
                  ur.finds q,
                  matches-above-equivalent q k ys h,
                  matches_same q k ys h,
                  miss,
                )
                refl
          | inr h ↦ elim h.1 [
            | inl l ↦
                rw
                  (
                    keep-matches_left q zl v zr p' l,
                    keep-matches_left q xl v xr p l,
                    ul.finds q,
                    matches-below_less q k ys l,
                  )
                  refl
            | inr l ↦
                rw
                  (
                    keep-matches_right q zl v zr p' l,
                    keep-matches_right q xl v xr p l,
                    ur.finds q,
                    matches-above_greater q k ys l,
                  )
                  refl
          ]
        ];
      }
