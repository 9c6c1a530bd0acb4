-- ===== src/Monotonic/Transaction/Reserving.antt =====
-- The first pass of `stage` and its undoing, key by key, include/smashtable/monotonic_store.hpp.
use smash_table.Base.{
  ℕ, suc, ◌+◌, ◌-◌, ◌≤◌, ◌≡◌, ◌⊎◌, refl, sym, ◌∙◌, ap, arith, Bool, true, false, Bool-cases,
  Option-cases, inl, inr, if◌then◌else◌, List, [], ◌∷◌, Option, none, some,
}
use smash_table.Monotonic.{KeyEquality, Item}
use smash_table.Monotonic.Index.{Index, lookup, put, set, lookup-put, lookup-set, lookup_same}
use smash_table.Monotonic.Chain.{Chain, chain_discard}
use smash_table.Monotonic.Chain.Versions.{carried, chain_discard_absent}
use smash_table.Monotonic.Transaction.{unstage, take_keys, reservation, reserve_slots, Reserved}

-- whether a key is among the listed ones
abbrev pub lists : {K : Type 0} → ⦃e : KeyEquality K⦄ → List K → K → Bool
lists [] p = false
lists ⦃e⦄ (q ∷ qs) p = if e.same q p then true else lists qs p

-- the keys that the first pass went over before it ended or was refused
abbrev pub processed_keys : {K : Type 0} → List K → ℕ → Option ℕ → List K
processed_keys qs index none = qs
processed_keys qs index (some at) = take_keys (at - index) qs

module _ {K : Type 0} ⦃e : KeyEquality K⦄ where
  -- the key that was taken is the first of those gone over
  processed_first :
      (q : K) (qs : List K) (index : ℕ) (at : Option ℕ)
      → ((n : ℕ) → at ≡ some n → index + 1 ≤ n)
      → processed_keys (q ∷ qs) index at ≡ q ∷ processed_keys qs (index + 1) at
  processed_first q qs index none later = refl
  processed_first q qs index (some n) later =
      let past = later n refl in
      let one : n - index ≡ suc (n - (index + 1)) = omega (arith, past) in rw one refl

  lists_later : (q : K) (qs : List K) (p : K) → lists qs p ≡ true → lists (q ∷ qs) p ≡ true
  lists_later q qs p h = ground (arith, h)

module _ {K V : Type 0} ⦃e : KeyEquality K⦄ where
  -- the index after one key's version was discarded, at any key
  discard_at :
      (m : Index K (Chain V)) (q : K) (g : ℕ) (p : K)
      → lookup (set q (chain_discard (lookup m q) g).chain m) p
        ≡ (if e.same q p then (chain_discard (lookup m p) g).chain else lookup m p)
  discard_at m q g p = elim (Bool-cases (e.same q p)) [
    | inl t ↦
        rw (lookup-set m q (chain_discard (lookup m q) g).chain p, t, lookup_same m q p t) refl
    | inr t ↦ rw (lookup-set m q (chain_discard (lookup m q) g).chain p, t) refl
  ]

  -- a key without a version of the generation is left alone
  pub unstage_absent :
      (qs : List K) (g : ℕ) (m : Index K (Chain V)) (p : K)
      → carried g (lookup m p) ≡ false
      → lookup (unstage qs g m) p ≡ lookup m p
  unstage_absent [] g m p a = refl
  unstage_absent (q ∷ qs) g m p a =
      let m' = set q (chain_discard (lookup m q) g).chain m in
      let same : lookup m' p ≡ lookup m p = elim (Bool-cases (e.same q p)) [
        | inl t ↦ discard_at m q g p ∙ rw t (chain_discard_absent (lookup m p) g a)
        | inr t ↦ discard_at m q g p ∙ rw t refl
      ] in
      unstage_absent qs g m' p (ap (carried g) same ∙ a) ∙ same

  -- a listed key is left with what one discarding leaves of it, where that has no version more
  pub unstage_listed :
      (qs : List K) (g : ℕ) (m : Index K (Chain V)) (p : K) (restored : Option (Chain V))
      → lists qs p ≡ true
      → carried g restored ≡ false
      → (chain_discard (lookup m p) g).chain ≡ restored
      → lookup (unstage qs g m) p ≡ restored
  unstage_listed [] g m p restored l a d = absurd (ground (arith, l))
  unstage_listed (q ∷ qs) g m p restored l a d =
      let m' = set q (chain_discard (lookup m q) g).chain m in
      elim (Bool-cases (e.same q p)) [
        | inl t ↦
            let same : lookup m' p ≡ restored = discard_at m q g p ∙ rw t d in
            unstage_absent qs g m' p (ap (carried g) same ∙ a) ∙ same
        | inr t ↦
            let same : lookup m' p ≡ lookup m p = discard_at m q g p ∙ rw t refl in
            unstage_listed qs g m' p restored (rw t at l) a
              (ap (λ x. (chain_discard x g).chain) same ∙ d)
      ]

module _ {K V : Type 0} ⦃e : KeyEquality K⦄ ⦃i : Item K V⦄ where
  -- a key that had no entry and was given one
  pub record Filled (g : ℕ) (m m' : Index K (Chain V)) (p : K) : Type 0 where
    pub key : K
    pub was : lookup m p ≡ none
    pub now : lookup m' p ≡ some (reservation key g)

  -- the three ways that the pass takes its next key
  module _ (q : K) (qs : List K) (index g : ℕ) (slot : ℕ → Bool) (needed : ℕ)
      (m : Index K (Chain V)) where
    pub reserve_present :
        (c : Chain V)
        → lookup m q ≡ some c
        → reserve_slots (q ∷ qs) index g slot needed m
          ≡ reserve_slots qs (index + 1) g slot (needed + 1) m
    unfolding reserve_slots
    reserve_present c h = rw (h, reserve_slots) refl

    pub reserve_filled :
        lookup m q ≡ none
        → slot index ≡ true
        → reserve_slots (q ∷ qs) index g slot needed m
          ≡ reserve_slots qs (index + 1) g slot needed (put q (reservation q g) m)
    unfolding reserve_slots
    reserve_filled h t = rw (h, t, reserve_slots) refl

    pub reserve_refused :
        lookup m q ≡ none
        → slot index ≡ false
        → reserve_slots (q ∷ qs) index g slot needed m
          ≡ record { entries = m; spare_versions_needed = needed; refused_at = some index }
    unfolding reserve_slots
    reserve_refused h t = rw (h, t, reserve_slots) refl

  refused_at_le :
      (qs : List K) (index g : ℕ) (slot : ℕ → Bool) (needed : ℕ) (m : Index K (Chain V)) (at : ℕ)
      → (reserve_slots qs index g slot needed m).refused_at ≡ some at
      → index ≤ at
  unfolding reserve_slots
  refused_at_le [] index g slot needed m at r = absurd (ground (arith, r))
  refused_at_le (q ∷ qs) index g slot needed m at r = elim (Option-cases (lookup m q)) [
    | inl n ↦ elim (Bool-cases (slot index)) [
      | inl t ↦
          let later =
            refused_at_le qs (index + 1) g slot needed (put q (reservation q g) m) at
              (sym (ap (λ x. x.refused_at) (reserve_filled q qs index g slot needed m n t)) ∙ r) in
          omega (arith, later)
      | inr t ↦
          let here =
            sym (ap (λ x. x.refused_at) (reserve_refused q qs index g slot needed m n t)) ∙ r in
          ground (arith, here)
    ]
    | inr c ↦
        let later =
          refused_at_le qs (index + 1) g slot (needed + 1) m at (
            sym (ap (λ x. x.refused_at) (reserve_present q qs index g slot needed m c.0 c.1))
            ∙ r) in
        omega (arith, later)
  ]

  -- A key is as it was before the pass, or had no entry, was gone over, and has a reserved one.
  abbrev pub ReservedAt : List K → ℕ → ℕ → Index K (Chain V) → Reserved K V → K → Type 0
  ReservedAt qs index g m r p =
      (lookup r.entries p ≡ lookup m p)
      ⊎ (Filled g m r.entries p × (lists (processed_keys qs index r.refused_at) p ≡ true))

  pub reserve_at :
      (qs : List K) (index g : ℕ) (slot : ℕ → Bool) (needed : ℕ) (m : Index K (Chain V)) (p : K)
      → ReservedAt qs index g m (reserve_slots qs index g slot needed m) p
  unfolding reserve_slots
  reserve_at [] index g slot needed m p = inl refl
  reserve_at (q ∷ qs) index g slot needed m p = elim (Option-cases (lookup m q)) [
    | inr c ↦
        rw (reserve_present q qs index g slot needed m c.0 c.1)
          (elim (reserve_at qs (index + 1) g slot (needed + 1) m p) [
            | inl same ↦ inl same
            | inr f ↦
                let first =
                  processed_first q qs index
                    (reserve_slots qs (index + 1) g slot (needed + 1) m).refused_at
                    (refused_at_le qs (index + 1) g slot (needed + 1) m) in
                inr (f.0, rw first (lists_later q _ p f.1))
          ])
    | inl n ↦ elim (Bool-cases (slot index)) [
      | inl t ↦
          let m' = put q (reservation q g) m in
          let put_at = lookup-put m q (reservation q g) p in
          let first =
            processed_first q qs index (reserve_slots qs (index + 1) g slot needed m').refused_at
              (refused_at_le qs (index + 1) g slot needed m') in
          let rest = reserve_at qs (index + 1) g slot needed m' p in
          rw (reserve_filled q qs index g slot needed m n t) (elim (Bool-cases (e.same q p)) [
            | inl same ↦ elim rest [
              | inl kept ↦ inr (
                record {
                  key = q;
                  was = sym (lookup_same m q p same) ∙ n;
                  now = kept ∙ put_at ∙ rw same refl;
                },
                rw (first, same) refl,
              )
              | inr f ↦ absurd (ground (arith, put_at, same, f.0.was))
            ]
            | inr other ↦
                let kept_at : lookup m' p ≡ lookup m p = put_at ∙ rw other refl in
                elim rest [
                  | inl kept ↦ inl (kept ∙ kept_at)
                  | inr f ↦ inr (
                    record { key = f.0.key; was = sym kept_at ∙ f.0.was; now = f.0.now },
                    rw first (lists_later q _ p f.1),
                  )
                ]
          ])
      | inr t ↦ rw (reserve_refused q qs index g slot needed m n t) (inl refl)
    ]
  ]
