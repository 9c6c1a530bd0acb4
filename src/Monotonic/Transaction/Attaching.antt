-- ===== src/Monotonic/Transaction/Attaching.antt =====
-- The second pass of `stage`, key by key, include/smashtable/monotonic_store.hpp.
use smash_table.Base.{
  ℕ, ◌+◌, ◌≡◌, refl, sym, ◌∙◌, ap, arith, Bool, true, false, Bool-cases, Option-cases, inl, inr,
  List, [], ◌∷◌, Option, none, some,
}
use smash_table.Monotonic.{KeyEquality, Item, Versioned}
use smash_table.Monotonic.Index.{Index, IsIndex, lookup, put, lookup-put, lookup_same}
use smash_table.Monotonic.Chain.{Chain, chain_attach}
use smash_table.Monotonic.Transaction.{attach, attach_changes, reservation, reserve_slots}
use smash_table.Monotonic.Transaction.Reserving.{
  lists, Filled, reserve_present, reserve_filled, reserve_refused,
}

module _ {K V : Type 0} ⦃e : KeyEquality K⦄ ⦃i : Item K V⦄ where
  -- an entry that is there stays as it is
  pub reserve_keeps :
      (qs : List K) (index g : ℕ) (slot : ℕ → Bool) (needed : ℕ) (m : Index K (Chain V)) (p : K)
      (c : Chain V)
      → lookup m p ≡ some c
      → lookup (reserve_slots qs index g slot needed m).entries p ≡ some c
  unfolding reserve_slots
  reserve_keeps [] index g slot needed m p c h = h
  reserve_keeps (q ∷ qs) index g slot needed m p c h = elim (Option-cases (lookup m q)) [
    | inr d ↦
        rw (reserve_present q qs index g slot needed m d.0 d.1)
          (reserve_keeps qs (index + 1) g slot (needed + 1) m p c h)
    | inl n ↦ elim (Bool-cases (slot index)) [
      | inl t ↦
          let m' = put q (reservation q g) m in
          let other : e.same q p ≡ false = elim (Bool-cases (e.same q p)) [
            | inl s ↦ absurd (ground (arith, lookup_same m q p s, n, h))
            | inr s ↦ s
          ] in
          let kept : lookup m' p ≡ some c = lookup-put m q (reservation q g) p ∙ rw other h in
          rw (reserve_filled q qs index g slot needed m n t)
            (reserve_keeps qs (index + 1) g slot needed m' p c kept)
      | inr t ↦ rw (reserve_refused q qs index g slot needed m n t) h
    ]
  ]

  -- where nothing was refused, a listed key without an entry has a reserved one
  pub reserve_fills :
      (qs : List K) (index g : ℕ) (slot : ℕ → Bool) (needed : ℕ) (m : Index K (Chain V)) (p : K)
      → (reserve_slots qs index g slot needed m).refused_at ≡ none
      → lists qs p ≡ true
      → lookup m p ≡ none
      → Filled g m (reserve_slots qs index g slot needed m).entries p
  unfolding reserve_slots
  reserve_fills [] index g slot needed m p r l h = absurd (ground (arith, l))
  reserve_fills (q ∷ qs) index g slot needed m p r l h = elim (Option-cases (lookup m q)) [
    | inr d ↦
        let step = reserve_present q qs index g slot needed m d.0 d.1 in
        let other : e.same q p ≡ false = elim (Bool-cases (e.same q p)) [
          | inl s ↦ absurd (ground (arith, lookup_same m q p s, d.1, h))
          | inr s ↦ s
        ] in
        rw step (
          reserve_fills qs (index + 1) g slot (needed + 1) m p
            (sym (ap (λ x. x.refused_at) step) ∙ r) (rw other at l) h)
    | inl n ↦ elim (Bool-cases (slot index)) [
      | inl t ↦
          let m' = put q (reservation q g) m in
          let step = reserve_filled q qs index g slot needed m n t in
          let put_at = lookup-put m q (reservation q g) p in
          rw step (elim (Bool-cases (e.same q p)) [
            | inl s ↦
                let now : lookup m' p ≡ some (reservation q g) = put_at ∙ rw s refl in
                record {
                  key = q;
                  was = h;
                  now = reserve_keeps qs (index + 1) g slot needed m' p (reservation q g) now;
                }
            | inr s ↦
                let now : lookup m' p ≡ none = put_at ∙ rw s h in
                let later =
                  reserve_fills qs (index + 1) g slot needed m' p
                    (sym (ap (λ x. x.refused_at) step) ∙ r) (rw s at l) now in
                record { key = later.key; was = h; now = later.now }
          ])
      | inr t ↦ absurd (
          ground (
            arith,
            sym (ap (λ x. x.refused_at) (reserve_refused q qs index g slot needed m n t)) ∙ r,
          ))
    ]
  ]

module _ {K V : Type 0} ⦃e : KeyEquality K⦄ where
  -- an attachment is seen under its own key only
  attach_other :
      (q : K) (w : Versioned V) (m : Index K (Chain V)) (spares : ℕ) (p : K)
      → e.same q p ≡ false
      → lookup (attach q w (m, spares)).0 p ≡ lookup m p
  attach_other q w m spares p other = elim (Option-cases (lookup m q)) [
    | inl n ↦ rw (n, attach) refl
    | inr c ↦ rw (c.1, attach) (lookup-put m q (chain_attach c.0 w).0 p ∙ rw other refl)
  ]

  attach_own :
      (q : K) (w : Versioned V) (m : Index K (Chain V)) (spares : ℕ) (p : K) (c : Chain V)
      → e.same q p ≡ true
      → lookup m p ≡ some c
      → lookup (attach q w (m, spares)).0 p ≡ some (chain_attach c w).0
  attach_own q w m spares p c same h =
      rw (lookup_same m q p same ∙ h, attach) (lookup-put m q (chain_attach c w).0 p ∙ rw same refl)

  pub attach_changes_other :
      (changes : Index K (Versioned V)) (m : Index K (Chain V) × ℕ) (p : K)
      → lookup changes p ≡ none
      → lookup (attach_changes changes m).0 p ≡ lookup m.0 p
  attach_changes_other [] m p h = refl
  attach_changes_other ((q, w) ∷ changes) m p h = elim (Bool-cases (e.same q p)) [
    | inl s ↦ absurd (ground (arith, s, h))
    | inr s ↦
        attach_changes_other changes (attach q w m) p (rw s at h) ∙ attach_other q w m.0 m.1 p s
  ]

  pub attach_changes_own :
      (changes : Index K (Versioned V)) (m : Index K (Chain V) × ℕ) (p : K) (w : Versioned V)
      (c : Chain V)
      → IsIndex changes
      → lookup changes p ≡ some w
      → lookup m.0 p ≡ some c
      → lookup (attach_changes changes m).0 p ≡ some (chain_attach c w).0
  attach_changes_own [] m p w c u h k = absurd (ground (arith, h))
  attach_changes_own ((q, v) ∷ changes) m p w c u h k = elim (Bool-cases (e.same q p)) [
    | inl s ↦
        let only : ◌≡◌ {A = Option (Versioned V)} (some v) (some w) = rw s at h in
        let absent : lookup changes p ≡ none = sym (lookup_same changes q p s) ∙ u.0 in
        attach_changes_other changes (attach q v m) p absent
        ∙ attach_own q v m.0 m.1 p c s k
        ∙ ap (λ x. some (chain_attach c x).0) (ground (arith, only))
    | inr s ↦
        attach_changes_own changes (attach q v m) p w c u.1 (rw s at h)
          (attach_other q v m.0 m.1 p s ∙ k)
  ]
