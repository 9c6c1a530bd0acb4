-- ===== src/Monotonic/Transaction/Stage.antt =====
-- What `stage` of include/smashtable/monotonic_store.hpp leaves in the store on every outcome.
use smash_table.Base.{
  ℕ, ◌-◌, ◌≡◌, refl, sym, ◌∙◌, ap, arith, Bool, true, false, Bool-cases, Option-cases, inl, inr,
  List, none, some, is_some,
}
use smash_table.Monotonic.{KeyEquality, Item, Versioned, success, failed, is_staged, visible_now}
use smash_table.Monotonic.Index.{Index, IsIndex, lookup}
use smash_table.Monotonic.Chain.{Chain}
use smash_table.Monotonic.Chain.Versions.{
  carried, staged_of, chain_attach_absent, chain_attach_reserved, chain_discard_only,
}
use smash_table.Monotonic.Store.{Store}
use smash_table.Monotonic.Transaction.{
  Transaction, StagingMemory, Reserved, unstage, take_keys, reservation, reserve_slots,
  attach_changes, validate_watches, stage,
}
use smash_table.Monotonic.Transaction.Reserving.{
  lists, processed_keys, ReservedAt, reserve_at, unstage_absent, unstage_listed,
}
use smash_table.Monotonic.Transaction.Attaching.{
  reserve_keeps, reserve_fills, attach_changes_other, attach_changes_own,
}

minus_zero : (n : ℕ) → n - 0 ≡ n
minus_zero n = omega arith

module _ {K V : Type 0} ⦃e : KeyEquality K⦄ where
  -- no version in the store carries the generation
  abbrev pub IsFresh : ℕ → Index K (Chain V) → Type 0
  IsFresh g m = (p : K) → carried g (lookup m p) ≡ false

  -- A pending transaction's changes: one for each listed key, under the transaction's generation,
  -- and none of them visible.
  pub record IsReady (t : Transaction K V) : Type 0 where
    pub indexed : IsIndex t.changes
    pub listed : (p : K) → lists t.changed_identifiers p ≡ is_some (lookup t.changes p)
    pub own :
        (p : K) (w : Versioned V)
        → lookup t.changes p ≡ some w
        → (w.generation ≡ t.generation) × (visible_now w.committed ≡ false)

module _ {K V : Type 0} ⦃e : KeyEquality K⦄ ⦃i : Item K V⦄ where
  -- undoing the first pass, over the keys that it went over, brings the index back
  unstage-reserve :
      (qs done : List K) (index g : ℕ) (m : Index K (Chain V)) (r : Reserved K V) (p : K)
      → IsFresh g m
      → processed_keys qs index r.refused_at ≡ done
      → ReservedAt qs index g m r p
      → lookup (unstage done g r.entries) p ≡ lookup m p
  unstage-reserve qs done index g m r p fresh same (inl kept) =
      unstage_absent done g r.entries p (ap (carried g) kept ∙ fresh p) ∙ kept
  unstage-reserve qs done index g m r p fresh same (inr (filled, listed)) =
      let gone = ap (λ x. x.chain) (chain_discard_only (reservation filled.key g).head g refl) in
      unstage_listed done g r.entries p none (ap (λ ks. lists ks p) (sym same) ∙ listed) refl
        (rw filled.now gone)
      ∙ sym filled.was

  -- Both passes together, where nothing was refused.
  pub moved_at :
      (s : Store K V) (t : Transaction K V) (slot : ℕ → Bool) (spares : ℕ) (p : K)
      → IsFresh t.generation s.entries
      → IsReady t
      → (reserve_slots t.changed_identifiers 0 t.generation slot 0 s.entries).refused_at ≡ none
      → lookup
          (attach_changes t.changes (
            (reserve_slots t.changed_identifiers 0 t.generation slot 0 s.entries).entries,
            spares,
          )).0
          p
        ≡ staged_of (lookup t.changes p) (lookup s.entries p)
  moved_at s t slot spares p fresh ready r =
      let ids = t.changed_identifiers in
      let g = t.generation in
      let m' = (reserve_slots ids 0 g slot 0 s.entries).entries in
      elim (Option-cases (lookup t.changes p)) [
        | inl n ↦
            let unlisted : lists ids p ≡ false = ready.listed p ∙ ap is_some n in
            let kept : lookup m' p ≡ lookup s.entries p =
              elim (reserve_at ids 0 g slot 0 s.entries p) [
                | inl same ↦ same
                | inr f ↦ absurd (
                    ground
                      (arith, ap (λ at. lists (processed_keys ids 0 at) p) (sym r) ∙ f.1, unlisted))
              ] in
            attach_changes_other t.changes (m', spares) p n ∙ kept ∙ rw n refl
        | inr c ↦
            let w = c.0 in
            let mine = ready.own p w c.1 in
            let listed : lists ids p ≡ true = ready.listed p ∙ ap is_some c.1 in
            elim (Option-cases (lookup s.entries p)) [
              | inl n ↦
                  let f = reserve_fills ids 0 g slot 0 s.entries p r listed n in
                  attach_changes_own t.changes (m', spares) p w (reservation f.key g) ready.indexed
                    c.1 f.now
                  ∙ ap (λ x. some (x.0))
                      (chain_attach_reserved (reservation f.key g) w (sym mine.0))
                  ∙ rw (c.1, n) refl
              | inr d ↦
                  let kept = reserve_keeps ids 0 g slot 0 s.entries p d.0 d.1 in
                  let absent = ap (carried g) (sym d.1) ∙ fresh p in
                  attach_changes_own t.changes (m', spares) p w d.0 ready.indexed c.1 kept
                  ∙ ap (λ x. some (x.0))
                      (chain_attach_absent d.0 w (ap (λ n. carried n (some d.0)) mine.0 ∙ absent))
                  ∙ rw (c.1, d.1) refl
            ]
      ]

  -- A `stage` that is refused, for whatever reason and at whatever key, leaves the transaction as it
  -- was, and the store's counters and clocks too; every key finds the chain that it found before. The
  -- store holds no version of the transaction's generation before.
  pub stage_refused :
      (s : Store K V) (t : Transaction K V) (memory : StagingMemory)
      → IsFresh t.generation s.entries
      → failed (stage s t memory).2 ≡ true
      → ((p : K) → lookup (stage s t memory).0.entries p ≡ lookup s.entries p)
        × ((stage s t memory).0.counts ≡ s.counts)
        × ((stage s t memory).0.generation ≡ s.generation)
        × ((stage s t memory).0.commits ≡ s.commits)
        × ((stage s t memory).1 ≡ t)
  unfolding stage
  stage_refused s t memory fresh f =
      let ids = t.changed_identifiers in
      let g = t.generation in
      let reserved = reserve_slots ids 0 g memory.slot 0 s.entries in
      let at = reserve_at ids 0 g memory.slot 0 s.entries in
      elim (Bool-cases (is_staged t.staging)) [
        | inl a ↦ rw (a, stage) ((λ p. refl), refl, refl, refl, refl)
        | inr a ↦ elim (Bool-cases memory.prepared) [
          | inr b ↦ rw (a, b, stage) ((λ p. refl), refl, refl, refl, refl)
          | inl b ↦ elim (Bool-cases (failed (validate_watches s t.watches))) [
            | inl c ↦ rw (a, b, c, stage) ((λ p. refl), refl, refl, refl, refl)
            | inr c ↦ elim (Option-cases reserved.refused_at) [
              | inr d ↦
                  rw (a, b, c, d.1, stage)
                    (
                      (λ p.
                          unstage-reserve ids (take_keys d.0 ids) 0 g s.entries reserved p fresh
                            (rw d.1 (ap (λ n. take_keys n ids) (minus_zero d.0))) (at p)),
                      refl,
                      refl,
                      refl,
                      refl,
                    )
              | inl d ↦ elim (Bool-cases memory.spares) [
                | inl h ↦
                    let never : failed success ≡ true = rw (a, b, c, d, h, stage) at f in
                    absurd (ground (arith, never))
                | inr h ↦
                    rw (a, b, c, d, h, stage)
                      (
                        (λ p.
                            unstage-reserve ids ids 0 g s.entries reserved p fresh (rw d refl)
                              (at p)),
                        refl,
                        refl,
                        refl,
                        refl,
                      )
              ]
            ]
          ]
        ]
      ]
