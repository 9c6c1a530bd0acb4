-- ===== src/Monotonic/Commit/Retreat.antt =====
-- The ways back out of a staged transaction, include/smashtable/monotonic_store.hpp.
use smash_table.Base.{
  ℕ, ◌≡◌, refl, ◌∙◌, ap, true, Option-cases, inl, inr, [], Option, none, some, is_some,
}
use smash_table.Monotonic.{KeyEquality, Item, Versioned, success}
use smash_table.Monotonic.Index.{lookup}
use smash_table.Monotonic.Chain.{Chain, chain_discard}
use smash_table.Monotonic.Chain.Versions.{
  carried, staged_chain, staged_of, chain_discard_only, chain_discard-behind,
}
use smash_table.Monotonic.Store.{Store}
use smash_table.Monotonic.Transaction.{Transaction, StagingMemory, unstage, stage}
use smash_table.Monotonic.Transaction.Reserving.{lists, unstage_absent, unstage_listed}
use smash_table.Monotonic.Transaction.Stage.{IsFresh, IsReady}
use smash_table.Monotonic.Transaction.Success.{Stages, stage_success}
use smash_table.Monotonic.Commit.{reset}

module _ {V : Type 0} where
  -- what is left of a key, and what is taken out, once its staged version is discarded
  pub discard-staged_chain :
      (x : Option (Chain V)) (w : Versioned V) (g : ℕ)
      → w.generation ≡ g
      → ((chain_discard (some (staged_chain x w)) g).chain ≡ x)
        × ((chain_discard (some (staged_chain x w)) g).destination ≡ some w)
  discard-staged_chain none w g h =
      let out = chain_discard_only w g h in (ap (λ r. r.chain) out, ap (λ r. r.destination) out)
  discard-staged_chain (some c) w g h =
      let out = chain_discard-behind c w g h in (ap (λ r. r.chain) out, ap (λ r. r.destination) out)

module _ {K V : Type 0} ⦃e : KeyEquality K⦄ where
  unstage_staged :
      (s s' : Store K V) (t t' : Transaction K V) (p : K)
      → IsFresh t.generation s.entries
      → IsReady t
      → Stages s t s' t'
      → lookup (unstage t.changed_identifiers t.generation s'.entries) p ≡ lookup s.entries p
  unstage_staged s s' t t' p fresh ready stages =
      let ids = t.changed_identifiers in
      let g = t.generation in
      elim (Option-cases (lookup t.changes p)) [
        | inl n ↦
            let same : lookup s'.entries p ≡ lookup s.entries p =
              stages.entries p ∙ ap (λ x. staged_of x (lookup s.entries p)) n in
            unstage_absent ids g s'.entries p (ap (carried g) same ∙ fresh p) ∙ same
        | inr c ↦
            let w = c.0 in
            let listed : lists ids p ≡ true = ready.listed p ∙ ap is_some c.1 in
            let there : lookup s'.entries p ≡ some (staged_chain (lookup s.entries p) w) =
              stages.entries p ∙ ap (λ x. staged_of x (lookup s.entries p)) c.1 in
            unstage_listed ids g s'.entries p (lookup s.entries p) listed (fresh p) (
              ap (λ x. (chain_discard x g).chain) there
              ∙ (discard-staged_chain (lookup s.entries p) w g (ready.own p w c.1).0).0)
      ]

module _ {K V : Type 0} ⦃e : KeyEquality K⦄ ⦃i : Item K V⦄ where
  -- A `reset` after a successful `stage` gives every key the chain that it had before, and leaves the
  -- store's counters as they were; the transaction has no change, no watch and a new generation. The
  -- changes are the transaction's own, and the store had no version of its generation.
  pub stage-reset :
      (s : Store K V) (t : Transaction K V) (memory : StagingMemory)
      → IsFresh t.generation s.entries
      → IsReady t
      → (stage s t memory).2 ≡ success
      → ((p : K)
          → lookup (reset (stage s t memory).0 (stage s t memory).1).0.entries p
            ≡ lookup s.entries p)
        × ((reset (stage s t memory).0 (stage s t memory).1).0.counts ≡ s.counts)
        × ((reset (stage s t memory).0 (stage s t memory).1).1.changes ≡ [])
        × ((reset (stage s t memory).0 (stage s t memory).1).1.watches ≡ [])
  unfolding reset
  stage-reset s t memory fresh ready f =
      let stages = stage_success s t memory fresh ready f in
      (
        (λ p.
            rw stages.transaction
              (unstage_staged s (stage s t memory).0 t (stage s t memory).1 p fresh ready stages)),
        stages.counts,
        refl,
        refl,
      )
