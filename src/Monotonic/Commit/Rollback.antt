-- ===== src/Monotonic/Commit/Rollback.antt =====
-- The `rollback` of a staged transaction, include/smashtable/monotonic_store.hpp.
use smash_table.Base.{
  ℕ, ◌+◌, ◌≡◌, refl, sym, ◌∙◌, ap, arith, true, false, Option-cases, inl, inr, [], Option, none,
  some, is_some,
}
use smash_table.Monotonic.{KeyEquality, Item, Versioned, success, visible_now, staged}
use smash_table.Monotonic.Index.{lookup}
use smash_table.Monotonic.Chain.Versions.{staged_chain, staged_of}
use smash_table.Monotonic.Store
use smash_table.Monotonic.Store.{Store}
use smash_table.Monotonic.Transaction.{Transaction, StagingMemory, stage, find}
use smash_table.Monotonic.Transaction.Reserving.{lists}
use smash_table.Monotonic.Transaction.Stage.{IsFresh, IsReady}
use smash_table.Monotonic.Transaction.Success.{Stages, stage_success}
use smash_table.Monotonic.Commit.{Recovered, recover_all, rollback}
use smash_table.Monotonic.Commit.Publish.{IsDistinct}
use smash_table.Monotonic.Commit.Recovery.{
  restamp, restamped, is_some-restamped, Holding, recover_all_result, recover_all_other,
  recover_all_own, recover_all-IsIndex,
}

module _ {K V : Type 0} ⦃e : KeyEquality K⦄ where
  module _ (s s' : Store K V) (t t' : Transaction K V) (ready : IsReady t)
      (distinct : IsDistinct t.changed_identifiers) (stages : Stages s t s' t') where
    -- the loop's state before its first round
    abbrev begun : Recovered K V
    begun = record { entries = s'.entries; changes = []; result = success }

    staged_at :
        (p : K) (w : Versioned V)
        → lookup t.changes p ≡ some w
        → lookup s'.entries p ≡ some (staged_chain (lookup s.entries p) w)
    staged_at p w h = stages.entries p ∙ ap (λ x. staged_of x (lookup s.entries p)) h

    begun-Holding : Holding t.changed_identifiers t.generation begun
    begun-Holding p l = elim (Option-cases (lookup t.changes p)) [
      | inl n ↦ absurd (ground (arith, ready.listed p ∙ ap is_some n, l))
      | inr c ↦ record {
        before = lookup s.entries p;
        version = c.0;
        shape = staged_at p c.0 c.1;
        own = (ready.own p c.0 c.1).0;
      }
    ]

    recovered_at :
        (resumed : ℕ) (p : K)
        → (lookup
              (recover_all t.changed_identifiers 0 t.generation resumed (λ _. true) begun).entries
              p
            ≡ lookup s.entries p)
          × (lookup
                (recover_all t.changed_identifiers 0 t.generation resumed (λ _. true) begun).changes
                p
              ≡ restamped resumed (lookup t.changes p))
    recovered_at resumed p =
        let ids = t.changed_identifiers in
        elim (Option-cases (lookup t.changes p)) [
          | inl n ↦
              let unlisted : lists ids p ≡ false = ready.listed p ∙ ap is_some n in
              let out =
                recover_all_other ids 0 t.generation resumed begun p distinct begun-Holding
                  unlisted in
              (
                out.0 ∙ stages.entries p ∙ ap (λ x. staged_of x (lookup s.entries p)) n,
                out.1 ∙ sym (ap (restamped resumed) n),
              )
          | inr c ↦
              let listed : lists ids p ≡ true = ready.listed p ∙ ap is_some c.1 in
              let out =
                recover_all_own ids 0 t.generation resumed begun p (lookup s.entries p) c.0 distinct
                  begun-Holding listed (staged_at p c.0 c.1) (ready.own p c.0 c.1).0 in
              (out.0, out.1 ∙ sym (ap (restamped resumed) c.1))
        ]

  -- what a rollback gives back
  pub record RollsBack (s : Store K V) (t : Transaction K V) (s' : Store K V) (t' : Transaction K V)
      : Type 0 where
    pub ready : IsReady t'
    pub entries : (p : K) → lookup s'.entries p ≡ lookup s.entries p
    pub reads : (p : K) → find s' t' p ≡ find s t p

  -- two transactions over two stores read the same where their changes differ in generations only
  same_reads :
      (s s' : Store K V) (t t' : Transaction K V) (resumed : ℕ) (p : K)
      → lookup s'.entries p ≡ lookup s.entries p
      → lookup t'.changes p ≡ restamped resumed (lookup t.changes p)
      → find s' t' p ≡ find s t p
  unfolding find Store.find
  same_reads s s' t t' resumed p h k = elim (Option-cases (lookup t.changes p)) [
    | inl n ↦
        let m : lookup t'.changes p ≡ none = k ∙ ap (restamped resumed) n in
        rw (n, m, h, find, Store.find) refl
    | inr c ↦
        let m : lookup t'.changes p ≡ some (restamp resumed c.0) = k ∙ ap (restamped resumed) c.1 in
        rw (c.1, m, find) refl
  ]

  restamped-own :
      (t t' : Transaction K V) (p : K) (w : Versioned V)
      → IsReady t
      → lookup t'.changes p ≡ restamped t'.generation (lookup t.changes p)
      → lookup t'.changes p ≡ some w
      → (w.generation ≡ t'.generation) × (visible_now w.committed ≡ false)
  restamped-own t t' p w ready k h = elim (Option-cases (lookup t.changes p)) [
    | inl n ↦ absurd (ground (arith, sym h ∙ k ∙ ap (restamped t'.generation) n))
    | inr c ↦
        let m : ◌≡◌ {A = Option (Versioned V)} (some w) (some (restamp t'.generation c.0)) =
          sym h ∙ k ∙ ap (restamped t'.generation) c.1 in
        let same : w ≡ restamp t'.generation c.0 = cc m in
        (
          ap (λ x. x.generation) same,
          ap (λ x. visible_now x.committed) same ∙ (ready.own p c.0 c.1).1,
        )
  ]

  rolls_back :
      (s s' : Store K V) (t t' : Transaction K V)
      → IsReady t
      → IsDistinct t.changed_identifiers
      → Stages s t s' t'
      → ((rollback s' (record t { changes = []; staging = staged }) (λ _. true)).2 ≡ success)
        × RollsBack s t
            (rollback s' (record t { changes = []; staging = staged }) (λ _. true)).0
            (rollback s' (record t { changes = []; staging = staged }) (λ _. true)).1
  unfolding rollback
  rolls_back s s' t t' ready distinct stages =
      let ids = t.changed_identifiers in
      let resumed = s'.generation + 1 in
      let holding = begun-Holding s s' t t' ready distinct stages in
      let start = begun s s' t t' ready distinct stages in
      let at = recovered_at s s' t t' ready distinct stages resumed in
      let after = (rollback s' (record t { changes = []; staging = staged }) (λ _. true)) in
      (
        recover_all_result ids 0 t.generation resumed start distinct holding,
        record {
          ready = record {
            indexed = recover_all-IsIndex ids 0 t.generation resumed start distinct holding tt;
            listed = λ p.
                ready.listed p
                ∙ sym (ap is_some (at p).1 ∙ is_some-restamped resumed (lookup t.changes p));
            own = λ p w h. restamped-own t after.1 p w ready (at p).1 h;
          };
          entries = λ p. (at p).0;
          reads = λ p. same_reads s after.0 t after.1 resumed p (at p).0 (at p).1;
        },
      )

module _ {K V : Type 0} ⦃e : KeyEquality K⦄ ⦃i : Item K V⦄ where
  -- A `rollback` after a successful `stage`, whose change set has room for what comes back, succeeds:
  -- every key has the chain that it had before, the transaction reads what it read before, and its
  -- changes are ready to stage again. The changes are the transaction's own and listed once, and the
  -- store had no version of its generation.
  pub stage-rollback :
      (s : Store K V) (t : Transaction K V) (memory : StagingMemory)
      → IsFresh t.generation s.entries
      → IsReady t
      → IsDistinct t.changed_identifiers
      → (stage s t memory).2 ≡ success
      → ((rollback (stage s t memory).0 (stage s t memory).1 (λ _. true)).2 ≡ success)
        × RollsBack s t
            (rollback (stage s t memory).0 (stage s t memory).1 (λ _. true)).0
            (rollback (stage s t memory).0 (stage s t memory).1 (λ _. true)).1
  unfolding rollback
  stage-rollback s t memory fresh ready distinct f =
      let stages = stage_success s t memory fresh ready f in
      rw stages.transaction
        (rolls_back s (stage s t memory).0 t (stage s t memory).1 ready distinct stages)
