-- ===== src/Monotonic/Transaction/Success.antt =====
-- What a successful `stage` of include/smashtable/monotonic_store.hpp leaves, and what a
-- reader of the store sees of it.
use smash_table.Base.{
  ◌+◌, ◌≡◌, refl, sym, ◌∙◌, ap, arith, false, Bool-cases, Option-cases, inl, inr, List, [], ◌∷◌,
  Option, none, some,
}
use smash_table.Monotonic.{
  KeyEquality, Item, Versioned, Status, success, failed, operation_not_permitted,
  out_of_memory_heap, staged, is_staged, visible_now, Watch,
}
use smash_table.Monotonic.Index.{lookup}
use smash_table.Monotonic.Chain.{Chain, if_present}
use smash_table.Monotonic.Chain.Versions.{staged_of, visible_version-behind, visible_version_only}
use smash_table.Monotonic.Store.{
  Store, committed_of, readable_of, payload_of, find, find_committed_entry,
}
use smash_table.Monotonic.Store.Updates.{readable_of-committed_of}
use smash_table.Monotonic.Transaction.{
  Transaction, StagingMemory, reserve_slots, validate_watches, stage,
}
use smash_table.Monotonic.Transaction.Stage.{IsFresh, IsReady, moved_at, stage_refused}

unfailed : (x : Status) → failed x ≡ false → x ≡ success
unfailed x f = ground arith

module _ {K V : Type 0} ⦃e : KeyEquality K⦄ where
  -- the transaction's versions stand in the store, its watches held, and nothing else moved
  pub record Stages (s : Store K V) (t : Transaction K V) (s' : Store K V) (t' : Transaction K V)
      : Type 0 where
    pub entries :
        (p : K) → lookup s'.entries p ≡ staged_of (lookup t.changes p) (lookup s.entries p)
    pub counts : s'.counts ≡ s.counts
    pub commits : s'.commits ≡ s.commits
    pub validated : validate_watches s t.watches ≡ success
    pub transaction : t' ≡ record t { changes = []; staging = staged }

module _ {K V : Type 0} ⦃e : KeyEquality K⦄ ⦃i : Item K V⦄ where
  -- Where `stage` reports success the versions of the changed keys, and no other, stand behind what
  -- the keys had, the watches were valid, and the transaction waits with no change left. The changes
  -- are the transaction's own, and the store had no version of its generation.
  pub stage_success :
      (s : Store K V) (t : Transaction K V) (memory : StagingMemory)
      → IsFresh t.generation s.entries
      → IsReady t
      → (stage s t memory).2 ≡ success
      → Stages s t (stage s t memory).0 (stage s t memory).1
  unfolding stage
  stage_success s t memory fresh ready f =
      let ids = t.changed_identifiers in
      let g = t.generation in
      let reserved = reserve_slots ids 0 g memory.slot 0 s.entries in
      elim (Bool-cases (is_staged t.staging)) [
        | inl a ↦
            let never : operation_not_permitted ≡ success = rw (a, stage) at f in
            absurd (ground (arith, never))
        | inr a ↦ elim (Bool-cases memory.prepared) [
          | inr b ↦
              let never : out_of_memory_heap ≡ success = rw (a, b, stage) at f in
              absurd (ground (arith, never))
          | inl b ↦ elim (Bool-cases (failed (validate_watches s t.watches))) [
            | inl c ↦
                let never : validate_watches s t.watches ≡ success = rw (a, b, c, stage) at f in
                absurd (ground (arith, ap failed never, c))
            | inr c ↦ elim (Option-cases reserved.refused_at) [
              | inr d ↦
                  let never : out_of_memory_heap ≡ success = rw (a, b, c, d.1, stage) at f in
                  absurd (ground (arith, never))
              | inl d ↦ elim (Bool-cases memory.spares) [
                | inr h ↦
                    let never : out_of_memory_heap ≡ success = rw (a, b, c, d, h, stage) at f in
                    absurd (ground (arith, never))
                | inl h ↦
                    rw (a, b, c, d, h, stage)
                      (record {
                        entries = λ p.
                            moved_at s t memory.slot
                              (s.spare_versions + reserved.spare_versions_needed) p fresh ready d;
                        counts = refl;
                        commits = refl;
                        validated = unfailed (validate_watches s t.watches) c;
                        transaction = refl;
                      })
              ]
            ]
          ]
        ]
      ]

module _ {V : Type 0} where
  committed_of-staged_of :
      (change : Option (Versioned V)) (x : Option (Chain V))
      → ((w : Versioned V) → change ≡ some w → visible_now w.committed ≡ false)
      → committed_of (staged_of change x) ≡ committed_of x
  committed_of-staged_of none x hidden = refl
  committed_of-staged_of (some w) none hidden = visible_version_only w (hidden w refl)
  committed_of-staged_of (some w) (some c) hidden = visible_version-behind c w (hidden w refl)

module _ {K V : Type 0} ⦃e : KeyEquality K⦄ (s : Store K V) (t : Transaction K V) (s' : Store K V)
    (t' : Transaction K V) (ready : IsReady t) (stages : Stages s t s' t') where
  pub find_committed_entry_staged : (p : K) → find_committed_entry s' p ≡ find_committed_entry s p
  unfolding find_committed_entry
  find_committed_entry_staged p =
      ap committed_of (stages.entries p)
      ∙ committed_of-staged_of (lookup t.changes p) (lookup s.entries p)
          (λ w h. (ready.own p w h).1)

  find_staged : (p : K) → find s' p ≡ find s p
  unfolding find find_committed_entry
  find_staged p =
      let same = find_committed_entry_staged p in
      ap payload_of (
        readable_of-committed_of (lookup s'.entries p)
        ∙ ap if_present same
        ∙ sym (readable_of-committed_of (lookup s.entries p)))

  pub validate_watches_staged :
      (ws : List (K × Watch)) → validate_watches s' ws ≡ validate_watches s ws
  validate_watches_staged [] = refl
  validate_watches_staged ((q, recorded) ∷ ws) =
      rw (find_committed_entry_staged q, validate_watches_staged ws) refl

module _ {K V : Type 0} ⦃e : KeyEquality K⦄ ⦃i : Item K V⦄ where
  -- No reader of the store sees anything of a `stage`, whatever status it returns: every key reads as
  -- before. The changes are the transaction's own, and the store had no version of its generation.
  pub find-stage :
      (s : Store K V) (t : Transaction K V) (memory : StagingMemory) (p : K)
      → IsFresh t.generation s.entries
      → IsReady t
      → find (stage s t memory).0 p ≡ find s p
  unfolding find
  find-stage s t memory p fresh ready = elim (Bool-cases (failed (stage s t memory).2)) [
    | inl f ↦ ap (λ x. payload_of (readable_of x)) ((stage_refused s t memory fresh f).0 p)
    | inr f ↦
        let stages = stage_success s t memory fresh ready (unfailed (stage s t memory).2 f) in
        find_staged s t (stage s t memory).0 (stage s t memory).1 ready stages p
  ]
