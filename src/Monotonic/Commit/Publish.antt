-- ===== src/Monotonic/Commit/Publish.antt =====
-- What a commit of include/smashtable/monotonic_store.hpp makes visible: the transaction's view.
use smash_table.Base.{
  ℕ, ◌+◌, ◌<◌, ◌≡◌, refl, sym, ◌∙◌, ap, arith, true, false, Bool-cases, Option-cases, inl, inr,
  List, [], ◌∷◌, none, some, if◌then◌else◌, is_some,
}
use smash_table.Monotonic.{
  KeyEquality, Item, Versioned, success, staged, is_present, visible_now, uncommitted_k,
}
use smash_table.Monotonic.Index.{Index, lookup, lookup-set, lookup_same, same_right}
use smash_table.Monotonic.Chain.{Chain, Counts, unmask_and_compact, if_present}
use smash_table.Monotonic.Chain.Versions.{staged_chain, staged_of}
use smash_table.Monotonic.Chain.Unmasking.{
  Holds, Published, unmask_and_compact_lem, staged_chain-Holds,
}
use smash_table.Monotonic.Store
use smash_table.Monotonic.Store.{Store, committed_of, readable_of, payload_of}
use smash_table.Monotonic.Store.Updates.{readable_of-committed_of, visible_drawn}
use smash_table.Monotonic.Transaction.{Transaction, StagingMemory, find, stage, validate_watches}
use smash_table.Monotonic.Transaction.Reserving.{lists}
use smash_table.Monotonic.Transaction.Stage.{IsFresh, IsReady}
use smash_table.Monotonic.Transaction.Success.{Stages, stage_success, validate_watches_staged}
use smash_table.Monotonic.Commit.{
  publish_key, publish_keys, publish_under, validate_for_commit, commit,
}

payload_of-if_present :
    {V : Type 0} (w : Versioned V)
    → payload_of (if_present (some w)) ≡ (if is_present w.presence then some w.payload else none)
payload_of-if_present w = elim (Bool-cases (is_present w.presence)) [
  | inl t ↦ rw t refl
  | inr t ↦ rw t refl
]

module _ {K : Type 0} ⦃e : KeyEquality K⦄ where
  -- no key is listed twice
  abbrev pub IsDistinct : List K → Type 0
  IsDistinct [] = Unit
  IsDistinct (q ∷ qs) = (lists qs q ≡ false) × IsDistinct qs

  pub lists_same : (qs : List K) (q p : K) → e.same q p ≡ true → lists qs q ≡ lists qs p
  lists_same [] q p h = refl
  lists_same (k ∷ qs) q p h = rw (same_right k q p h, lists_same qs q p h) refl

module _ {K V : Type 0} ⦃e : KeyEquality K⦄ where
  publish_key_at :
      (q : K) (g stamp : ℕ) (m : Index K (Chain V) × Counts) (p : K)
      → lookup (publish_key q g stamp m).0 p ≡ (
          if e.same q p
          then (unmask_and_compact (lookup m.0 q) g stamp m.1).chain
          else lookup m.0 p)
  publish_key_at q g stamp m p =
      lookup-set m.0 q (unmask_and_compact (lookup m.0 q) g stamp m.1).chain p

  publish_keys_other :
      (qs : List K) (g stamp : ℕ) (m : Index K (Chain V) × Counts) (p : K)
      → lists qs p ≡ false
      → lookup (publish_keys qs g stamp m).0 p ≡ lookup m.0 p
  publish_keys_other [] g stamp m p h = refl
  publish_keys_other (q ∷ qs) g stamp m p h =
      let other : e.same q p ≡ false = ground (arith, h) in
      publish_keys_other qs g stamp (publish_key q g stamp m) p (rw other at h)
      ∙ publish_key_at q g stamp m p
      ∙ rw other refl

  publish_keys_own :
      (qs : List K) (g stamp : ℕ) (m : Index K (Chain V) × Counts) (p : K) (w : Versioned V)
      (c : Chain V)
      → IsDistinct qs
      → lists qs p ≡ true
      → lookup m.0 p ≡ some c
      → Holds g w c
      → visible_now stamp ≡ true
      → Published w stamp (lookup (publish_keys qs g stamp m).0 p)
  publish_keys_own [] g stamp m p w c u l h holds drawn = absurd (ground (arith, l))
  publish_keys_own (q ∷ qs) g stamp m p w c u l h holds drawn =
      let at = publish_key_at q g stamp m p in
      elim (Bool-cases (e.same q p)) [
        | inl s ↦
            let done = unmask_and_compact_lem c g stamp w m.1 holds drawn in
            let unlisted : lists qs p ≡ false = sym (lists_same qs q p s) ∙ u.0 in
            let here : lookup (publish_key q g stamp m).0 p
                ≡ (unmask_and_compact (some c) g stamp m.1).chain =
              at ∙ rw (s, lookup_same m.0 q p s ∙ h) refl in
            record {
              left = done.left;
              found =
                  publish_keys_other qs g stamp (publish_key q g stamp m) p unlisted
                  ∙ here
                  ∙ done.found;
              shown = done.shown;
            }
        | inr s ↦
            publish_keys_own qs g stamp (publish_key q g stamp m) p w c u.1 (rw s at l)
              (at ∙ rw s h) holds drawn
      ]

  -- what a commit of staged changes shows at a key: the transaction's view of it
  published_view :
      (s s' : Store K V) (t t' : Transaction K V) (p : K)
      → IsFresh t.generation s.entries
      → IsReady t
      → IsDistinct t.changed_identifiers
      → Stages s t s' t'
      → visible_now (s.commits + 1) ≡ true
      → Store.find (publish_under s' (record t { changes = []; staging = staged })).0 p ≡ find s t p
  unfolding publish_under Store.find find
  published_view s s' t t' p fresh ready distinct stages drawn =
      let ids = t.changed_identifiers in
      let g = t.generation in
      let stamp = s'.commits + 1 in
      let drawn' : visible_now stamp ≡ true = rw stages.commits drawn in
      let m' : Index K (Chain V) × Counts = (s'.entries, s'.counts) in
      elim (Option-cases (lookup t.changes p)) [
        | inl n ↦
            let unlisted : lists ids p ≡ false = ready.listed p ∙ ap is_some n in
            let same : lookup s'.entries p ≡ lookup s.entries p =
              stages.entries p ∙ ap (λ x. staged_of x (lookup s.entries p)) n in
            ap (λ x. payload_of (readable_of x))
              (publish_keys_other ids g stamp m' p unlisted ∙ same)
            ∙ rw (n, find) refl
        | inr c ↦
            let w = c.0 in
            let mine = ready.own p w c.1 in
            let listed : lists ids p ≡ true = ready.listed p ∙ ap is_some c.1 in
            let chain = staged_chain (lookup s.entries p) w in
            let there : lookup s'.entries p ≡ some chain =
              stages.entries p ∙ ap (λ x. staged_of x (lookup s.entries p)) c.1 in
            let holds = staged_chain-Holds (lookup s.entries p) w g (fresh p) mine.0 mine.1 in
            let out =
              publish_keys_own ids g stamp m' p w chain distinct listed there holds drawn' in
            ap payload_of (
              ap readable_of out.found
              ∙ readable_of-committed_of (some out.left)
              ∙ ap if_present out.shown)
            ∙ rw (c.1, find) (payload_of-if_present (record w { committed = stamp }))
      ]

module _ {K V : Type 0} ⦃e : KeyEquality K⦄ ⦃i : Item K V⦄ where
  -- A commit right after a successful `stage` succeeds, and then every reader of the store finds at
  -- each key what the transaction itself read there before it staged: its own changes, erasures
  -- included, and for other keys what the store had. The changes are the transaction's own and listed
  -- once, the store had no version of its generation, and the clock of commits has not run out.
  pub stage-commit :
      (s : Store K V) (t : Transaction K V) (memory : StagingMemory)
      → IsFresh t.generation s.entries
      → IsReady t
      → IsDistinct t.changed_identifiers
      → (stage s t memory).2 ≡ success
      → s.commits + 1 < uncommitted_k
      → ((commit (stage s t memory).0 (stage s t memory).1).2 ≡ success)
        × ((p : K) → Store.find (commit (stage s t memory).0 (stage s t memory).1).0 p ≡ find s t p)
  unfolding commit validate_for_commit
  stage-commit s t memory fresh ready distinct f clock =
      let stages = stage_success s t memory fresh ready f in
      let s' = (stage s t memory).0 in
      let valid : validate_watches s' t.watches ≡ success =
        validate_watches_staged s t s' (stage s t memory).1 ready stages t.watches
        ∙ stages.validated in
      let drawn = visible_drawn (s.commits + 1) clock in
      rw (stages.transaction, valid, commit)
        (refl, λ p. published_view s s' t (stage s t memory).1 p fresh ready distinct stages drawn)
