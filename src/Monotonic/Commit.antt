-- ===== src/Monotonic/Commit.antt =====
-- How a transaction of include/smashtable/monotonic_store.hpp ends: `reset`, `rollback` and `commit`.
pub mod Publish
pub mod Retreat
pub mod Recovery
pub mod Rollback
use smash_table.Base.{ℕ, ◌+◌, Bool, true, false, if◌then◌else◌, List, [], ◌∷◌, Option, none, some}
use smash_table.Monotonic.{
  KeyEquality, Versioned, Status, success, consistency, out_of_memory_heap, operation_not_permitted,
  failed, Staging, pending, is_staged,
}
use smash_table.Monotonic.Index.{Index, lookup, put, set}
use smash_table.Monotonic.Chain.{Chain, Counts, chain_discard, unmask_and_compact}
use smash_table.Monotonic.Store.{Store}
use smash_table.Monotonic.Transaction.{Transaction, unstage, validate_watches}

-- what the loop of `rollback` has brought back so far
pub record Recovered (K V : Type 0) : Type 0 where
  pub entries : Index K (Chain V)
  pub changes : Index K (Versioned V)
  pub result : Status

module _ {K V : Type 0} ⦃e : KeyEquality K⦄ where
  unfoldable pub reset : Store K V → Transaction K V → Store K V × Transaction K V × Status
  reset s t = (
    record s {
      entries =
          if is_staged t.staging
          then unstage t.changed_identifiers t.generation s.entries
          else s.entries;
      generation = s.generation + 1;
    },
    record {
      changes = [];
      watches = [];
      changed_identifiers = [];
      generation = s.generation + 1;
      staging = pending;
    },
    success,
  )

  -- one listed key of `rollback`: its version goes back to the changes under the new generation
  abbrev pub recover : K → ℕ → ℕ → Bool → Recovered K V → Recovered K V
  recover q g resumed can_store r =
      let left = chain_discard (lookup r.entries q) g in
      let entries = set q left.chain r.entries in
      elim left.destination [
        | none ↦ record r { entries = entries; result = consistency }
        | some v ↦
            if can_store
            then record r {
              entries = entries;
              changes = put q (record v { generation = resumed }) r.changes;
            }
            else record r { entries = entries; result = out_of_memory_heap }
      ]

  -- `stored` says of each position whether the change set could take the version
  abbrev pub recover_all : List K → ℕ → ℕ → ℕ → (ℕ → Bool) → Recovered K V → Recovered K V
  recover_all [] index g resumed stored r = r
  recover_all (q ∷ qs) index g resumed stored r =
      recover_all qs (index + 1) g resumed stored (recover q g resumed (stored index) r)

  unfoldable pub rollback :
      Store K V → Transaction K V → (ℕ → Bool) → Store K V × Transaction K V × Status
  rollback s t stored =
      let resumed = s.generation + 1 in
      let back =
        recover_all t.changed_identifiers 0 t.generation resumed stored
          (record { entries = s.entries; changes = t.changes; result = success }) in
      if is_staged t.staging
      then (
        record s { entries = back.entries; generation = resumed },
        record t { changes = back.changes; generation = resumed; staging = pending },
        back.result,
      )
      else (s, t, operation_not_permitted)

  unfoldable pub validate_for_commit : Store K V → Transaction K V → Status
  validate_for_commit s t =
      if is_staged t.staging then validate_watches s t.watches else operation_not_permitted

  -- `unmask_and_compact_` of a key in the index
  abbrev pub publish_key : K → ℕ → ℕ → Index K (Chain V) × Counts → Index K (Chain V) × Counts
  publish_key q g stamp (m, n) =
      let out = unmask_and_compact (lookup m q) g stamp n in (set q out.chain m, out.counts)

  abbrev pub publish_keys : List K → ℕ → ℕ → Index K (Chain V) × Counts → Index K (Chain V) × Counts
  publish_keys [] g stamp m = m
  publish_keys (q ∷ qs) g stamp m = publish_keys qs g stamp (publish_key q g stamp m)

  -- The transaction keeps its generation and its watches.
  unfoldable pub publish_under : Store K V → Transaction K V → Store K V × Transaction K V
  publish_under s t =
      let out =
        publish_keys t.changed_identifiers t.generation (s.commits + 1) (s.entries, s.counts) in
      (
        record s { entries = out.0; counts = out.1; commits = s.commits + 1 },
        record t { changed_identifiers = []; staging = pending },
      )

  unfoldable pub commit : Store K V → Transaction K V → Store K V × Transaction K V × Status
  unfolding validate_for_commit publish_under
  commit s t =
      let permitted = validate_for_commit s t in
      let (s', t') = publish_under s t in
      if failed permitted then (s, t, permitted) else (s', t', success)
