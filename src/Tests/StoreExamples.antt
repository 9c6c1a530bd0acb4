-- ===== src/Tests/StoreExamples.antt =====
-- The theorems on the monotonic store, include/smashtable/monotonic_store.hpp, at a store of pairs.
use smash_table.Monotonic.Store.Erasure.{erase_direct_lem}
use smash_table.Monotonic.Transaction.Watching.{stage-watch}
use smash_table.Base.{
  ℕ, ◌≡◌, refl, arith, true, false, not, ◌&&◌, ◌==◌, Bool-cases, inl, inr, if◌then◌else◌, none,
  some, [],
}
use smash_table.Monotonic.{
  KeyEquality, Item, success, failed, visible_now, read_conflict, key_not_found,
}
use smash_table.Monotonic.Index.{lookup}
use smash_table.Monotonic.Chain.{
  unmask_and_compact, chain_attach, readable_version, publish_directly,
}
use smash_table.Monotonic.Store
use smash_table.Monotonic.Store.{Store, size}
use smash_table.Monotonic.Transaction
use smash_table.Monotonic.Transaction.{
  Transaction, WriteMemory, StagingMemory, transaction, stage, watch,
}
use smash_table.Monotonic.Transaction.Stage.{IsFresh, stage_refused}
use smash_table.Monotonic.Transaction.Success.{find-stage}
use smash_table.Monotonic.Transaction.Writes.{
  IsOpen, Dated, transaction_lem, find-upsert, find-erase,
}
use smash_table.Monotonic.Store.Updates.{upsert_lem}
use smash_table.Monotonic.Commit.{commit, reset, rollback}
use smash_table.Monotonic.Commit.Rollback.{RollsBack, stage-rollback}
use smash_table.Monotonic.Commit.Publish.{stage-commit}
use smash_table.Monotonic.Commit.Retreat.{stage-reset}

eq_refl : (k : ℕ) → (k == k) ≡ true
eq_refl k = ground arith

eq_congr : (j k m : ℕ) → (j == k) ≡ true → (j == m) ≡ (k == m)
eq_congr j k m h = ground arith

instance abbrev number_keys : KeyEquality ℕ
number_keys = record { same = λ a b. a == b; same_refl = eq_refl; same_congr = eq_congr }

instance abbrev pair_item : Item ℕ (ℕ × ℕ)
pair_item = record { key = λ v. v.0; blank = λ k. (k, 0) }

-- allocators that never refuse
abbrev plenty : WriteMemory
plenty = record { copied = true; reserved = true; stored = true }

abbrev room : StagingMemory
room = record { prepared = true; slot = λ _. true; spares = true }

abbrev nothing : Store ℕ (ℕ × ℕ)
nothing = record {
  entries = [];
  generation = 0;
  commits = 0;
  counts = record { visible_count = 0; visible_deleted_count = 0 };
  spare_versions = 0;
}

-- a committed entry, an open transaction that overwrites it and adds another
abbrev stored : Store ℕ (ℕ × ℕ)
stored = (Store.upsert nothing (1, 10) true).0

abbrev opened : Store ℕ (ℕ × ℕ) × Transaction ℕ (ℕ × ℕ)
opened = transaction stored

abbrev writing : Transaction ℕ (ℕ × ℕ)
writing = (Transaction.upsert (Transaction.upsert opened.1 (1, 11) plenty).0 (2, 20) plenty).0

stored-Dated : (p : ℕ) → Dated stored.generation (lookup stored.entries p)
unfolding Store.upsert
stored-Dated p = elim (Bool-cases (1 == p)) [ inl t ↦ rw t (omega arith, tt) | inr t ↦ rw t tt ]

transaction_lem_example :
    IsOpen (transaction stored).1
    × IsFresh (transaction stored).1.generation (transaction stored).0.entries
    × ((p : ℕ)
        → Transaction.find (transaction stored).0 (transaction stored).1 p ≡ Store.find stored p)
transaction_lem_example = transaction_lem stored stored-Dated

abbrev overwriting : Transaction ℕ (ℕ × ℕ)
overwriting = (Transaction.upsert opened.1 (1, 11) plenty).0

find-upsert_example :
    IsOpen (Transaction.upsert opened.1 (1, 11) plenty).0
    × ((p : ℕ)
        → Transaction.find opened.0 (Transaction.upsert opened.1 (1, 11) plenty).0 p
          ≡ (if 1 == p then some (1, 11) else Transaction.find opened.0 opened.1 p))
unfolding Transaction.upsert transaction
find-upsert_example =
    find-upsert opened.0 opened.1 (1, 11) plenty (transaction_lem stored stored-Dated).0 refl

writing-IsOpen : IsOpen writing
unfolding Transaction.upsert transaction
writing-IsOpen =
    (find-upsert opened.0 overwriting (2, 20) plenty
      (find-upsert opened.0 opened.1 (1, 11) plenty (transaction_lem stored stored-Dated).0 refl).0
      refl).0

find-erase_example :
    (Transaction.contains opened.0 writing 2 ≡ true)
    × IsOpen (Transaction.erase opened.0 writing 2 plenty).0
    × ((p : ℕ)
        → Transaction.find opened.0 (Transaction.erase opened.0 writing 2 plenty).0 p
          ≡ (if 2 == p then none else Transaction.find opened.0 writing p))
unfolding Transaction.upsert Transaction.erase transaction
find-erase_example = find-erase opened.0 writing 2 plenty writing-IsOpen refl

writing-IsFresh : IsFresh writing.generation opened.0.entries
unfolding Transaction.upsert transaction
writing-IsFresh = (transaction_lem stored stored-Dated).1

stage-commit_example :
    ((commit (stage opened.0 writing room).0 (stage opened.0 writing room).1).2 ≡ success)
    × ((p : ℕ)
        → Store.find (commit (stage opened.0 writing room).0 (stage opened.0 writing room).1).0 p
          ≡ Transaction.find opened.0 writing p)
unfolding Store.upsert Transaction.upsert transaction stage
stage-commit_example =
    stage-commit opened.0 writing room writing-IsFresh writing-IsOpen.ready writing-IsOpen.distinct
      refl (omega arith)

find-stage_example : Store.find (stage opened.0 writing room).0 1 ≡ Store.find opened.0 1
unfolding Store.upsert Transaction.upsert transaction
find-stage_example = find-stage opened.0 writing room 1 writing-IsFresh writing-IsOpen.ready

stage-reset_example :
    ((p : ℕ)
      → lookup (reset (stage opened.0 writing room).0 (stage opened.0 writing room).1).0.entries p
        ≡ lookup opened.0.entries p)
    × ((reset (stage opened.0 writing room).0 (stage opened.0 writing room).1).0.counts
        ≡ opened.0.counts)
    × ((reset (stage opened.0 writing room).0 (stage opened.0 writing room).1).1.changes ≡ [])
    × ((reset (stage opened.0 writing room).0 (stage opened.0 writing room).1).1.watches ≡ [])
unfolding Store.upsert Transaction.upsert transaction stage
stage-reset_example = stage-reset opened.0 writing room writing-IsFresh writing-IsOpen.ready refl

-- the second new entry is refused
abbrev cramped : StagingMemory
cramped = record { prepared = true; slot = λ _. false; spares = true }

stage_refused_example :
    ((p : ℕ) → lookup (stage opened.0 writing cramped).0.entries p ≡ lookup opened.0.entries p)
    × ((stage opened.0 writing cramped).0.counts ≡ opened.0.counts)
    × ((stage opened.0 writing cramped).0.generation ≡ opened.0.generation)
    × ((stage opened.0 writing cramped).0.commits ≡ opened.0.commits)
    × ((stage opened.0 writing cramped).1 ≡ writing)
unfolding Store.upsert Transaction.upsert transaction stage
stage_refused_example = stage_refused opened.0 writing cramped writing-IsFresh refl

upsert_lem_example : Store.find (Store.upsert stored (1, 12) true).0 1 ≡ (
    if not (failed (Store.upsert stored (1, 12) true).1) && true
    then some (1, 12)
    else Store.find stored 1)
unfolding Store.upsert
upsert_lem_example = upsert_lem stored (1, 12) true 1 (omega arith)

abbrev committed_twice : Store ℕ (ℕ × ℕ) × Transaction ℕ (ℕ × ℕ)
committed_twice =
    let (s1, t1, _) = stage opened.0 writing room in
    let (s2, t2, _) = commit s1 t1 in
    let t3 = (Transaction.upsert t2 (1, 12) plenty).0 in
    let (s4, t4, _) = stage s2 t3 room in (s4, t4)

-- A transaction that is used again after a commit, without a `reset`, keeps its generation: while it
-- is staged the key that it published before is read as missing, and a second commit counts the
-- key's version twice.
reused_find : Store.find committed_twice.0 1 ≡ none
unfolding Store.find Store.upsert stage commit Transaction.upsert transaction unmask_and_compact
    visible_now chain_attach readable_version
reused_find = refl

reused_size : size (commit committed_twice.0 committed_twice.1).0 ≡ 3
unfolding size Store.upsert stage commit Transaction.upsert transaction unmask_and_compact
    visible_now chain_attach
reused_size = refl

stage-rollback_example :
    ((rollback (stage opened.0 writing room).0 (stage opened.0 writing room).1 (λ _. true)).2
      ≡ success)
    × RollsBack opened.0 writing
        (rollback (stage opened.0 writing room).0 (stage opened.0 writing room).1 (λ _. true)).0
        (rollback (stage opened.0 writing room).0 (stage opened.0 writing room).1 (λ _. true)).1
unfolding Store.upsert Transaction.upsert transaction stage
stage-rollback_example =
    stage-rollback opened.0 writing room writing-IsFresh writing-IsOpen.ready
      writing-IsOpen.distinct refl

stage-watch_example :
    stage (Store.upsert stored (1, 12) true).0 (watch stored opened.1 1 true).0 room
    ≡ ((Store.upsert stored (1, 12) true).0, (watch stored opened.1 1 true).0, read_conflict)
unfolding Store.upsert transaction visible_now publish_directly
stage-watch_example =
    stage-watch stored opened.1 1 (1, 12) true room stored-Dated (omega arith) refl refl refl refl

erase_direct_lem_example :
    ((Store.erase stored 1).1 ≡ (if Store.contains stored 1 then success else key_not_found))
    × (Store.find (Store.erase stored 1).0 1 ≡ (if true then none else Store.find stored 1))
unfolding Store.upsert visible_now
erase_direct_lem_example = erase_direct_lem stored 1 1 (refl, refl, tt)
