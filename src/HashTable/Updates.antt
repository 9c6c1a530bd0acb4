-- ===== src/HashTable/Updates.antt =====
-- Lookups, insertions and erasures of the hash table,
-- include/smashtable/basic_hash_table.hpp.
pub mod Reading
pub mod Correct
pub mod Erased
pub mod Resized
use smash_table.Base.{ℕ, ◌+◌, ◌-◌, ◌==◌, Bool, true, false, Option, none, some, if◌then◌else◌}
use smash_table.Monotonic.{KeyEquality}
use smash_table.HashTable.{Slot, deleted, Storage, Hashing, value, write}
use smash_table.HashTable.Probes.{
  UpsertResult, inserted, updated, no_slot, no_memory, probe_to_find, probe_to_upsert,
}
use smash_table.HashTable.Growth.{
  ReserveResult, unchanged, reallocated, refused, reserve_for_absent_key,
}

-- the statuses of `upsert`
pub data UpsertStatus : Type 0 where
  success out_of_memory_heap capacity_exhausted : UpsertStatus

abbrev pub status_of : UpsertResult → UpsertStatus
status_of inserted = success
status_of updated = success
status_of no_slot = capacity_exhausted
status_of no_memory = success

module _ {K V : Type 0} ⦃e : KeyEquality K⦄ ⦃h : Hashing K⦄ where
  unfoldable pub contains : Storage K V → K → Bool
  contains t wanted = elim (probe_to_find t wanted) [ none ↦ false | some i ↦ true ]

  unfoldable pub count : Storage K V → K → ℕ
  unfolding contains
  count t wanted = if contains t wanted then 1 else 0

  -- the slot of the iterator, which is one past the last where the key is missing
  unfoldable pub find : Storage K V → K → ℕ
  find t wanted = elim (probe_to_find t wanted) [ none ↦ t.slots_count | some i ↦ i ]

  -- `at`; `none` is where the code aborts
  unfoldable pub at : Storage K V → K → Option V
  at t wanted = elim (probe_to_find t wanted) [ none ↦ none | some i ↦ value (t.slots i) ]

  unfoldable pub upsert : Storage K V → K → V → Bool → Storage K V × UpsertStatus
  upsert t k v can_allocate =
      let reserved = reserve_for_absent_key t k can_allocate in
      let stored = probe_to_upsert reserved.0 k v in
      elim reserved.1 [
        | unchanged ↦ (stored.0, status_of stored.1)
        | reallocated ↦ (stored.0, status_of stored.1)
        | refused ↦ (reserved.0, out_of_memory_heap)
      ]

  -- `emplace` without tags: the outcome that it reports
  unfoldable pub emplace : Storage K V → K → V → Bool → Storage K V × UpsertResult
  emplace t k v can_allocate =
      let reserved = reserve_for_absent_key t k can_allocate in
      elim reserved.1 [
        | unchanged ↦ probe_to_upsert reserved.0 k v
        | reallocated ↦ probe_to_upsert reserved.0 k v
        | refused ↦ (reserved.0, no_memory)
      ]

  -- `erase` of the slot that a reference points to
  unfoldable pub erase_slot : Storage K V → ℕ → Storage K V
  erase_slot t i = record t {
    slots = write i deleted t.slots;
    deleted_count = t.deleted_count + 1;
    populated_count = t.populated_count - 1;
  }

  unfoldable pub erase : Storage K V → K → Storage K V × Bool
  unfolding erase_slot
  erase t wanted = elim (probe_to_find t wanted) [
    | none ↦ (t, false)
    | some i ↦ (erase_slot t i, true)
  ]
