-- ===== src/HashTable/Probes.antt =====
-- The probes of the hash table, `probe_to_find`, `probe_to_insert` and `probe_to_upsert` in
-- include/smashtable/basic_hash_table.hpp. The number of slots is a power of two, so that masking by
-- it less one is the remainder.
pub mod Round
pub mod Found
pub mod Settled
pub mod Spots
use smash_table.Base.{
  ℕ, zero, suc, ◌+◌, ◌-◌, ◌%◌, ◌==◌, Bool, true, false, Option, none, some, if◌then◌else◌,
}
use smash_table.Monotonic.{KeyEquality}
use smash_table.HashTable.{
  Slot, free, deleted, populated, Storage, Hashing, value, write, is_deleted,
}

-- `upsert_result_t`
pub data UpsertResult : Type 0 where
  inserted updated no_slot no_memory : UpsertResult

-- the slot that a probe hands to a callback: one with an equal key, or one for a new element
pub data Spot : Type 0 where
  equal reusable unused : ℕ → Spot
  nowhere : Spot

abbrev pub first_seen : Option ℕ → ℕ → Option ℕ
first_seen none offset = some offset
first_seen (some i) offset = some i

module _ {K V : Type 0} ⦃e : KeyEquality K⦄ ⦃h : Hashing K⦄ where
  abbrev pub initial_offset : Storage K V → K → ℕ
  initial_offset t wanted = h.hasher wanted % t.slots_count

  abbrev pub next_offset : Storage K V → ℕ → ℕ
  next_offset t offset = (offset + 1) % t.slots_count

  -- the loop of `probe_to_find`, on fuel; `none` where that runs out
  unfoldable pub find_loop : ℕ → Storage K V → K → ℕ → Option (Option ℕ)
  find_loop zero t wanted offset = none
  find_loop (suc fuel) t wanted offset =
      let onward : Option (Option ℕ) = find_loop fuel t wanted (next_offset t offset) in
      let step = if next_offset t offset == initial_offset t wanted then some none else onward in
      elim (t.slots offset) [
        | free ↦ some none
        | deleted ↦ step
        | populated k v ↦ if e.same k wanted then some (some offset) else step
      ]

  unfoldable pub probe_to_find : Storage K V → K → Option ℕ
  unfolding find_loop
  probe_to_find t wanted =
      if t.populated_count == 0
      then none
      else elim (find_loop t.slots_count t wanted (initial_offset t wanted)) [
        | none ↦ none
        | some found ↦ found
      ]

  -- the loop of `probe_to_upsert`, with the probes left and the first deleted slot seen
  unfoldable pub upsert_loop : ℕ → Storage K V → K → ℕ → Option ℕ → Spot
  upsert_loop zero t wanted offset seen = elim seen [ none ↦ nowhere | some i ↦ reusable i ]
  upsert_loop (suc probes) t wanted offset seen =
      let onward = upsert_loop probes t wanted (next_offset t offset) in
      elim (t.slots offset) [
        | free ↦ elim seen [ none ↦ unused offset | some i ↦ reusable i ]
        | deleted ↦ onward (first_seen seen offset)
        | populated k v ↦ if e.same k wanted then equal offset else onward seen
      ]

  unfoldable pub insert_loop : ℕ → Storage K V → ℕ → Spot
  insert_loop zero t offset = nowhere
  insert_loop (suc probes) t offset =
      let onward = insert_loop probes t (next_offset t offset) in
      elim (t.slots offset) [
        | free ↦ unused offset
        | deleted ↦ reusable offset
        | populated k v ↦ onward
      ]

  -- the assignment to the value of a slot with an equal key
  abbrev pub with_value : Slot K V → V → Slot K V
  with_value free v = free
  with_value deleted v = deleted
  with_value (populated k old) v = populated k v

  -- the callbacks, the marking of the slot and the counters
  abbrev pub settle : Storage K V → K → V → Spot → Storage K V × UpsertResult
  settle t wanted v (equal i) =
      (record t { slots = write i (with_value (t.slots i) v) t.slots }, updated)
  settle t wanted v (reusable i) = (
    record t {
      slots = write i (populated wanted v) t.slots;
      populated_count = t.populated_count + 1;
      deleted_count = t.deleted_count - 1;
    },
    inserted,
  )
  settle t wanted v (unused i) = (
    record t {
      slots = write i (populated wanted v) t.slots;
      populated_count = t.populated_count + 1;
    },
    inserted,
  )
  settle t wanted v nowhere = (t, no_slot)

  unfoldable pub probe_to_upsert : Storage K V → K → V → Storage K V × UpsertResult
  unfolding upsert_loop
  probe_to_upsert t wanted v =
      settle t wanted v (upsert_loop t.slots_count t wanted (initial_offset t wanted) none)

  unfoldable pub probe_to_insert : Storage K V → K → V → Storage K V × UpsertResult
  unfolding insert_loop
  probe_to_insert t wanted v =
      settle t wanted v (insert_loop t.slots_count t (initial_offset t wanted))
