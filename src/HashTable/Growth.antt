-- ===== src/HashTable/Growth.antt =====
-- The memory of the hash table, `hash_storage::make` in include/smashtable/hash_layout.hpp and the
-- region "Memory Management" of include/smashtable/basic_hash_table.hpp. The allocator is a Boolean
-- that says whether it has the buffer that it is asked for.
pub mod Prefix
pub mod Moved
pub mod Forced
pub mod Reserved
use smash_table.Base.{
  ℕ, ◌+◌, ◌*◌, ◌/◌, ◌%◌, ◌^◌, ltb, leb, ◌==◌, Bool, true, false, ◌&&◌, not, if◌then◌else◌, Option,
  none, some,
}
use smash_table.Monotonic.{KeyEquality}
use smash_table.HashTable.{Slot, free, populated, Storage, Hashing, unallocated, for_each}
use smash_table.HashTable.Sizes.{
  slots_for, from_slots, is_addressable, unrepresentable_k, hash_bucket_capacity_k, size_bits_k,
}
use smash_table.HashTable.Probes.{probe_to_find, probe_to_insert}

-- `reserve_result_t`
pub data ReserveResult : Type 0 where
  unchanged reallocated refused : ReserveResult

module _ {K V : Type 0} where
  abbrev pub is_allocated : Storage K V → Bool
  is_allocated t = not (t.slots_count == 0)

  unfoldable pub clear : Storage K V → Storage K V
  clear t = record t { slots = λ i. free; populated_count = 0; deleted_count = 0 }

module _ {K V : Type 0} ⦃e : KeyEquality K⦄ ⦃h : Hashing K⦄ where
  unfoldable pub make : ℕ → Bool → Storage K V
  make slots can_allocate =
      let buckets = slots / hash_bucket_capacity_k in
      if is_addressable slots
        && not (ltb (unrepresentable_k / h.bytes_in_bucket) buckets)
        && not (buckets * h.bytes_in_bucket == 0)
        && can_allocate
      then record {
        slots = λ i. free;
        slots_count = slots;
        growth_threshold = slots * 3 / 4;
        populated_count = 0;
        deleted_count = 0;
      }
      else unallocated

  -- the callback of `move_to_new`
  unfoldable pub move_element : K → V → Storage K V → Storage K V
  move_element k v target = (probe_to_insert target k v).0

  -- `move_to_new`, the table that it returns
  unfoldable pub move_to_new : Storage K V → ℕ → Bool → Storage K V
  move_to_new t slots can_allocate =
      let target : Storage K V = make slots can_allocate in
      if is_allocated target then for_each t.slots_count t.slots move_element target else target

  unfoldable pub force_resize : Storage K V → ℕ → Bool → Storage K V × ReserveResult
  force_resize t slots can_allocate =
      let resized = move_to_new t slots can_allocate in
      if ltb slots t.populated_count
      then (t, refused)
      else (if not (slots == 0) && not (is_allocated resized)
          then (t, refused)
          else (resized, reallocated))

  unfoldable pub reserve : Storage K V → ℕ → Bool → Storage K V × ReserveResult
  reserve t planned_elements can_allocate =
      if leb planned_elements t.growth_threshold
      then (t, unchanged)
      else force_resize t (slots_for planned_elements) can_allocate

  unfoldable pub reserve_more : Storage K V → ℕ → Bool → Storage K V × ReserveResult
  reserve_more t new_elements can_allocate =
      reserve t ((new_elements + t.populated_count + t.deleted_count) % 2 ^ size_bits_k)
        can_allocate

  unfoldable pub shrink_to_fit : Storage K V → Bool → Storage K V
  shrink_to_fit t can_allocate =
      let new_capacity = slots_for t.populated_count in
      if new_capacity == t.slots_count
      then t
      else (if t.populated_count == 0
          then unallocated
          else (force_resize t new_capacity can_allocate).0)

  unfoldable pub rehash : Storage K V → ℕ → Bool → Storage K V × ReserveResult
  rehash t count_buckets can_allocate =
      let wanted = from_slots (count_buckets * hash_bucket_capacity_k % 2 ^ size_bits_k) in
      let needed = slots_for t.populated_count in
      force_resize t (if leb needed wanted then wanted else needed) can_allocate

  unfoldable pub reserve_for_absent_key : Storage K V → K → Bool → Storage K V × ReserveResult
  reserve_for_absent_key t wanted can_allocate =
      let planned_elements = 1 + t.populated_count + t.deleted_count in
      if leb planned_elements t.growth_threshold
      then (t, unchanged)
      else elim (probe_to_find t wanted) [
        | none ↦ reserve t planned_elements can_allocate
        | some i ↦ (t, unchanged)
      ]
