-- ===== src/HashTable.antt =====
-- The growable hash table, `basic_hash_table` in include/smashtable/basic_hash_table.hpp over the
-- storage of include/smashtable/hash_layout.hpp, as a map: slots with linear probing. A slot's two
-- bits and its key and value are one datum; no slot is locked where one thread at a time uses a table.
pub mod Sizes
pub mod Sound
pub mod Probes
pub mod Growth
pub mod Updates
pub mod Runs
use smash_table.Base.{
  ℕ, zero, suc, ◌+◌, ◌==◌, ◌≡◌, Bool, true, false, Option, none, some, if◌then◌else◌,
}
use smash_table.Monotonic.{KeyEquality}

-- `hash_slot_state_t`, with what a populated slot holds
pub data Slot (K V : Type 0) : Type 0 where
  free deleted : Slot K V
  populated : K → V → Slot K V

-- `hash_storage`. The regions of the buffer are one array; a table that is not allocated has no slot.
pub record Storage (K V : Type 0) : Type 0 where
  pub slots : ℕ → Slot K V
  pub slots_count : ℕ
  pub growth_threshold : ℕ
  pub populated_count : ℕ
  pub deleted_count : ℕ

-- the hasher, which the keys' equality respects, and the bytes that 32 slots take
pub record Hashing (K : Type 0) ⦃e : KeyEquality K⦄ : Type 0 where
  pub hasher : K → ℕ
  pub hasher_congr : (j k : K) → e.same j k ≡ true → hasher j ≡ hasher k
  pub bytes_in_bucket : ℕ

module _ {K V : Type 0} where
  abbrev pub is_free : Slot K V → Bool
  is_free free = true
  is_free deleted = false
  is_free (populated k v) = false

  abbrev pub is_deleted : Slot K V → Bool
  is_deleted free = false
  is_deleted deleted = true
  is_deleted (populated k v) = false

  abbrev pub is_populated : Slot K V → Bool
  is_populated free = false
  is_populated deleted = false
  is_populated (populated k v) = true

  -- what a slot's value region is read as, where its bits say that it holds one
  abbrev pub value : Slot K V → Option V
  value free = none
  value deleted = none
  value (populated k v) = some v

  abbrev pub write : ℕ → Slot K V → (ℕ → Slot K V) → ℕ → Slot K V
  write i s slots j = if j == i then s else slots j

  -- `hash_storage()` and what `deallocate` leaves
  abbrev pub unallocated : Storage K V
  unallocated = record {
    slots = λ i. free;
    slots_count = 0;
    growth_threshold = 0;
    populated_count = 0;
    deleted_count = 0;
  }

  -- `for_each` with a callback that does not halt
  unfoldable pub for_each : {S : Type 0} → ℕ → (ℕ → Slot K V) → (K → V → S → S) → S → S
  for_each zero slots callback s = s
  for_each (suc n) slots callback s =
      let before = for_each n slots callback s in
      elim (slots n) [ free ↦ before | deleted ↦ before | populated k v ↦ callback k v before ]
