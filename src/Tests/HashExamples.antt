-- ===== src/Tests/HashExamples.antt =====
-- The theorems on the hash table, include/smashtable/basic_hash_table.hpp, at sample tables of numbers that
-- are hashed to themselves.
use smash_table.Base.{
  ℕ, ◌+◌, ◌*◌, ◌/◌, ◌^◌, ◌≤◌, ◌≡◌, ◌⊎◌, refl, arith, true, false, Option, none, some, List, [], ◌∷◌,
  ◌==◌, if◌then◌else◌, is_some,
}
use smash_table.Monotonic.{KeyEquality}
use smash_table.Monotonic.Index.{lookup}
use smash_table.HashTable.{Storage, Hashing, unallocated, for_each}
use smash_table.HashTable.Sound.{IsSound, one_if, unallocated-IsSound}
use smash_table.HashTable.Sizes.{
  is_addressable, slots_for, from_slots, larger_of, hash_bucket_capacity_k, roundup_to_pow2,
  bits_to_hold, is_pow2,
}
use smash_table.HashTable.Sizes.Rounding.{slots_for_lem}
use smash_table.HashTable.Probes.{
  find_loop, initial_offset, probe_to_find, probe_to_upsert, probe_to_insert, upsert_loop,
  insert_loop,
}
use smash_table.HashTable.Probes.Found.{Finds, find_loop-Finds}
use smash_table.HashTable.Growth.{
  reserve, rehash, make, reallocated, reserve_for_absent_key, force_resize, move_to_new,
  move_element,
}
use smash_table.HashTable.Growth.Reserved.{reserve_room}
use smash_table.HashTable.Updates.{at, upsert, erase, erase_slot, success, out_of_memory_heap}
use smash_table.HashTable.Updates.Correct.{Refusal, upsert-Refusal}
use smash_table.HashTable.Updates.Erased.{erase-at}
use smash_table.HashTable.Runs.{Command, upserts, erases, run, follow, Allows, run-Allows}

number_same_congr : (j k m : ℕ) → j == k ≡ true → j == m ≡ k == m
number_same_congr j k m h = ground arith

number_same_refl : (k : ℕ) → k == k ≡ true
number_same_refl k = ground arith

number_hash_congr : (j k : ℕ) → j == k ≡ true → j ≡ k
number_hash_congr j k h = ground arith

instance abbrev number_keys : KeyEquality ℕ
number_keys = record {
  same = λ j k. j == k;
  same_refl = number_same_refl;
  same_congr = number_same_congr;
}

instance abbrev number_hash : Hashing ℕ
number_hash = record { hasher = λ k. k; hasher_congr = number_hash_congr; bytes_in_bucket = 264 }

-- two keys of one probe run, one of them gone again, and a refused one
abbrev calls : List (Command ℕ ℕ)
calls = upserts 1 10 true ∷ upserts 33 20 false ∷ erases 1 ∷ upserts 65 30 false ∷ erases 7 ∷ []

run-Allows_example :
    IsSound (run unallocated calls).0
    × (at (run unallocated calls).0 65 ≡ lookup (follow [] calls (run unallocated calls).1) 65)
    × Allows [] calls (run unallocated calls).1
run-Allows_example = run-Allows calls 65

-- the table after them
abbrev filled : Storage ℕ ℕ
filled = (run unallocated calls).0

filled-IsSound : IsSound filled
filled-IsSound = (run-Allows calls 0).0

filled_replies : (run {K = ℕ} {V = ℕ} unallocated calls).1 ≡ true ∷ true ∷ true ∷ true ∷ false ∷ []
unfolding run upsert erase erase_slot reserve_for_absent_key reserve force_resize move_to_new make
    for_each move_element probe_to_find probe_to_upsert probe_to_insert find_loop upsert_loop
    insert_loop slots_for roundup_to_pow2 bits_to_hold is_addressable is_pow2
filled_replies = refl

filled_slots : filled.slots_count ≡ 32
unfolding run upsert erase erase_slot reserve_for_absent_key reserve force_resize move_to_new make
    for_each move_element probe_to_find probe_to_upsert probe_to_insert find_loop upsert_loop
    insert_loop slots_for roundup_to_pow2 bits_to_hold is_addressable is_pow2
filled_slots = refl

grown_report : (reserve {K = ℕ} {V = ℕ} unallocated 25 true).1 ≡ reallocated
unfolding run upsert erase erase_slot reserve_for_absent_key reserve force_resize move_to_new make
    for_each move_element probe_to_find probe_to_upsert probe_to_insert find_loop upsert_loop
    insert_loop slots_for roundup_to_pow2 bits_to_hold is_addressable is_pow2
grown_report = refl

upsert-Refusal_example :
    IsSound (upsert filled 33 21 true).0
    × ((((upsert filled 33 21 true).1 ≡ success)
          × (at (upsert filled 33 21 true).0 65 ≡ (if 33 == 65 then some 21 else at filled 65)))
        ⊎ (((upsert filled 33 21 true).1 ≡ out_of_memory_heap)
            × Refusal filled 33 (upsert filled 33 21 true).0))
upsert-Refusal_example = upsert-Refusal filled 33 65 21 true filled-IsSound

erase-at_example :
    IsSound (erase filled 33).0
    × (at (erase filled 33).0 65 ≡ (if 33 == 65 then none else at filled 65))
    × ((erase filled 33).1 ≡ is_some (at filled 33))
    × ((erase filled 33).0.populated_count + one_if (erase filled 33).1 ≡ filled.populated_count)
erase-at_example = erase-at filled 33 65 filled-IsSound

-- as many buckets as leave no slot of 64 bits: the table is compacted
rehash_wraps : (rehash filled (2 ^ 59) true).0.slots_count ≡ 32
unfolding rehash from_slots run upsert erase reserve_for_absent_key reserve force_resize move_to_new
    make for_each move_element probe_to_find probe_to_upsert probe_to_insert insert_loop slots_for
    roundup_to_pow2 bits_to_hold is_addressable is_pow2
rehash_wraps = refl

slots_for_lem_example :
    (is_addressable (slots_for 25) ≡ true)
    × (25 ≤ slots_for 25 * 3 / 4)
    × (slots_for 25 ≤ larger_of hash_bucket_capacity_k (8 * 25 / 3))
slots_for_lem_example = slots_for_lem 25 (omega arith) (omega arith)

reserve_room_example : 25 ≤ (reserve {K = ℕ} {V = ℕ} unallocated 25 true).0.growth_threshold
reserve_room_example =
    reserve_room unallocated 25 true unallocated-IsSound (omega arith) grown_report

find_loop-Finds_example :
    (r : Option ℕ) × (find_loop 40 filled 65 (initial_offset filled 65) ≡ some r)
    × Finds filled 65 r
find_loop-Finds_example =
    find_loop-Finds filled 65 40 filled-IsSound (omega (arith, filled_slots))
      (omega (arith, filled_slots))
