-- ===== src/HashTable/Updates/Resized.antt =====
-- A change of the memory of the hash table, include/smashtable/basic_hash_table.hpp, as its lookups see it.
use smash_table.Base.{ℕ, ◌+◌, ◌%◌, ◌^◌, ◌≡◌, Bool}
use smash_table.Monotonic.{KeyEquality}
use smash_table.HashTable.{Storage, Hashing}
use smash_table.HashTable.Sound.{IsSound}
use smash_table.HashTable.Growth.{shrink_to_fit, reserve_more}
use smash_table.HashTable.Sizes.{size_bits_k}
use smash_table.HashTable.Growth.Reserved.{shrink_to_fit-Keeps, reserve-Resizes}
use smash_table.HashTable.Growth.Forced.{Keeps}
use smash_table.HashTable.Updates.{at}
use smash_table.HashTable.Updates.Reading.{at-Reads, at_of_Reads}

module _ {K V : Type 0} ⦃e : KeyEquality K⦄ ⦃h : Hashing K⦄ where
  -- the table is sound, of the same size, and a key finds what it found
  abbrev pub Preserves : Storage K V → K → Storage K V → Type 0
  Preserves t q t' = IsSound t' × (t'.populated_count ≡ t.populated_count) × (at t' q ≡ at t q)

  Keeps-Preserves : (t t' : Storage K V) (q : K) → IsSound t → Keeps t t' → Preserves t q t'
  Keeps-Preserves t t' q w z = (
    z.sound,
    z.populated_kept,
    at_of_Reads t' q (at t q) z.sound (z.reads q (at t q) (at-Reads t q w)),
  )

  -- The same of `shrink_to_fit`.
  pub shrink_to_fit-Preserves :
      (t : Storage K V) (can_allocate : Bool) (q : K)
      → IsSound t
      → Preserves t q (shrink_to_fit t can_allocate)
  shrink_to_fit-Preserves t can_allocate q w =
      Keeps-Preserves t (shrink_to_fit t can_allocate) q w (shrink_to_fit-Keeps t can_allocate w)

  -- The same of `reserve_more`.
  pub reserve_more-Preserves :
      (t : Storage K V) (new_elements : ℕ) (can_allocate : Bool) (q : K)
      → IsSound t
      → Preserves t q (reserve_more t new_elements can_allocate).0
  unfolding reserve_more
  reserve_more-Preserves t new_elements can_allocate q w =
      let planned = (new_elements + t.populated_count + t.deleted_count) % 2 ^ size_bits_k in
      let z = reserve-Resizes t planned can_allocate w in
      Keeps-Preserves t (reserve_more t new_elements can_allocate).0 q w z.keeps
