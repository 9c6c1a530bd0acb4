-- ===== src/HashTable/Sizes.antt =====
-- How many slots a hash table gets, `hash_slots_count_t` in include/smashtable/hash_layout.hpp and
-- `roundup_to_pow2` in include/smashtable/shared.hpp, for a `size_t` of 64 bits.
pub mod Rounding
use smash_table.Base.{
  ℕ, zero, suc, ◌+◌, ◌-◌, ◌*◌, ◌/◌, ◌%◌, ◌^◌, ◌==◌, ltb, leb, Bool, true, false, ◌&&◌, ◌||◌,
  if◌then◌else◌,
}

abbrev pub size_bits_k : ℕ
size_bits_k = 64

abbrev pub hash_bucket_capacity_k : ℕ
hash_bucket_capacity_k = 32

-- the largest `size_t`
abbrev pub unrepresentable_k : ℕ
unrepresentable_k = 18446744073709551615

-- `bits_to_hold`, by halves: of a number of no more bits than the first argument
unfoldable pub bits_to_hold : ℕ → ℕ → ℕ
bits_to_hold zero x = 0
bits_to_hold (suc bits) x = let rest = bits_to_hold bits (x / 2) in if x == 0 then 0 else rest + 1

unfoldable pub roundup_to_pow2 : ℕ → ℕ
roundup_to_pow2 x =
    let shift = bits_to_hold size_bits_k (x - 1) in
    if leb x 1 then x else (if leb size_bits_k shift then 0 else 2 ^ shift)

abbrev pub larger_of : ℕ → ℕ → ℕ
larger_of a b = if ltb a b then b else a

-- the rounded count of slots, or the mark of one that no power of two covers
abbrev pub widened : ℕ → ℕ
widened rounded_slots =
    if rounded_slots == 0 then unrepresentable_k else larger_of rounded_slots hash_bucket_capacity_k

-- `hash_slots_count_t(elements)`, its `raw`
unfoldable pub slots_for : ℕ → ℕ
slots_for elements =
    if elements == 0
    then 0
    else (if ltb (unrepresentable_k / 4) elements
        then unrepresentable_k
        else widened (roundup_to_pow2 (elements * 4 / 3)))

unfoldable pub from_slots : ℕ → ℕ
from_slots slots = if slots == 0 then 0 else widened (roundup_to_pow2 slots)

-- whether a positive count below 2 ^ bits has one bit only, `(raw & (raw - 1)) == 0`
unfoldable pub is_pow2 : ℕ → ℕ → Bool
is_pow2 zero raw = false
is_pow2 (suc bits) raw =
    let rest = is_pow2 bits (raw / 2) in
    if raw == 1 then true else (if raw % 2 == 0 then rest else false)

unfoldable pub is_addressable : ℕ → Bool
is_addressable raw = raw == 0 || (leb hash_bucket_capacity_k raw && is_pow2 size_bits_k raw)
