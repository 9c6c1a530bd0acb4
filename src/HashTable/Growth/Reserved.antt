-- ===== src/HashTable/Growth/Reserved.antt =====
-- Growing, shrinking and rehashing the hash table, include/smashtable/basic_hash_table.hpp: whatever the
-- allocator does, the table keeps what it reads as.
use smash_table.Base.{
  ℕ, ◌*◌, ◌/◌, ◌%◌, ◌^◌, ◌<◌, ◌≤◌, ◌⊎◌, ◌≡◌, refl, sym, ◌∙◌, ap, arith, Bool, true, false, ◌&&◌,
  not, ◌==◌, ltb, leb, if◌then◌else◌, inl, inr, Bool-cases,
}
use smash_table.Monotonic.{KeyEquality}
use smash_table.HashTable.{Storage, Hashing}
use smash_table.HashTable.Sound.{IsSound, Misses}
use smash_table.HashTable.Sizes.{
  is_addressable, slots_for, from_slots, unrepresentable_k, hash_bucket_capacity_k, size_bits_k,
  larger_of,
}
use smash_table.HashTable.Sizes.Rounding.{slots_for_lem}
use smash_table.HashTable.Growth.{
  ReserveResult, unchanged, reallocated, refused, is_allocated, move_to_new, force_resize, reserve,
  rehash, shrink_to_fit, clear,
}
use smash_table.HashTable.Growth.Prefix.{zeroed-IsSound, zeroed-Misses}
use smash_table.HashTable.Growth.Forced.{
  too_many, slots_for_many, Keeps, Resizes, same-Keeps, unallocated-Keeps, force_resize-Resizes,
}

ReserveResult-cases : (r : ReserveResult) → (r ≡ unchanged) ⊎ ((r ≡ refused) ⊎ (r ≡ reallocated))
ReserveResult-cases unchanged = inl refl
ReserveResult-cases refused = inr (inl refl)
ReserveResult-cases reallocated = inr (inr refl)

larger_leb : (a b : ℕ) → larger_of a b ≡ (if leb a b then b else a)
larger_leb a b = ground arith

module _ {K V : Type 0} ⦃e : KeyEquality K⦄ ⦃h : Hashing K⦄ where
  pub reserve-Resizes :
      (t : Storage K V) (planned_elements : ℕ) (can_allocate : Bool)
      → IsSound t
      → Resizes t (slots_for planned_elements) (reserve t planned_elements can_allocate)
  unfolding reserve
  reserve-Resizes t planned_elements can_allocate w =
      elim (Bool-cases (leb planned_elements t.growth_threshold)) [
        | inl b ↦ rw b (record {
          keeps = same-Keeps t w;
          refused_same = λ x. absurd (cc x);
          unchanged_same = λ x. refl;
          grown = λ x. absurd (cc x);
        })
        | inr b ↦ rw b (force_resize-Resizes t (slots_for planned_elements) can_allocate w)
      ]

  changes :
      (t : Storage K V) (slots : ℕ) (can_allocate : Bool)
      → (force_resize t slots can_allocate).1 ≡ unchanged
      → false ≡ true
  unfolding force_resize
  changes t slots can_allocate u = elim (Bool-cases (ltb slots t.populated_count)) [
    | inl s ↦ let never : refused ≡ unchanged = rw s at u in absurd (cc never)
    | inr s ↦
        elim (Bool-cases
          (not (slots == 0) && not (is_allocated (move_to_new t slots can_allocate)))) [
            | inl a ↦ let never : refused ≡ unchanged = rw (s, a) at u in absurd (cc never)
            | inr a ↦ let never : reallocated ≡ unchanged = rw (s, a) at u in absurd (cc never)
          ]
  ]

  -- it is left as it is only where there is room
  pub reserve-unchanged :
      (t : Storage K V) (planned_elements : ℕ) (can_allocate : Bool)
      → (reserve t planned_elements can_allocate).1 ≡ unchanged
      → planned_elements ≤ t.growth_threshold
  unfolding reserve
  reserve-unchanged t planned_elements can_allocate u =
      elim (Bool-cases (leb planned_elements t.growth_threshold)) [
        | inl b ↦ ground arith
        | inr b ↦
            let never = changes t (slots_for planned_elements) can_allocate (rw b at u) in
            absurd (cc never)
      ]

  -- A sound table that was made larger for a positive number of elements has room for them below its
  -- threshold.
  pub reserve_room :
      (t : Storage K V) (planned_elements : ℕ) (can_allocate : Bool)
      → IsSound t
      → 0 < planned_elements
      → (reserve t planned_elements can_allocate).1 ≡ reallocated
      → planned_elements ≤ (reserve t planned_elements can_allocate).0.growth_threshold
  reserve_room t planned_elements can_allocate w p r =
      let z = reserve-Resizes t planned_elements can_allocate w in
      let grown = z.grown r in
      let threshold = z.keeps.sound.threshold_right in
      elim (Bool-cases (leb planned_elements (unrepresentable_k / 4))) [
        | inl b ↦
            let fits = slots_for_lem planned_elements p (ground arith) in
            let same = ap (λ x. x * 3 / 4) grown.0 in omega (arith, threshold, same, fits.1)
        | inr b ↦
            let many : slots_for planned_elements ≡ unrepresentable_k =
              slots_for_many planned_elements b in
            let never : false ≡ true = sym too_many ∙ ap is_addressable (sym many) ∙ grown.1 in
            absurd (cc never)
      ]

  -- refused, and then nothing has changed, or moved into as many slots
  abbrev pub Attempts : Storage K V → ℕ → Storage K V × ReserveResult → Type 0
  Attempts t slots result =
      ((result.1 ≡ refused) × (result.0 ≡ t))
      ⊎ ((result.1 ≡ reallocated) × (result.0.slots_count ≡ slots))

  pub force_resize-Attempts :
      (t : Storage K V) (slots : ℕ) (can_allocate : Bool)
      → IsSound t
      → Attempts t slots (force_resize t slots can_allocate)
  force_resize-Attempts t slots can_allocate w =
      let result = force_resize t slots can_allocate in
      let z = force_resize-Resizes t slots can_allocate w in
      elim (ReserveResult-cases result.1) [
        | inl u ↦ absurd (cc (changes t slots can_allocate u))
        | inr (inl r) ↦ inl (r, z.refused_same r)
        | inr (inr r) ↦ inr (r, (z.grown r).0)
      ]

  -- `rehash` keeps what a sound table reads as, also where it asks for no bucket, and moves only into
  -- at least the slots asked for, and those that the elements need.
  pub rehash-Keeps :
      (t : Storage K V) (count_buckets : ℕ) (can_allocate : Bool)
      → IsSound t
      → Keeps t (rehash t count_buckets can_allocate).0
        × Attempts t
            (larger_of
              (slots_for t.populated_count)
              (from_slots (count_buckets * hash_bucket_capacity_k % 2 ^ size_bits_k)))
            (rehash t count_buckets can_allocate)
  unfolding rehash
  rehash-Keeps t count_buckets can_allocate w =
      let wanted = from_slots (count_buckets * hash_bucket_capacity_k % 2 ^ size_bits_k) in
      let needed = slots_for t.populated_count in
      let slots = if leb needed wanted then wanted else needed in
      let larger : larger_of needed wanted ≡ slots = larger_leb needed wanted in
      (
        (force_resize-Resizes t slots can_allocate w).keeps,
        rw larger (force_resize-Attempts t slots can_allocate w),
      )

  -- `shrink_to_fit` keeps what a sound table reads as, whatever the allocator does.
  pub shrink_to_fit-Keeps :
      (t : Storage K V) (can_allocate : Bool) → IsSound t → Keeps t (shrink_to_fit t can_allocate)
  unfolding shrink_to_fit
  shrink_to_fit-Keeps t can_allocate w =
      let new_capacity = slots_for t.populated_count in
      elim (Bool-cases (new_capacity == t.slots_count)) [
        | inl s ↦ rw s (same-Keeps t w)
        | inr s ↦ elim (Bool-cases (t.populated_count == 0)) [
          | inl z ↦ rw (s, z) (unallocated-Keeps t w (ground arith))
          | inr z ↦ rw (s, z) (force_resize-Resizes t new_capacity can_allocate w).keeps
        ]
      ]

  -- `clear` leaves a sound table of the same slots that holds no key.
  pub clear-IsSound : (t : Storage K V) (q : K) → IsSound t → IsSound (clear t) × Misses (clear t) q
  unfolding clear
  clear-IsSound t q w =
      let z = zeroed-IsSound {K = K} {V = V} t.slots_count in
      (
        record {
          populated_right = z.populated_right;
          deleted_right = z.deleted_right;
          threshold_right = w.threshold_right;
          reachable = z.reachable;
          unique = z.unique;
        },
        zeroed-Misses t.slots_count q,
      )
