-- ===== src/HashTable/Sizes/Rounding.antt =====
-- The rounding of slot counts, include/smashtable/hash_layout.hpp: the count is a power of two that
-- leaves the elements within the load factor.
use native.Mathlib.Nat.{pow-le-pow_right, one-le-pow, pow-suc}
use native.Mathlib.Numerals.{towards_suc}
use smash_table.Base.{
  ℕ, zero, suc, ◌+◌, ◌-◌, ◌*◌, ◌/◌, ◌%◌, ◌^◌, ◌<◌, ◌≤◌, ◌≡◌, refl, ◌∙◌, arith, true, false, ltb,
  leb, ◌==◌, inl, inr, Bool-cases,
}
use smash_table.HashTable.Sizes.{
  bits_to_hold, roundup_to_pow2, slots_for, is_pow2, is_addressable, widened, larger_of,
  unrepresentable_k, hash_bucket_capacity_k,
}

pow_step : (k : ℕ) → 2 ^ (k + 1) ≡ 2 ^ k * 2
pow_step k = simp towards_suc (pow-suc 2 k)

pow_positive : (k : ℕ) → 1 ≤ 2 ^ k
pow_positive k = one-le-pow k 2 (omega arith)

bits_to_hold-zero : (bits : ℕ) → bits_to_hold bits 0 ≡ 0
unfolding bits_to_hold
bits_to_hold-zero zero = refl
bits_to_hold-zero (suc bits) = refl

-- a number of no more bits than asked for is below the power of its bits, and not below half of that
bits_to_hold_lem :
    (bits x : ℕ)
    → x < 2 ^ bits
    → (x < 2 ^ bits_to_hold bits x) × (1 ≤ x → 2 ^ bits_to_hold bits x ≤ 2 * x)
unfolding bits_to_hold
bits_to_hold_lem zero x h = (h, λ p. omega arith)
bits_to_hold_lem (suc bits) x h =
    let half : x / 2 < 2 ^ bits = omega (arith, h, pow-suc 2 bits) in
    let below = bits_to_hold_lem bits (x / 2) half in
    let b = bits_to_hold bits (x / 2) in
    let up = pow_step b in
    elim (Bool-cases (x == 0)) [
      | inl z ↦
          let none : x ≡ 0 = ground arith in rw z (omega (arith, none), λ p. absurd (omega arith))
      | inr z ↦ rw z (
        omega (arith, below.0, up),
        λ p. elim (Bool-cases (ltb x 2)) [
          | inl o ↦ let one : x ≡ 1 = ground arith in rw (one, bits_to_hold-zero bits) (omega arith)
          | inr o ↦
              let two : 2 ≤ x = ground arith in
              let least = below.1 (omega arith) in omega (arith, least, up)
        ],
      )
    ]

-- the shift that the rounding of x takes, and what it gives
shift_lt : (x : ℕ) → 1 < x → x ≤ 2 ^ 63 → bits_to_hold 64 (x - 1) < 64
shift_lt x h b =
    let shift = bits_to_hold_lem 64 (x - 1) (omega arith) in
    let least = shift.1 (omega arith) in
    elim (Bool-cases (ltb (bits_to_hold 64 (x - 1)) 64)) [
      | inl t ↦ ground arith
      | inr t ↦
          let high : 64 ≤ bits_to_hold 64 (x - 1) = ground arith in
          let never : 2 ^ 64 ≤ 2 ^ bits_to_hold 64 (x - 1) = pow-le-pow_right (omega arith) high in
          absurd (omega (arith, least, never))
    ]

-- The rounding of a count above one that a power of two covers is that power: not below the count, and
-- below twice of it.
pub roundup_to_pow2_lem :
    (x : ℕ)
    → 1 < x
    → x ≤ 2 ^ 63
    → (k : ℕ) × (k < 64) × (roundup_to_pow2 x ≡ 2 ^ k) × (x ≤ 2 ^ k) × (2 ^ k < 2 * x)
unfolding roundup_to_pow2
roundup_to_pow2_lem x h b =
    let k = bits_to_hold 64 (x - 1) in
    let under = shift_lt x h b in
    let shift = bits_to_hold_lem 64 (x - 1) (omega arith) in
    let least = shift.1 (omega arith) in
    let large : leb x 1 ≡ false = ground arith in
    let fits : leb 64 k ≡ false = ground arith in
    (k, under, rw (large, fits) refl, omega (arith, shift.0), omega (arith, least))

is_pow2-pow : (bits k : ℕ) → k < bits → is_pow2 bits (2 ^ k) ≡ true
unfolding is_pow2
is_pow2-pow zero k h = absurd (omega arith)
is_pow2-pow (suc bits) zero h = refl
is_pow2-pow (suc bits) (suc k) h =
    let up = pow-suc 2 k in
    let half : 2 ^ suc k / 2 ≡ 2 ^ k = omega (arith, up) in
    let even : 2 ^ suc k % 2 ≡ 0 = omega (arith, up) in
    let large : 2 ^ suc k == 1 ≡ false = ground (arith, up, pow_positive k) in
    rw (large, even, half) (is_pow2-pow bits k (omega arith))

four_divides : (k : ℕ) → 32 ≤ 2 ^ k → (m : ℕ) × (2 ^ k ≡ m * 4)
four_divides zero h = absurd (omega arith)
four_divides (suc zero) h = absurd (omega arith)
four_divides (suc (suc k)) h = (2 ^ k, omega (arith, pow-suc 2 (suc k), pow-suc 2 k))

-- what a rounded count is widened to
widened_lem :
    (r k : ℕ)
    → k < 64
    → r ≡ 2 ^ k
    → (j : ℕ) × (j < 64) × (widened r ≡ 2 ^ j) × (widened r ≡ larger_of r 32)
widened_lem r k h q =
    let positive : (r == 0) ≡ false = ground (arith, pow_positive k, q) in
    elim (Bool-cases (ltb r 32)) [
      | inl t ↦ (5, omega arith, rw (positive, t) refl, rw positive refl)
      | inr t ↦ (k, h, rw (positive, t) q, rw positive refl)
    ]

rounded_lem :
    (x : ℕ)
    → 0 < x
    → x ≤ 2 ^ 63
    → (k : ℕ) × (k < 64) × (roundup_to_pow2 x ≡ 2 ^ k) × (x ≤ 2 ^ k) × (2 ^ k < 2 * x)
unfolding roundup_to_pow2
rounded_lem x h b = elim (Bool-cases (ltb 1 x)) [
  | inl t ↦ roundup_to_pow2_lem x (ground arith) b
  | inr t ↦
      let one : x ≡ 1 = ground arith in
      let small : leb x 1 ≡ true = ground arith in
      (0, omega arith, rw small one, omega (arith, one), omega (arith, one))
]

widened_bounds :
    (needed r : ℕ)
    → needed ≤ r
    → r < 2 * needed
    → (32 ≤ larger_of r 32)
      × (needed ≤ larger_of r 32)
      × (larger_of r 32 ≤ larger_of 32 (2 * needed))
widened_bounds needed r a b = (ground arith, ground arith, ground arith)

larger_of_mono : (a b : ℕ) → a ≤ b → larger_of 32 a ≤ larger_of 32 b
larger_of_mono a b h = ground arith

-- A count of elements that leaves room for the load factor gets a table whose size the probes can
-- address, a power of two of at least one bucket, in which the elements are within the load factor; it is
-- below 8/3 of the elements where it is more than a bucket.
pub slots_for_lem :
    (elements : ℕ)
    → 0 < elements
    → elements ≤ unrepresentable_k / 4
    → (is_addressable (slots_for elements) ≡ true)
      × (elements ≤ slots_for elements * 3 / 4)
      × (slots_for elements ≤ larger_of hash_bucket_capacity_k (8 * elements / 3))
unfolding slots_for is_addressable
slots_for_lem elements h b =
    let needed = elements * 4 / 3 in
    let some_elements : (elements == 0) ≡ false = ground arith in
    let fits : ltb (unrepresentable_k / 4) elements ≡ false = ground arith in
    let r = rounded_lem needed (omega arith) (omega arith) in
    let w = widened_lem (roundup_to_pow2 needed) r.0 r.1 r.2 in
    let bounds =
      widened_bounds needed (roundup_to_pow2 needed) (omega (arith, r.2, r.3))
        (omega (arith, r.2, r.4)) in
    let raw : slots_for elements ≡ widened (roundup_to_pow2 needed) =
      rw (some_elements, fits) refl in
    let power = raw ∙ w.2 in
    let large : 32 ≤ 2 ^ w.0 = omega (arith, w.2, w.3, bounds.0) in
    let fours = four_divides w.0 large in
    let upper = larger_of_mono (2 * needed) (8 * elements / 3) (omega arith) in
    let not_none : (2 ^ w.0 == 0) ≡ false = ground (arith, large) in
    let enough : leb 32 (2 ^ w.0) ≡ true = ground (arith, large) in
    rw power (
      rw (not_none, enough) (is_pow2-pow 64 w.0 w.1),
      omega (arith, w.2, w.3, bounds.1, fours.1),
      omega (arith, w.2, w.3, bounds.2, upper),
    )
