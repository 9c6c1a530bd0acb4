-- ===== src/HashTable/Probes/Round.antt =====
-- The slots that a probe visits in turn, include/smashtable/basic_hash_table.hpp: once round the
-- table from the first.
use native.Mathlib.Nat.{mod-lt, mod-eq_of_lt, mod_self}
use smash_table.Base.{
  ℕ, ◌+◌, ◌-◌, ◌%◌, ◌<◌, ◌≡◌, ◌∙◌, ap, arith, ltb, ◌==◌, if◌then◌else◌, inl, inr, Bool-cases,
  ltb→lt, ltb-eq-false,
}

-- the slot of the m-th probe
abbrev pub probe_at : ℕ → ℕ → ℕ → ℕ
probe_at initial n m = if ltb (initial + m) n then initial + m else initial + m - n

pub probe_at-zero : (initial n : ℕ) → initial < n → probe_at initial n 0 ≡ initial
probe_at-zero initial n h = ground arith

pub probe_at_lt : (initial n m : ℕ) → initial < n → m < n → probe_at initial n m < n
probe_at_lt initial n m h b = ground arith

wrap : (a n : ℕ) → a < n → (a + 1) % n ≡ (if ltb (a + 1) n then a + 1 else 0)
wrap a n h = elim (Bool-cases (ltb (a + 1) n)) [
  | inl t ↦ rw t (mod-eq_of_lt (ltb→lt (a + 1) n t))
  | inr t ↦
      let top : a + 1 ≡ n = omega (arith, ltb-eq-false (a + 1) n t) in
      rw t (ap (λ x. x % n) top ∙ mod_self n)
]

pub next_probe :
    (initial n m : ℕ)
    → initial < n
    → m < n
    → (probe_at initial n m + 1) % n ≡ probe_at initial n (m + 1)
next_probe initial n m h b =
    wrap (probe_at initial n m) n (probe_at_lt initial n m h b) ∙ ground arith

-- the probe is back at its first slot after a full round, and not before
pub back_again :
    (initial n m : ℕ) → initial < n → m < n → (probe_at initial n (m + 1) == initial) ≡ (m + 1 == n)
back_again initial n m h b = ground arith

-- every slot is one of a round
pub probe_onto :
    (initial n i : ℕ) → initial < n → i < n → (m : ℕ) × (m < n) × (probe_at initial n m ≡ i)
probe_onto initial n i h b = elim (Bool-cases (ltb i initial)) [
  | inl t ↦ (i + n - initial, omega (arith, ltb→lt i initial t), ground (arith, ltb→lt i initial t))
  | inr t ↦ (
    i - initial,
    omega (arith, ltb-eq-false i initial t),
    ground (arith, ltb-eq-false i initial t),
  )
]

pub initial_lt : (x n : ℕ) → 0 < n → x % n < n
initial_lt x n h = mod-lt x h
