-- ===== src/HashTable/Sound.antt =====
-- The invariant of the hash table, include/smashtable/basic_hash_table.hpp: the counters are right, no
-- free slot stands between the first slot that a probe for a key visits and the key, and no two slots
-- hold equal keys.
pub mod Written
use smash_table.Base.{
  ℕ, zero, suc, ◌+◌, ◌*◌, ◌/◌, ◌%◌, ◌<◌, ◌≤◌, ◌≡◌, refl, sym, ◌∙◌, ap, arith, Bool, true, false,
  ◌==◌, ltb, if◌then◌else◌, inl, inr, ◌⊎◌, Bool-cases,
}
use smash_table.Monotonic.{KeyEquality}
use smash_table.HashTable.{
  Slot, free, deleted, populated, Storage, Hashing, is_free, is_deleted, is_populated, write,
  unallocated,
}
use smash_table.HashTable.Probes.{initial_offset}
use smash_table.HashTable.Probes.Round.{probe_at}

abbrev pub one_if : Bool → ℕ
one_if true = 1
one_if false = 0

module _ {K V : Type 0} where
  pub Slot-cases :
      (s : Slot K V) → (s ≡ free) ⊎ ((s ≡ deleted) ⊎ ((k : K) × (v : V) × (s ≡ populated k v)))
  Slot-cases free = inl refl
  Slot-cases deleted = inr (inl refl)
  Slot-cases (populated k v) = inr (inr (k, v, refl))

  -- how many of the first slots pass a test
  abbrev pub tally : (Slot K V → Bool) → (ℕ → Slot K V) → ℕ → ℕ
  tally test slots zero = 0
  tally test slots (suc n) = tally test slots n + one_if (test (slots n))

  pub write_here : (i : ℕ) (s : Slot K V) (slots : ℕ → Slot K V) → write i s slots i ≡ s
  write_here i s slots = ground arith

  pub write_there :
      (i j : ℕ) (s : Slot K V) (slots : ℕ → Slot K V)
      → (j == i) ≡ false
      → write i s slots j ≡ slots j
  write_there i j s slots h = rw h refl

  tally-write_above :
      (test : Slot K V → Bool) (i n : ℕ) (s : Slot K V) (slots : ℕ → Slot K V)
      → n ≤ i
      → tally test (write i s slots) n ≡ tally test slots n
  tally-write_above test i zero s slots h = refl
  tally-write_above test i (suc n) s slots h =
      let apart : (n == i) ≡ false = ground arith in
      rw (tally-write_above test i n s slots (omega arith), apart) refl

  pub tally-write :
      (test : Slot K V → Bool) (i n : ℕ) (s : Slot K V) (slots : ℕ → Slot K V)
      → i < n
      → tally test (write i s slots) n + one_if (test (slots i))
        ≡ tally test slots n + one_if (test s)
  tally-write test i zero s slots h = absurd (omega arith)
  tally-write test i (suc n) s slots h = elim (Bool-cases (n == i)) [
    | inl t ↦
        let same : n ≡ i = ground arith in
        let above = tally-write_above test i n s slots (omega (arith, same)) in
        rw (t, above, same) (omega arith)
    | inr t ↦ let below = tally-write test i n s slots (ground arith) in rw t (omega (arith, below))
  ]

  pub tally_le : (test : Slot K V → Bool) (slots : ℕ → Slot K V) (n : ℕ) → tally test slots n ≤ n
  tally_le test slots zero = omega arith
  tally_le test slots (suc n) =
      let below = tally_le test slots n in
      elim (Bool-cases (test (slots n))) [
        | inl t ↦ rw t (omega (arith, below))
        | inr t ↦ rw t (omega (arith, below))
      ]

  -- where all pass, all are counted
  pub tally_all :
      (test : Slot K V → Bool) (slots : ℕ → Slot K V) (n : ℕ)
      → ((i : ℕ) → i < n → test (slots i) ≡ true)
      → tally test slots n ≡ n
  tally_all test slots zero h = refl
  tally_all test slots (suc n) h =
      let below = tally_all test slots n (λ i b. h i (omega arith)) in
      rw (below, h n (omega arith)) (omega arith)

  -- one that passes is counted
  pub tally_one :
      (test : Slot K V → Bool) (slots : ℕ → Slot K V) (n i : ℕ)
      → i < n
      → test (slots i) ≡ true
      → 1 ≤ tally test slots n
  tally_one test slots zero i b h = absurd (omega arith)
  tally_one test slots (suc n) i b h = elim (Bool-cases (n == i)) [
    | inl t ↦ let same : n ≡ i = ground arith in rw (same, h) (omega arith)
    | inr t ↦ omega (arith, tally_one test slots n i (ground arith) h)
  ]

module _ {K V : Type 0} ⦃e : KeyEquality K⦄ ⦃h : Hashing K⦄ where
  -- the slot that the m-th probe for a key visits
  abbrev pub visited : Storage K V → K → ℕ → Slot K V
  visited t k m = t.slots (probe_at (initial_offset t k) t.slots_count m)

  pub record IsSound (t : Storage K V) : Type 0 where
    pub populated_right : t.populated_count ≡ tally is_populated t.slots t.slots_count
    pub deleted_right : t.deleted_count ≡ tally is_deleted t.slots t.slots_count
    pub threshold_right : t.growth_threshold ≡ t.slots_count * 3 / 4
    pub reachable :
        (k : K) (v : V) (n m : ℕ)
        → n < t.slots_count
        → m < n
        → visited t k n ≡ populated k v
        → is_free (visited t k m) ≡ false
    pub unique :
        (i j : ℕ) (k k' : K) (v v' : V)
        → i < t.slots_count
        → j < t.slots_count
        → t.slots i ≡ populated k v
        → t.slots j ≡ populated k' v'
        → e.same k k' ≡ true
        → i ≡ j

  -- the table holds a value under a key
  abbrev pub Stores : Storage K V → K → V → Type 0
  Stores t q v =
      (i : ℕ) × (k : K) × (i < t.slots_count) × (t.slots i ≡ populated k v) × (e.same k q ≡ true)

  -- no slot holds the key
  abbrev pub Misses : Storage K V → K → Type 0
  Misses t q =
      (i : ℕ) (k : K) (v : V) → i < t.slots_count → t.slots i ≡ populated k v → e.same k q ≡ false

  pub visited_same :
      (t : Storage K V) (j k : K) (m : ℕ) → e.same j k ≡ true → visited t j m ≡ visited t k m
  visited_same t j k m s =
      ap (λ x. t.slots (probe_at (x % t.slots_count) t.slots_count m)) (h.hasher_congr j k s)

  pub unallocated-IsSound : IsSound unallocated
  unallocated-IsSound = record {
    populated_right = refl;
    deleted_right = refl;
    threshold_right = refl;
    reachable = λ k v n m b. absurd (omega arith);
    unique = λ i j k k' v v' b. absurd (omega arith);
  }
