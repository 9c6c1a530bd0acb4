-- ===== src/HashTable/Growth/Prefix.antt =====
-- The first slots of a hash table, while they are moved, include/smashtable/basic_hash_table.hpp.
use smash_table.Base.{
  ℕ, zero, suc, ◌*◌, ◌/◌, ◌<◌, ◌≤◌, ◌≡◌, refl, sym, ◌∙◌, ap, arith, Bool, true, false, ◌==◌, Option,
  none, some, inl, inr, Bool-cases,
}
use smash_table.Monotonic.{KeyEquality}
use smash_table.Monotonic.Index.{same_sym}
use smash_table.HashTable.{Slot, free, populated, Storage, Hashing, is_deleted, is_populated}
use smash_table.HashTable.Sound.{IsSound, Misses, tally}
use smash_table.HashTable.Sound.Written.{Reads}

module _ {K V : Type 0} where
  pub tally_mono :
      (test : Slot K V → Bool) (slots : ℕ → Slot K V) (n m : ℕ)
      → n ≤ m
      → tally test slots n ≤ tally test slots m
  tally_mono test slots n zero h = let none : n ≡ 0 = omega arith in rw none (omega arith)
  tally_mono test slots n (suc m) h = elim (Bool-cases (n == suc m)) [
    | inl t ↦ let same : n ≡ suc m = ground arith in rw same (omega arith)
    | inr t ↦ omega (arith, tally_mono test slots n m (ground arith))
  ]

  pub tally_none :
      (test : Slot K V → Bool) (n : ℕ) → test free ≡ false → tally test (λ i. free) n ≡ 0
  tally_none test zero h = refl
  tally_none test (suc n) h = rw (tally_none test n h, h) refl

  -- a buffer just zeroed
  abbrev pub zeroed : ℕ → Storage K V
  zeroed n = record {
    slots = λ i. free;
    slots_count = n;
    growth_threshold = n * 3 / 4;
    populated_count = 0;
    deleted_count = 0;
  }

module _ {K V : Type 0} ⦃e : KeyEquality K⦄ ⦃h : Hashing K⦄ where
  pub zeroed-IsSound : (n : ℕ) → IsSound {K = K} {V = V} (zeroed n)
  zeroed-IsSound n = record {
    populated_right = sym (tally_none (is_populated {K = K} {V = V}) n refl);
    deleted_right = sym (tally_none (is_deleted {K = K} {V = V}) n refl);
    threshold_right = refl;
    reachable = λ k v n m b c x. absurd (cc x);
    unique = λ i j k k' v v' b c x. absurd (cc x);
  }

  pub zeroed-Misses : (n : ℕ) (q : K) → Misses {V = V} (zeroed n) q
  zeroed-Misses n q = λ i k v b x. absurd (cc x)

  -- the first slots of a table
  abbrev pub prefix : Storage K V → ℕ → Storage K V
  prefix t n = record t { slots_count = n }

  pub prefix-Reads :
      (t : Storage K V) (n : ℕ) (p : K) (x : Option V)
      → ((k : K) (v : V) → t.slots n ≡ populated k v → e.same k p ≡ false)
      → Reads (prefix t (suc n)) p x
      → Reads (prefix t n) p x
  prefix-Reads t n p none apart r = λ i k v b. r i k v (omega arith)
  prefix-Reads t n p (some v) apart (i, k, b, x, same) = elim (Bool-cases (i == n)) [
    | inl u ↦
        let here : i ≡ n = ground arith in
        let never : true ≡ false = sym same ∙ apart k v (ap t.slots (sym here) ∙ x) in
        absurd (cc never)
    | inr u ↦ (i, k, ground arith, x, same)
  ]

  -- the key of the next slot is in none before
  pub prefix-Misses :
      (t : Storage K V) (n : ℕ) (k p : K) (v : V)
      → IsSound t
      → n < t.slots_count
      → t.slots n ≡ populated k v
      → e.same k p ≡ true
      → Misses (prefix t n) p
  prefix-Misses t n k p v w b holds same = λ i k' v' c x. elim (Bool-cases (e.same k' p)) [
    | inr s ↦ s
    | inl s ↦
        let alike : e.same k' k ≡ true = e.same_congr k' p k s ∙ same_sym k p same in
        let never : i ≡ n = w.unique i n k' k v' v (omega arith) b x holds alike in
        absurd (omega (arith, never))
  ]

  pub next-Reads :
      (t : Storage K V) (n : ℕ) (k p : K) (v : V) (x : Option V)
      → IsSound t
      → n < t.slots_count
      → t.slots n ≡ populated k v
      → e.same k p ≡ true
      → Reads (prefix t (suc n)) p x
      → x ≡ some v
  next-Reads t n k p v none w b holds same r =
      let never : false ≡ true = sym (r n k v (omega arith) holds) ∙ same in absurd (cc never)
  next-Reads t n k p v (some u) w b holds same (i, k', c, x, s) = elim (Bool-cases (i == n)) [
    | inl y ↦
        let here : i ≡ n = ground arith in
        let both : populated k v ≡ populated k' u = sym holds ∙ ap t.slots (sym here) ∙ x in
        let value : u ≡ v = cc both in ap some value
    | inr y ↦
        let misses = prefix-Misses t n k p v w b holds same in
        let never : false ≡ true = sym (misses i k' u (ground arith) x) ∙ s in absurd (cc never)
  ]
