-- ===== src/HashTable/Sound/Written.antt =====
-- One slot of the hash table is written, include/smashtable/basic_hash_table.hpp: what that leaves of
-- the invariant and of what the table reads as.
use smash_table.Base.{
  ℕ, ◌+◌, ◌<◌, ◌≡◌, sym, ◌∙◌, ap, arith, true, false, ◌==◌, Option, none, some, if◌then◌else◌, inl,
  inr, ◌⊎◌, Bool-cases,
}
use smash_table.Monotonic.{KeyEquality}
use smash_table.Monotonic.Index.{same_sym}
use smash_table.HashTable.{
  Slot, populated, Storage, Hashing, is_free, is_deleted, is_populated, write,
}
use smash_table.HashTable.Sound.{
  IsSound, visited, Stores, Misses, one_if, tally-write, write_here, write_there,
}
use smash_table.HashTable.Probes.{initial_offset}
use smash_table.HashTable.Probes.Round.{probe_at}

module _ {K V : Type 0} ⦃e : KeyEquality K⦄ ⦃h : Hashing K⦄ where
  -- the table with another slot and other counters
  abbrev pub written : Storage K V → ℕ → Slot K V → ℕ → ℕ → Storage K V
  written t i s populated_count deleted_count = record t {
    slots = write i s t.slots;
    populated_count = populated_count;
    deleted_count = deleted_count;
  }

  -- what a written slot that holds a key has to meet
  pub record Belongs (t : Storage K V) (i : ℕ) (k : K) : Type 0 where
    pub reached :
        (n m : ℕ)
        → n < t.slots_count
        → m < n
        → probe_at (initial_offset t k) t.slots_count n ≡ i
        → is_free (visited t k m) ≡ false
    pub alone :
        (j : ℕ) (k' : K) (v : V)
        → j < t.slots_count
        → t.slots j ≡ populated k' v
        → e.same k k' ≡ true
        → j ≡ i

  written_free :
      (i j : ℕ) (s : Slot K V) (slots : ℕ → Slot K V)
      → is_free s ≡ false
      → (j ≡ i) ⊎ (is_free (slots j) ≡ false)
      → is_free (write i s slots j) ≡ false
  written_free i j s slots f c = elim (Bool-cases (j == i)) [
    | inl t ↦ rw t f
    | inr t ↦ elim c [ inl same ↦ absurd (ground arith) | inr g ↦ rw t g ]
  ]

  pub written-IsSound :
      (t : Storage K V) (i : ℕ) (s : Slot K V) (pc dc : ℕ)
      → IsSound t
      → i < t.slots_count
      → pc + one_if (is_populated (t.slots i)) ≡ t.populated_count + one_if (is_populated s)
      → dc + one_if (is_deleted (t.slots i)) ≡ t.deleted_count + one_if (is_deleted s)
      → is_free s ≡ false
      → ((k : K) (v : V) → s ≡ populated k v → Belongs t i k)
      → IsSound (written t i s pc dc)
  written-IsSound t i s pc dc w b p d f belongs = record {
    populated_right =
        omega (arith, p, w.populated_right, tally-write is_populated i t.slots_count s t.slots b);
    deleted_right =
        omega (arith, d, w.deleted_right, tally-write is_deleted i t.slots_count s t.slots b);
    threshold_right = w.threshold_right;
    reachable = λ k v n m c y x.
        let at = probe_at (initial_offset t k) t.slots_count n in
        let before = probe_at (initial_offset t k) t.slots_count m in
        written_free i before s t.slots f (elim (Bool-cases (at == i)) [
          | inl u ↦
              let here : at ≡ i = ground arith in
              let it : s ≡ populated k v = sym (ap (λ z. if z then s else t.slots at) u) ∙ x in
              inr ((belongs k v it).reached n m c y here)
          | inr u ↦ inr (w.reachable k v n m c y (sym (write_there i at s t.slots u) ∙ x))
        ]);
    unique = λ j j' k k' v v' c c' x x' same. elim (Bool-cases (j == i)) [
      | inl u ↦
          let here : j ≡ i = ground arith in
          let it : s ≡ populated k v = sym (ap (λ z. if z then s else t.slots j) u) ∙ x in
          elim (Bool-cases (j' == i)) [
            | inl u' ↦ ground arith
            | inr u' ↦
                here
                ∙ sym (
                    (belongs k v it).alone j' k' v' c' (sym (write_there i j' s t.slots u') ∙ x')
                      same)
          ]
      | inr u ↦
          let there : t.slots j ≡ populated k v = sym (write_there i j s t.slots u) ∙ x in
          elim (Bool-cases (j' == i)) [
            | inl u' ↦
                let here : j' ≡ i = ground arith in
                let it : s ≡ populated k' v' =
                  sym (ap (λ z. if z then s else t.slots j') u') ∙ x' in
                (belongs k' v' it).alone j k v c there (same_sym k k' same) ∙ sym here
            | inr u' ↦
                w.unique j j' k k' v v' c c' there (sym (write_there i j' s t.slots u') ∙ x') same
          ]
    ];
  }

  -- what the table reads as under a key
  abbrev pub Reads : Storage K V → K → Option V → Type 0
  Reads t q none = Misses t q
  Reads t q (some v) = Stores t q v

  -- what a slot holds is not under a key
  abbrev pub Differs : Slot K V → K → Type 0
  Differs s q = (k : K) (v : V) → s ≡ populated k v → e.same k q ≡ false

  pub written-Reads :
      (t : Storage K V) (i : ℕ) (s : Slot K V) (pc dc : ℕ) (q : K) (x : Option V)
      → Differs s q
      → Differs (t.slots i) q
      → Reads t q x
      → Reads (written t i s pc dc) q x
  written-Reads t i s pc dc q none apart apart' r = λ j k v c x. elim (Bool-cases (j == i)) [
    | inl u ↦ apart k v (sym (ap (λ z. if z then s else t.slots j) u) ∙ x)
    | inr u ↦ r j k v c (sym (write_there i j s t.slots u) ∙ x)
  ]
  written-Reads t i s pc dc q (some v) apart apart' (j, k, c, x, same) = (
    j,
    k,
    c,
    elim (Bool-cases (j == i)) [
      | inl u ↦
          let here : j ≡ i = ground arith in
          let never : true ≡ false = sym same ∙ apart' k v (ap t.slots (sym here) ∙ x) in
          absurd (cc never)
      | inr u ↦ write_there i j s t.slots u ∙ x
    ],
    same,
  )

  pub written-Stores :
      (t : Storage K V) (i : ℕ) (k : K) (v : V) (pc dc : ℕ) (q : K)
      → i < t.slots_count
      → e.same k q ≡ true
      → Stores (written t i (populated k v) pc dc) q v
  written-Stores t i k v pc dc q b same = (i, k, b, write_here i (populated k v) t.slots, same)
