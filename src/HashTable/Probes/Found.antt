-- ===== src/HashTable/Probes/Found.antt =====
-- The loop that finds a key, `probe_to_find` in include/smashtable/basic_hash_table.hpp.
use smash_table.Base.{
  ℕ, zero, suc, ◌+◌, ◌<◌, ◌≤◌, ◌≡◌, refl, sym, ◌∙◌, ap, arith, true, false, ◌==◌, ltb, Option, none,
  some, if◌then◌else◌, inl, inr, Bool-cases,
}
use smash_table.Monotonic.{KeyEquality}
use smash_table.HashTable.{Slot, free, deleted, populated, Storage, Hashing, is_free, is_populated}
use smash_table.HashTable.Sound.{IsSound, visited, visited_same, Slot-cases, Misses, tally_one}
use smash_table.HashTable.Probes.{find_loop, probe_to_find, initial_offset, next_offset}
use smash_table.HashTable.Probes.Round.{
  probe_at, probe_at-zero, probe_at_lt, next_probe, back_again, probe_onto, initial_lt,
}

module _ {K V : Type 0} ⦃e : KeyEquality K⦄ ⦃h : Hashing K⦄ where
  -- a slot that a probe for a key goes past
  abbrev pub Passes : Slot K V → K → Type 0
  Passes s q = (is_free s ≡ false) × ((k : K) (v : V) → s ≡ populated k v → e.same k q ≡ false)

  -- the first probes all went past
  abbrev pub Passed : Storage K V → K → ℕ → Type 0
  Passed t q m = (j : ℕ) → j < m → Passes (visited t q j) q

  pub Passed-suc :
      (t : Storage K V) (q : K) (m : ℕ)
      → Passed t q m
      → Passes (visited t q m) q
      → Passed t q (m + 1)
  Passed-suc t q m before here j b = elim (Bool-cases (j == m)) [
    | inl c ↦ let same : j ≡ m = ground arith in rw same here
    | inr c ↦ before j (ground arith)
  ]

  pub deleted-Passes : (s : Slot K V) (q : K) → s ≡ deleted → Passes s q
  deleted-Passes s q d = rw d (refl, λ k v x. absurd (cc x))

  pub populated-Passes :
      (s : Slot K V) (q k : K) (v : V) → s ≡ populated k v → e.same k q ≡ false → Passes s q
  populated-Passes s q k v d x = rw d (refl, λ k' v' y. let same : k' ≡ k = cc y in rw same x)

  -- past every slot, the key is nowhere
  pub Passed-Misses : (t : Storage K V) (q : K) → Passed t q t.slots_count → Misses t q
  Passed-Misses t q before i k v b x =
      let m =
        probe_onto (initial_offset t q) t.slots_count i
          (initial_lt (h.hasher q) t.slots_count (omega arith)) b in
      (before m.0 m.1).1 k v (ap t.slots m.2 ∙ x)

  -- a free slot ends the search for a key that is nowhere
  pub free-Misses :
      (t : Storage K V) (q : K) (m : ℕ)
      → IsSound t
      → m < t.slots_count
      → visited t q m ≡ free
      → Passed t q m
      → Misses t q
  free-Misses t q m w b f before i k v c x = elim (Bool-cases (e.same k q)) [
    | inr s ↦ s
    | inl s ↦
        let n =
          probe_onto (initial_offset t q) t.slots_count i
            (initial_lt (h.hasher q) t.slots_count (omega arith)) c in
        let there : visited t q n.0 ≡ populated k v = ap t.slots n.2 ∙ x in
        elim (Bool-cases (ltb n.0 m)) [
          | inl u ↦ (before n.0 (ground arith)).1 k v there
          | inr u ↦ elim (Bool-cases (n.0 == m)) [
            | inl y ↦
                let same : n.0 ≡ m = ground arith in
                let never : populated k v ≡ free = sym there ∙ ap (visited t q) same ∙ f in
                absurd (cc never)
            | inr y ↦
                let busy =
                  w.reachable k v n.0 m n.1 (ground arith) (visited_same t k q n.0 s ∙ there) in
                let never : false ≡ true = sym busy ∙ ap is_free (visited_same t k q m s ∙ f) in
                absurd (cc never)
          ]
        ]
  ]

  -- what a search reports
  abbrev pub Finds : Storage K V → K → Option ℕ → Type 0
  Finds t q none = Misses t q
  Finds t q (some i) =
      (k : K) × (v : V) × (i < t.slots_count) × (t.slots i ≡ populated k v) × (e.same k q ≡ true)

  -- the loop ends within its fuel, with what it is to find
  abbrev Ends : Storage K V → K → ℕ → ℕ → Type 0
  Ends t q fuel m =
      (r : Option ℕ) × (find_loop fuel t q (probe_at (initial_offset t q) t.slots_count m) ≡ some r)
      × Finds t q r

  -- a step past a slot
  onward :
      (t : Storage K V) (q : K) (fuel m : ℕ)
      → m < t.slots_count
      → Passed t q (m + 1)
      → find_loop (suc fuel) t q (probe_at (initial_offset t q) t.slots_count m) ≡ (
          if m + 1 == t.slots_count
          then some none
          else find_loop fuel t q (probe_at (initial_offset t q) t.slots_count (m + 1)))
      → (m + 1 < t.slots_count → Ends t q fuel (m + 1))
      → Ends t q (suc fuel) m
  onward t q fuel m b before step rest = elim (Bool-cases (m + 1 == t.slots_count)) [
    | inl r ↦
        let round : m + 1 ≡ t.slots_count = ground arith in
        (none, step ∙ rw r refl, Passed-Misses t q (λ j c. before j (omega arith)))
    | inr r ↦ let found = rest (ground arith) in (found.0, step ∙ rw r found.1, found.2)
  ]

  find_loop_lem :
      (t : Storage K V) (q : K) (fuel m : ℕ)
      → IsSound t
      → t.slots_count ≤ fuel + m
      → m < t.slots_count
      → Passed t q m
      → Ends t q fuel m
  unfolding find_loop
  find_loop_lem t q zero m w c b before = absurd (omega arith)
  find_loop_lem t q (suc fuel) m w c b before =
      let initial = initial_offset t q in
      let n = t.slots_count in
      let start = initial_lt (h.hasher q) n (omega arith) in
      let next = next_probe initial n m start b in
      let back : next_offset t (probe_at initial n m) == initial ≡ (m + 1 == n) =
        ap (λ x. x == initial) next ∙ back_again initial n m start b in
      elim (Slot-cases (visited t q m)) [
        | inl f ↦ (none, rw (f, find_loop) refl, free-Misses t q m w b f before)
        | inr (inl d) ↦
            let further = Passed-suc t q m before (deleted-Passes (visited t q m) q d) in
            onward t q fuel m b further (rw (d, back, next, find_loop) refl)
              (λ y. find_loop_lem t q fuel (m + 1) w (omega arith) y further)
        | inr (inr (k, v, p)) ↦ elim (Bool-cases (e.same k q)) [
          | inl s ↦ (
            some (probe_at initial n m),
            rw (p, s, find_loop) refl,
            (k, v, probe_at_lt initial n m start b, p, s),
          )
          | inr s ↦
              let further = Passed-suc t q m before (populated-Passes (visited t q m) q k v p s) in
              onward t q fuel m b further (rw (p, s, back, next, find_loop) refl)
                (λ y. find_loop_lem t q fuel (m + 1) w (omega arith) y further)
        ]
      ]

  -- In a sound table with slots, the loop that looks for a key ends within a round of the table, at the
  -- slot that holds the key, or with none where no slot does.
  pub find_loop-Finds :
      (t : Storage K V) (q : K) (fuel : ℕ)
      → IsSound t
      → 0 < t.slots_count
      → t.slots_count ≤ fuel
      → (r : Option ℕ) × (find_loop fuel t q (initial_offset t q) ≡ some r) × Finds t q r
  find_loop-Finds t q fuel w p f =
      let start = initial_lt (h.hasher q) t.slots_count p in
      let found = find_loop_lem t q fuel 0 w (omega arith) p (λ j b. absurd (omega arith)) in
      let at = probe_at-zero (initial_offset t q) t.slots_count start in
      (found.0, sym (ap (find_loop fuel t q) at) ∙ found.1, found.2)

  pub probe_to_find_lem : (t : Storage K V) (q : K) → IsSound t → Finds t q (probe_to_find t q)
  unfolding probe_to_find
  probe_to_find_lem t q w = elim (Bool-cases (t.populated_count == 0)) [
    | inl z ↦
        let none_populated : t.populated_count ≡ 0 = ground arith in
        rw z (λ i k v b x.
          let one = tally_one is_populated t.slots t.slots_count i b (rw x refl) in
          absurd (omega (arith, w.populated_right, none_populated, one)))
    | inr z ↦ elim (Bool-cases (t.slots_count == 0)) [
      | inl y ↦
          let no_slots : t.slots_count ≡ 0 = ground arith in
          let zero_populated : t.populated_count ≡ 0 = w.populated_right ∙ rw no_slots refl in
          absurd (ground (arith, zero_populated))
      | inr y ↦
          let found = find_loop-Finds t q t.slots_count w (ground arith) (omega arith) in
          rw (z, found.1) found.2
    ]
  ]
